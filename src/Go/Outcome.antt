-- ===== src/Go/Outcome.antt =====
-- The ways a Go call ends: it returns a value, it returns an error, or it panics.
use systats.Prelude.{◌≡◌, refl, Option, none, some}
use systats.Prelude.Text.{Text}

-- Run-time panics: a failed conversion, and a slice index out of range.
pub data Panic : Type 0 where
  conversion index_out_of_range slice_out_of_range : Panic

-- The errors that the program makes or passes on. `recovered` is made by `withRecover`.
pub data Error : Type 0 where
  file_not_found not_supported not_from_unit not_to_unit unknown_cgroup : Text → Error
  bad_cpu_max bad_loadavg bad_stat bad_self_cgroup bad_uptime bad_number : Error
  no_cgroup controller_not_found mem_total_not_found ambiguous no_match stopped : Text → Error
  empty_name no_dir cancelled : Error
  bad_sort_order : Text → Error
  undetermined : Text → Text → Text → Error
  no_container_socket : Error
  bad_status : Text → Error
  other : Text → Error
  recovered : Panic → Error

pub data Outcome {ℓ} (A : Type ℓ) : Type ℓ where
  ok : A → Outcome A
  fail : Error → Outcome A
  panic : Panic → Outcome A

-- What follows a call is reached only where the call returned.
infixl 5 ◌>>=◌
abbrev pub ◌>>=◌ {κ ν} : {T : Type κ} {S : Type ν} → Outcome T → (T → Outcome S) → Outcome S
panic cause >>= next = panic cause
fail error >>= next = fail error
ok value >>= next = next value

-- The same, where the call returns nothing but its error.
infixl 5 ◌>>◌
abbrev pub ◌>>◌ {κ} : {S : Type κ} → Outcome (Unit {0}) → Outcome S → Outcome S
panic cause >> next = panic cause
fail error >> next = fail error
ok done >> next = next

-- `s[i]` on a slice.
abbrev pub index {ℓ} : {A : Type ℓ} → Option A → Outcome A
index none = panic index_out_of_range
index (some a) = ok a

-- A sequence that returns had a first call that returned.
pub >>=-eq-ok {κ ν} :
    {T : Type κ} {S : Type ν} (call : Outcome T) (next : T → Outcome S) {last : S}
    → (call >>= next) ≡ ok last
    → (value : T) × (call ≡ ok value) × (next value ≡ ok last)
>>=-eq-ok (panic cause) next h = cc
>>=-eq-ok (fail error) next h = cc
>>=-eq-ok (ok value) next h = (value, refl, h)

pub ok-injective {ℓ} : {A : Type ℓ} {a b : A} → ok a ≡ ok b → a ≡ b
ok-injective h = cc
