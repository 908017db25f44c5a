-- ===== src/Stats.antt =====
-- Dictionaries of counters: Go maps with text keys, as association lists whose first entry for a
-- key counts. Iteration order is never used.
use systats.Prelude.{ℕ, ◌≡◌, refl, Option, none, some, List, [], ◌∷◌, arith, if◌then◌else◌}
use systats.Prelude.Text.{Text, eqb, eqb_iff}

abbrev pub Dict {ℓ} : Type ℓ → Type ℓ
Dict V = List (Text × V)

module _ {ℓ} {V : Type ℓ} where
  -- v, ok := m[k]
  unfoldable pub lookup : Text → Dict V → Option V
  lookup k [] = none
  lookup k ((j, v) ∷ m) = if eqb j k then some v else lookup k m

  -- m[k] = v
  unfoldable pub put : Text → V → Dict V → Dict V
  put k v [] = (k, v) ∷ []
  put k v ((j, w) ∷ m) = if eqb j k then (k, v) ∷ m else (j, w) ∷ put k v m

  pub lookup-put :
      (k j : Text) (v : V) (m : Dict V)
      → lookup j (put k v m) ≡ (if eqb k j then some v else lookup j m)
  unfolding lookup put
  lookup-put k j v [] = refl
  lookup-put k j v ((i, w) ∷ m) =
      ground (arith, eqb_iff k j, eqb_iff i k, eqb_iff i j, lookup-put k j v m)

-- m[k] where a missing key reads as 0
abbrev pub or_zero : Option ℕ → ℕ
or_zero (some v) = v
or_zero none = 0

unfoldable pub get : Dict ℕ → Text → ℕ
unfolding lookup
get m k = or_zero (lookup k m)
