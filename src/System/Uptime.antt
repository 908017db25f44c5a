-- ===== src/System/Uptime.antt =====
-- system.go: the uptime as text and the date of the last boot.
use systats.Go.Float.{Float64}
use systats.Go.Outcome.{ok}
use systats.Go.Strconv.RoundTrip.{format_uint-IsWord}
use systats.Go.Strconv.{format_uint}
use systats.Go.Strings.Fields.{IsSolid}
use systats.Go.Strings.Blank.{trim_space-IsSolid}
use systats.Go.Strings.{is_space, trim_space}
use systats.Go.Time.{
  Time, second, wrap64, mul_int64, neg_int64, add, round_second, padded, drop_zeros, fraction,
  clock, unsigned, duration_string,
}
use systats.Prelude.Int.{pos, sub_ℕ}
use systats.Prelude.Text.{Text, codes}
use systats.Prelude.{
  ℕ, zero, suc, ◌+◌, ◌-◌, ◌*◌, ◌/◌, ◌%◌, ◌^◌, ◌≤◌, ◌<◌, ◌≡◌, refl, ap, ◌∙◌, false, some, List, [],
  ◌∷◌, ◌++◌, arith, All-append, if◌then◌else◌, ◌==◌, Bool-cases, inl, inr,
}
use systats.System.{BootTimes, uptime_of, boot_times}

wrap64_small : (m : ℕ) → m < 2 ^ 63 → wrap64 (pos m) ≡ pos m
unfolding wrap64
wrap64_small m h = ground arith

wrap64_negative : (m : ℕ) → m < 2 ^ 63 → wrap64 (sub_ℕ 0 m) ≡ sub_ℕ 0 m
unfolding wrap64
wrap64_negative m h = ground arith

mul_int64_small : (n : ℕ) → n * second < 2 ^ 63 → mul_int64 (pos n) second ≡ pos (n * second)
unfolding mul_int64
mul_int64_small n h = ground (arith, wrap64_small (n * second) h)

neg_int64_small : (m : ℕ) → m < 2 ^ 63 → neg_int64 (pos m) ≡ sub_ℕ 0 m
unfolding neg_int64
neg_int64_small m h = wrap64_negative m h

boot_date : (t m : ℕ) → m ≤ t → add (pos t) (sub_ℕ 0 m) ≡ pos (t - m)
unfolding add
boot_date t m h = ground arith

-- Hours, minutes and seconds, the first ones only where there are any.
abbrev pub hms : ℕ → ℕ → ℕ → Text
unfolding format_uint
hms h m s =
    let seconds = format_uint s ++ codes "s" in
    let minutes = format_uint m ++ (b'm' ∷ seconds) in
    if h == 0 then (if m == 0 then seconds else minutes) else format_uint h ++ (b'h' ∷ minutes)

unit_IsSolid :
    (n c : ℕ) (s : Text) → is_space c ≡ false → IsSolid s → IsSolid (format_uint n ++ (c ∷ s))
unit_IsSolid n c s h k =
    All-append (λ d. is_space d ≡ false) (format_uint n) (c ∷ s) (format_uint-IsWord n).1 (h, k)

hms-IsSolid : (h m s : ℕ) → IsSolid (hms h m s)
unfolding hms
hms-IsSolid h m s =
    let seconds = unit_IsSolid s b's' [] (unfold is_space in refl) tt in
    let minutes = unit_IsSolid m b'm' _ (unfold is_space in refl) seconds in
    elim (Bool-cases (h == 0)) [
      | inr p ↦ rw p (unit_IsSolid h b'h' _ (unfold is_space in refl) minutes)
      | inl z ↦ elim (Bool-cases (m == 0)) [ inl q ↦ rw (z, q) seconds | inr q ↦ rw (z, q) minutes ]
    ]

clock-hms : (n : ℕ) → clock n (codes "s") ≡ hms (n / 60 / 60) (n / 60 % 60) (n % 60)
unfolding clock
clock-hms n = ground arith

no_fraction : drop_zeros (padded 9 0) ≡ []
unfolding drop_zeros padded
no_fraction = refl

whole_seconds :
    (n : ℕ)
    → clock (n * second / second) (fraction 9 (n * second) ++ codes "s") ≡ clock n (codes "s")
unfolding fraction
whole_seconds n =
    let rest : n * second % 10 ^ 9 ≡ 0 = omega arith in
    let whole : n * second / second ≡ n = omega arith in rw (whole, rest, no_fraction) refl

unsigned_seconds : (n : ℕ) → unsigned (n * second) ≡ clock n (codes "s")
unfolding unsigned
unsigned_seconds zero = unfold clock format_uint in refl
unsigned_seconds (suc n) = ground (arith, whole_seconds (suc n))

-- Hours, minutes below 60 and seconds below 60 that make up `n` seconds, and their text.
pub record IsUpTime (n : ℕ) (up_time : Text) : Type 0 where
  pub hours : ℕ
  pub minutes : ℕ
  pub seconds : ℕ
  pub sum : hours * 3600 + minutes * 60 + seconds ≡ n
  pub minutes_lt : minutes < 60
  pub seconds_lt : seconds < 60
  pub text : up_time ≡ hms hours minutes seconds

-- A whole second since the epoch, at most half a second from the boot `n` seconds before `t`.
pub record IsBootDate (n t : ℕ) (date : Time) : Type 0 where
  pub at : ℕ
  pub date_lem : date ≡ pos (at * second)
  pub not_early : t ≤ at * second + n * second + second / 2
  pub not_late : at * second + n * second ≤ t + second / 2

duration_string-IsUpTime :
    (n : ℕ) → n * second < 2 ^ 63 → IsUpTime n (trim_space (duration_string (pos (n * second))))
unfolding duration_string
duration_string-IsUpTime n h = record {
  hours = n / 60 / 60;
  minutes = n / 60 % 60;
  seconds = n % 60;
  sum = omega arith;
  minutes_lt = omega arith;
  seconds_lt = omega arith;
  text =
      ap trim_space (unsigned_seconds n ∙ clock-hms n)
      ∙ trim_space-IsSolid _ (hms-IsSolid (n / 60 / 60) (n / 60 % 60) (n % 60));
}

module _ (fl : Float64) where
  open fl use {F, to_int, parse}

  -- For an uptime of `n` whole seconds that fits a Duration (292 years), and is no longer than the
  -- time since the epoch, processSystemBootTimes gives the figure itself as the seconds, its whole
  -- seconds as hours, minutes and seconds, and a boot date that lies, rounded to the second, that
  -- long before now.
  pub boot_times-IsUpTime :
      (t n : ℕ) (first : Text) (rest : List Text) (s : F)
      → parse (trim_space first) ≡ some s
      → to_int s ≡ pos n
      → n * second < 2 ^ 63
      → n * second ≤ t
      → (b : BootTimes fl) × (boot_times fl (pos t) (first ∷ rest) ≡ ok b)
        × (b.up_time_seconds ≡ s)
        × IsUpTime n b.up_time
        × IsBootDate n t b.last_boot_date
  unfolding boot_times uptime_of
  boot_times-IsUpTime t n first rest s p i fits past =
      let up : uptime_of fl s ≡ pos (n * second) = rw i (mul_int64_small n fits) in
      (
        record {
          up_time = trim_space (duration_string (pos (n * second)));
          up_time_seconds = s;
          last_boot_date = round_second (pos (t - n * second));
        },
        rw (p, boot_times)
            (rw
              (
                i,
                mul_int64_small n fits,
                neg_int64_small (n * second) fits,
                boot_date t (n * second) past,
              )
              refl),
        refl,
        duration_string-IsUpTime n fits,
        record {
          at = (t - n * second + second / 2) / second;
          date_lem = unfold round_second in refl;
          not_early = omega arith;
          not_late = omega arith;
        },
      )
