-- ===== src/System/Minutes.antt =====
-- system.go: the minutes that who(1) prints.
use systats.Go.Time.{
  days_in, padded, date, parse_minute, two, date_of, hour_of, minute_of, clock_of,
}
use systats.Prelude.Text.{Text}
use systats.Prelude.{ℕ, ◌+◌, ◌/◌, ◌%◌, ◌≤◌, ◌<◌, ◌≡◌, refl, ap, some, ◌∷◌, ◌++◌, arith}

-- A minute of the calendar.
pub record Minute : Type 0 where
  pub year : ℕ
  pub month : ℕ
  pub day : ℕ
  pub hour : ℕ
  pub min : ℕ

pub record IsMinute (t : Minute) : Type 0 where
  pub year_lt : t.year < 10000
  pub month_le : t.month ≤ 12
  pub month_pos : 1 ≤ t.month
  pub day_le : t.day ≤ days_in t.month t.year
  pub day_pos : 1 ≤ t.day
  pub hour_lt : t.hour < 24
  pub min_lt : t.min < 60

abbrev pub day_text : Minute → Text
day_text t = padded 4 t.year ++ (b'-' ∷ (padded 2 t.month ++ (b'-' ∷ padded 2 t.day)))

abbrev pub minute_text : Minute → Text
minute_text t = padded 2 t.hour ++ (b':' ∷ padded 2 t.min)

two_digits : (n : ℕ) → n < 100 → two (48 + n / 10 % 10) (48 + n % 10) ≡ some n
unfolding two
two_digits n h = ground arith

century :
    (y : ℕ) → y < 10000 → two (48 + y / 10 / 10 / 10 % 10) (48 + y / 10 / 10 % 10) ≡ some (y / 100)
unfolding two
century y h = ground arith

year_of_century : (y : ℕ) → two (48 + y / 10 % 10) (48 + y % 10) ≡ some (y % 100)
unfolding two
year_of_century y = ground arith

days_in-le : (m y : ℕ) → days_in m y ≤ 31
unfolding days_in
days_in-le m y = ground arith

module _ (t : Minute) (v : IsMinute t) where
  date_of_day : (s : Text) → date_of (day_text t ++ (32 ∷ s)) ≡ some (t.year, t.month, t.day, s)
  unfolding date_of padded
  date_of_day s =
      rw
        (
          century t.year v.year_lt,
          year_of_century t.year,
          two_digits t.month (omega arith),
          two_digits t.day (omega (arith, days_in-le t.month t.year)),
          date_of,
        )
        (ap (λ (y : ℕ). some (y, t.month, t.day, s)) (omega arith))

  hour_of_minute : hour_of (minute_text t) ≡ some (t.hour, b':' ∷ padded 2 t.min)
  unfolding hour_of padded
  hour_of_minute = ground arith

  minute_of-padded : minute_of (b':' ∷ padded 2 t.min) ≡ some t.min
  unfolding minute_of padded
  minute_of-padded = rw (two_digits t.min (omega arith)) refl

  -- A minute is read back from the text that who(1) prints of it.
  pub parse_minute-day_text :
      parse_minute (day_text t ++ (32 ∷ minute_text t))
      ≡ some (date t.year t.month t.day t.hour t.min)
  unfolding parse_minute clock_of
  parse_minute-day_text =
      rw (date_of_day (minute_text t), parse_minute)
        (rw (hour_of_minute, clock_of)
          (rw minute_of-padded (ground (arith, v.day_pos, v.day_le, v.month_pos, v.month_le))))
