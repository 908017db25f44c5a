-- ===== src/Go/Time.antt =====
-- Package time: instants, Duration.String, Time.Round to a second, and Parse with the layout
-- "2006-01-02 15:04". An instant is the nanoseconds since the Unix epoch; a duration is an int64.
use systats.Prelude.Int.{ℤ, pos, negsuc, sub_ℕ, pos_part, neg_part}
use systats.Prelude.Text.{Text, codes}
use systats.Prelude.{
  ℕ, zero, suc, ◌+◌, ◌-◌, ◌*◌, ◌/◌, ◌%◌, ◌^◌, ◌≡◌, refl, Bool, not, ◌&&◌, ◌||◌, Option, none, some,
  [], ◌∷◌, ◌++◌, ltb, leb, ◌==◌, if◌then◌else◌,
}
use systats.Go.Strconv.{format_uint}

abbrev pub Time : Type 0
Time = ℤ

abbrev pub second : ℕ
second = 10 ^ 9

-- int64 from an integer, with its wrap-around
unfoldable pub wrap64 : ℤ → ℤ
wrap64 d =
    let r = (pos_part d + (2 ^ 64 - neg_part d % 2 ^ 64)) % 2 ^ 64 in
    if ltb r (2 ^ 63) then pos r else sub_ℕ r (2 ^ 64)

-- d * k on int64, for a factor that is not negative
unfoldable pub mul_int64 : ℤ → ℕ → ℤ
unfolding wrap64
mul_int64 d k = wrap64 (sub_ℕ (pos_part d * k) (neg_part d * k))

-- -d on int64
unfoldable pub neg_int64 : ℤ → ℤ
unfolding wrap64
neg_int64 d = wrap64 (sub_ℕ (neg_part d) (pos_part d))

-- t.Add(d)
unfoldable pub add : Time → ℤ → Time
add t d = sub_ℕ (pos_part t + pos_part d) (neg_part t + neg_part d)

-- t.Round(time.Second): half a second rounds up. The epoch is at a whole second.
unfoldable pub round_second : Time → Time
round_second (pos n) = pos ((n + second / 2) / second * second)
round_second (negsuc n) = sub_ℕ 0 ((n + second / 2) / second * second)

abbrev max_duration : ℤ
max_duration = pos (2 ^ 63 - 1)

abbrev min_duration : ℤ
min_duration = negsuc (2 ^ 63 - 1)

-- d.Round(m): half of m rounds away from zero, and what does not fit is the nearest that does.
unfoldable pub round_duration : ℤ → ℕ → ℤ
round_duration (pos n) m =
    if ltb (2 * (n % m)) m
    then pos (n - n % m)
    else if ltb (n + m - n % m) (2 ^ 63)
    then pos (n + m - n % m)
    else max_duration
round_duration (negsuc n) m =
    if ltb (2 * (suc n % m)) m
    then sub_ℕ 0 (suc n - suc n % m)
    else if leb (suc n + m - suc n % m) (2 ^ 63)
    then sub_ℕ 0 (suc n + m - suc n % m)
    else min_duration

-- Exactly `k` decimal digits.
unfoldable pub padded : ℕ → ℕ → Text
padded zero n = []
padded (suc k) n = padded k (n / 10) ++ ((b'0' + n % 10) ∷ [])

unfoldable pub drop_zeros : Text → Text
drop_zeros [] = []
drop_zeros (c ∷ s) = elim (drop_zeros s) [
  | [] ↦ if c == b'0' then [] else c ∷ []
  | d ∷ r ↦ c ∷ d ∷ r
]

abbrev point : Text → Text
point [] = []
point (c ∷ s) = b'.' ∷ c ∷ s

-- The digits behind the point, without the zeros at their end.
unfoldable pub fraction : ℕ → ℕ → Text
unfolding padded drop_zeros
fraction k n = point (drop_zeros (padded k (n % 10 ^ k)))

abbrev with_unit : ℕ → ℕ → Text → Text
unfolding fraction format_uint
with_unit k n unit = format_uint (n / 10 ^ k) ++ (fraction k n ++ unit)

-- Hours and minutes before the seconds, where there are any.
unfoldable pub clock : ℕ → Text → Text
unfolding format_uint
clock s tail =
    let seconds = format_uint (s % 60) ++ tail in
    if s / 60 == 0
    then seconds
    else (let minutes = format_uint (s / 60 % 60) ++ (b'm' ∷ seconds) in
        if s / 60 / 60 == 0 then minutes else format_uint (s / 60 / 60) ++ (b'h' ∷ minutes))

unfoldable pub unsigned : ℕ → Text
unfolding clock with_unit fraction
unsigned u =
    if u == 0
    then codes "0s"
    else if ltb u 1000
    then with_unit 0 u (codes "ns")
    else if ltb u (10 ^ 6)
    then with_unit 3 u (codes "µs")
    else if ltb u second
    then with_unit 6 u (codes "ms")
    else clock (u / second) (fraction 9 u ++ (b's' ∷ []))

-- d.String()
unfoldable pub duration_string : ℤ → Text
unfolding unsigned
duration_string (pos n) = unsigned n
duration_string (negsuc n) = b'-' ∷ unsigned (suc n)

abbrev digit : ℕ → Bool
digit c = leb b'0' c && leb c b'9'

abbrev is_leap : ℕ → Bool
is_leap y = y % 4 == 0 && (not (y % 100 == 0) || y % 400 == 0)

unfoldable pub days_in : ℕ → ℕ → ℕ
days_in m y =
    if m == 2
    then (if is_leap y then 29 else 28)
    else if m == 4 || m == 6 || m == 9 || m == 11
    then 30
    else 31

unfoldable pub days_before_month : ℕ → ℕ → ℕ
unfolding days_in
days_before_month zero y = 0
days_before_month (suc zero) y = 0
days_before_month (suc (suc m)) y = days_before_month (suc m) y + days_in (suc m) y

-- Days of the years 0 to y - 1.
abbrev days_before_year : ℕ → ℕ
days_before_year y = 365 * y + (y + 3) / 4 - (y + 99) / 100 + (y + 399) / 400

-- time.Date(y, m, d, hour, min, 0, 0, time.UTC)
unfoldable pub date : ℕ → ℕ → ℕ → ℕ → ℕ → Time
unfolding days_before_month
date y m d hour min =
    let days = days_before_year y + days_before_month m y + (d - 1) in
    sub_ℕ ((days * 86400 + hour * 3600 + min * 60) * second) (719528 * 86400 * second)

-- time.Time{}
unfoldable pub zero_time : Time
unfolding date
zero_time = date 1 1 1 0 0

-- Two digits of a fixed width.
unfoldable pub two : ℕ → ℕ → Option ℕ
two a b = if digit a && digit b then some ((a - b'0') * 10 + (b - b'0')) else none

-- An hour, which may have one digit, and what is behind it.
unfoldable pub hour_of : Text → Option (ℕ × Text)
hour_of [] = none
hour_of (a ∷ []) = if digit a then some (a - b'0', []) else none
hour_of (a ∷ b ∷ s) =
    if digit a
    then (if digit b then some ((a - b'0') * 10 + (b - b'0'), s) else some (a - b'0', b ∷ s))
    else none

unfoldable pub minute_of : Text → Option ℕ
unfolding two
minute_of (c ∷ a ∷ b ∷ []) = if c == b':' then two a b else none
minute_of _ = none

unfoldable pub date_of : Text → Option (ℕ × ℕ × ℕ × Text)
unfolding two
date_of (y1 ∷ y2 ∷ y3 ∷ y4 ∷ p ∷ m1 ∷ m2 ∷ q ∷ d1 ∷ d2 ∷ r ∷ s) = elim (two y1 y2) [
  | none ↦ none
  | some high ↦ elim (two y3 y4) [
    | none ↦ none
    | some low ↦ elim (two m1 m2) [
      | none ↦ none
      | some m ↦ elim (two d1 d2) [
        | none ↦ none
        | some d ↦
            if p == b'-' && q == b'-' && r == b' ' then some (high * 100 + low, m, d, s) else none
      ]
    ]
  ]
]
date_of _ = none

abbrev valid_date : ℕ → ℕ → ℕ → Bool
unfolding days_in
valid_date y m d = leb 1 m && leb m 12 && leb 1 d && leb d (days_in m y)

unfoldable pub clock_of : ℕ → ℕ → ℕ → Option (ℕ × Text) → Option Time
unfolding date valid_date minute_of
clock_of y m d none = none
clock_of y m d (some (hour, s)) = elim (minute_of s) [
  | none ↦ none
  | some min ↦
      if valid_date y m d && ltb hour 24 && ltb min 60 then some (date y m d hour min) else none
]

-- time.Parse("2006-01-02 15:04", value); none is an error
unfoldable pub parse_minute : Text → Option Time
unfolding clock_of date_of hour_of
parse_minute value = elim (date_of value) [
  | none ↦ none
  | some (y, m, d, s) ↦ clock_of y m d (hour_of s)
]

tests :
    (duration_string (pos (259380 * second)) ≡ codes "72h3m0s")
    × (duration_string (pos 1500) ≡ codes "1.5µs")
    × (duration_string (negsuc 1499999999) ≡ codes "-1.5s")
    × (parse_minute (codes "1970-01-02 00:01") ≡ some (pos (86460 * second)))
    × (parse_minute (codes "2024-02-29 7:05") ≡ some (pos (1709190300 * second)))
    × (parse_minute (codes "2023-02-29 07:05") ≡ none)
    × (mul_int64 (pos 3) second ≡ pos (3 * second))
    × (neg_int64 (pos 3) ≡ negsuc 2)
unfolding duration_string parse_minute mul_int64 neg_int64
tests = (refl, refl, refl, refl, refl, refl, refl, refl)
