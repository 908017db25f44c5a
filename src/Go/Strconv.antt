-- ===== src/Go/Strconv.antt =====
-- Package strconv: ParseUint(s, 10, 64), ParseInt(s, 10, 64), Atoi and Itoa.
pub mod RoundTrip
pub mod Signed
use systats.Prelude.{
  ℕ, zero, suc, ◌+◌, ◌-◌, ◌*◌, ◌/◌, ◌%◌, ◌^◌, ◌≡◌, refl, Bool, true, false, ◌&&◌, ◌||◌, Option,
  none, some, List, [], ◌∷◌, ◌++◌, arith, ltb, leb, ◌==◌, if◌then◌else◌,
}
use systats.Prelude.Int.{ℤ, pos, negsuc, sub_ℕ}
use systats.Prelude.Text.{Text, codes}
use systats.Go.Outcome.{Outcome, ok, panic, conversion}

abbrev pub max_uint64 : ℕ
max_uint64 = 2 ^ 64 - 1

-- A conversion gives a number, a syntax error, or a range error.
pub data Parsed (A : Type 0) : Type 0 where
  parsed : A → Parsed A
  syntax_error : Parsed A
  range_error : Parsed A

-- The loop of ParseUint: `n` is what the digits so far spell.
unfoldable pub scan_uint : Text → ℕ → Parsed ℕ
scan_uint [] n = parsed n
scan_uint (c ∷ s) n =
    if ltb c b'0' || ltb b'9' c
    then syntax_error
    else if leb (max_uint64 / 10 + 1) n
    then range_error
    else if leb (2 ^ 64) (n * 10 + (c - b'0'))
    then range_error
    else scan_uint s (n * 10 + (c - b'0'))

unfoldable pub parse_uint : Text → Parsed ℕ
unfolding scan_uint
parse_uint [] = syntax_error
parse_uint (c ∷ s) = scan_uint (c ∷ s) 0

-- The value with the error ignored: 0 on a syntax error, the greatest value on a range error.
unfoldable pub uint_value : Parsed ℕ → ℕ
uint_value (parsed n) = n
uint_value syntax_error = 0
uint_value range_error = max_uint64

-- The value where `err == nil`.
abbrev pub valid : {A : Type 0} → Parsed A → Option A
valid (parsed n) = some n
valid _ = none

-- The sign of ParseInt, and the digits behind it.
abbrev signed : Bool → Parsed ℕ → Parsed ℤ
signed neg syntax_error = syntax_error
signed neg range_error = range_error
signed true (parsed n) = if ltb (2 ^ 63) n then range_error else parsed (sub_ℕ 0 n)
signed false (parsed n) = if leb (2 ^ 63) n then range_error else parsed (pos n)

unfoldable pub parse_int : Text → Parsed ℤ
unfolding parse_uint
parse_int [] = syntax_error
parse_int (c ∷ s) =
    if c == b'+'
    then signed false (parse_uint s)
    else if c == b'-'
    then signed true (parse_uint s)
    else signed false (parse_uint (c ∷ s))

-- The int that Atoi returns with its error ignored.
abbrev pub int_value : Bool → Parsed ℤ → ℤ
int_value neg (parsed n) = n
int_value neg syntax_error = pos 0
int_value true range_error = negsuc (2 ^ 63 - 1)
int_value false range_error = pos (2 ^ 63 - 1)

abbrev starts_negative : Text → Bool
starts_negative [] = false
starts_negative (c ∷ s) = c == b'-'

unfoldable pub atoi_or_zero : Text → ℤ
unfolding parse_int
atoi_or_zero s = int_value (starts_negative s) (parse_int s)

-- Decimal digits, least significant last; the fuel bounds their number.
unfoldable pub digits : ℕ → ℕ → Text → Text
digits zero n out = out
digits (suc f) n out =
    let more = digits f (n / 10) ((b'0' + n % 10) ∷ out) in
    if ltb n 10 then (b'0' + n) ∷ out else more

-- strconv.FormatUint(n, 10); `n` has at most n + 1 digits
unfoldable pub format_uint : ℕ → Text
unfolding digits
format_uint n = digits (suc n) n []

abbrev minus_of : ℤ → Text
minus_of (pos n) = []
minus_of (negsuc n) = b'-' ∷ []

-- strconv.Itoa
unfoldable pub itoa : ℤ → Text
unfolding format_uint
itoa (pos n) = format_uint n
itoa (negsuc n) = b'-' ∷ format_uint (suc n)
