-- ===== src/Go/Float.antt =====
-- float64: its values and operations are a parameter, so that no theorem rests on a rounding.
-- `exact` is an instance without rounding, on which the functions can be run.
use systats.Prelude.{
  ℕ, ◌+◌, ◌-◌, ◌*◌, ◌/◌, ◌^◌, Bool, ◌&&◌, Option, none, some, [], ◌∷◌, ltb, leb, if◌then◌else◌,
  length,
}
use systats.Prelude.Int.{ℤ, pos, sub_ℕ}
use systats.Prelude.Text.{Text}
use systats.Go.Strings.{cut}

pub record Float64 : Type 1 where
  pub F : Type 0
  -- float64(n) for an unsigned n, and the constants
  pub of_ℕ : ℕ → F
  pub add : F → F → F
  pub sub : F → F → F
  pub mul : F → F → F
  pub div : F → F → F
  pub lt : F → F → Bool
  pub le : F → F → Bool
  -- int(x)
  pub to_int : F → ℤ
  -- math.Ceil
  pub ceil : F → F
  -- float32(x), as a float64
  pub narrow : F → F
  -- strconv.ParseFloat(s, 64); none is an error
  pub parse : Text → Option F

-- (up - down) / den
pub record Fraction : Type 0 where
  pub up : ℕ
  pub down : ℕ
  pub den : ℕ

abbrev pub frac : ℕ → ℕ → ℕ → Fraction
frac u d n = record { up = u; down = d; den = n }

abbrev frac_div : Fraction → Fraction → Fraction
frac_div x y =
    if leb y.down y.up
    then frac (x.up * y.den) (x.down * y.den) (x.den * (y.up - y.down))
    else frac (x.down * y.den) (x.up * y.den) (x.den * (y.down - y.up))

abbrev frac_to_int : Fraction → ℤ
frac_to_int x =
    if leb x.down x.up then pos ((x.up - x.down) / x.den) else sub_ℕ 0 ((x.down - x.up) / x.den)

abbrev frac_ceil : Fraction → Fraction
frac_ceil x =
    if leb x.down x.up
    then frac ((x.up - x.down + x.den - 1) / x.den) 0 1
    else frac 0 ((x.down - x.up) / x.den) 1

-- The digits of a decimal, or none.
abbrev decimal : Text → ℕ → Option ℕ
decimal [] n = some n
decimal (c ∷ s) n = if leb b'0' c && leb c b'9' then decimal s (n * 10 + (c - b'0')) else none

abbrev decimals : Option ℕ → Option ℕ → ℕ → Option Fraction
decimals (some a) (some b) k = some (frac (a * 10 ^ k + b) 0 (10 ^ k))
decimals _ _ k = none

abbrev frac_parse : Text → Option Fraction
frac_parse [] = none
frac_parse (c ∷ s) = elim (cut (c ∷ s) b'.') [
  | none ↦ decimals (decimal (c ∷ s) 0) (some 0) 0
  | some (a, b) ↦ decimals (decimal a 0) (decimal b 0) (length b)
]

abbrev pub exact : Float64
exact = record {
  F = Fraction;
  of_ℕ = λ n. frac n 0 1;
  add = λ x y. frac (x.up * y.den + y.up * x.den) (x.down * y.den + y.down * x.den) (x.den * y.den);
  sub = λ x y. frac (x.up * y.den + y.down * x.den) (x.down * y.den + y.up * x.den) (x.den * y.den);
  mul = λ x y. frac (x.up * y.up + x.down * y.down) (x.up * y.down + x.down * y.up) (x.den * y.den);
  div = frac_div;
  lt = λ x y. ltb (x.up * y.den + y.down * x.den) (x.down * y.den + y.up * x.den);
  le = λ x y. leb (x.up * y.den + y.down * x.den) (x.down * y.den + y.up * x.den);
  to_int = frac_to_int;
  ceil = frac_ceil;
  narrow = λ x. x;
  parse = frac_parse;
}
