-- ===== src/Go/Strconv/Signed.antt =====
-- Itoa against ParseInt.
use systats.Go.Strconv.RoundTrip.{
  IsDigit, format_uint-IsDigit, format_uint-ne-nil, format_uint-IsWord, parse_uint-format_uint,
}
use systats.Go.Strconv.{parsed, signed, parse_uint, parse_int, format_uint, itoa}
use systats.Go.Strings.Fields.{IsWord}
use systats.Go.Strings.{is_space}
use systats.Prelude.Int.{ℤ, pos, negsuc}
use systats.Prelude.Text.{Text}
use systats.Prelude.{ℕ, suc, ◌^◌, ◌<◌, ◌≡◌, ◌≢◌, refl, ap, ◌∙◌, true, false, [], ◌∷◌, arith, All}

-- The numbers of an int64.
abbrev pub IsInt64 : ℤ → Type 0
IsInt64 (pos n) = n < 2 ^ 63
IsInt64 (negsuc n) = n < 2 ^ 63

parse_int-digits : (s : Text) → s ≢ [] → All IsDigit s → parse_int s ≡ signed false (parse_uint s)
unfolding parse_int
parse_int-digits [] h d = absurd (h refl)
parse_int-digits (c ∷ s) h d = ground arith

signed_pos : (n : ℕ) → n < 2 ^ 63 → signed false (parsed n) ≡ parsed (pos n)
signed_pos n h = ground arith

signed_neg : (n : ℕ) → n < 2 ^ 63 → signed true (parsed (suc n)) ≡ parsed (negsuc n)
signed_neg n h = ground arith

parse_int-minus : (s : Text) → parse_int (b'-' ∷ s) ≡ signed true (parse_uint s)
unfolding parse_int
parse_int-minus s = refl

pub parse_int-itoa : (z : ℤ) → IsInt64 z → parse_int (itoa z) ≡ parsed z
unfolding itoa
parse_int-itoa (pos n) h =
    parse_int-digits (format_uint n) (format_uint-ne-nil n) (format_uint-IsDigit n)
    ∙ ap (signed false) (parse_uint-format_uint n (omega arith))
    ∙ signed_pos n h
parse_int-itoa (negsuc n) h =
    parse_int-minus (format_uint (suc n))
    ∙ ap (signed true) (parse_uint-format_uint (suc n) (omega arith))
    ∙ signed_neg n h

pub itoa-IsWord : (z : ℤ) → IsWord (itoa z)
unfolding itoa
itoa-IsWord (pos n) = format_uint-IsWord n
itoa-IsWord (negsuc n) = ((cc), (unfold is_space in refl, (format_uint-IsWord (suc n)).1))
