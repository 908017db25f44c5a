-- ===== src/Go/Strconv/RoundTrip.antt =====
-- FormatUint against ParseUint.
use systats.Go.Strings.Fields.{IsSolid, IsWord}
use systats.Go.Strings.{is_space}
use systats.Prelude.{
  ℕ, zero, suc, ◌+◌, ◌*◌, ◌/◌, ◌%◌, ◌≤◌, ◌<◌, ◌≡◌, ◌≢◌, refl, ◌∙◌, [], ◌∷◌, arith, All, false,
}
use systats.Prelude.Text.{Text}
use systats.Go.Strconv.{max_uint64, parsed, scan_uint, parse_uint, digits, format_uint}

abbrev pub IsDigit : ℕ → Type 0
IsDigit c = (b'0' ≤ c) × (c ≤ b'9')

scan_digit :
    (d n : ℕ) (out : Text)
    → d < 10
    → n * 10 + d ≤ max_uint64
    → scan_uint ((b'0' + d) ∷ out) n ≡ scan_uint out (n * 10 + d)
unfolding scan_uint
scan_digit d n out h k = ground arith

scan-digits :
    (f n : ℕ) (out : Text) → n < f → n ≤ max_uint64 → scan_uint (digits f n out) 0 ≡ scan_uint out n
unfolding digits
scan-digits zero n out h k = absurd (omega arith)
scan-digits (suc f) n out h k = ground (
  arith,
  scan_digit n 0 out,
  scan-digits f (n / 10) ((b'0' + n % 10) ∷ out),
  scan_digit (n % 10) (n / 10) out,
)

digits-ne-nil : (f n : ℕ) (out : Text) → n < f → digits f n out ≢ []
unfolding digits
digits-ne-nil zero n out h = absurd (omega arith)
digits-ne-nil (suc f) n out h = ground (arith, digits-ne-nil f (n / 10) ((b'0' + n % 10) ∷ out))

pub format_uint-ne-nil : (n : ℕ) → format_uint n ≢ []
unfolding format_uint
format_uint-ne-nil n = digits-ne-nil (suc n) n [] (omega arith)

parse-scan : (s : Text) → s ≢ [] → parse_uint s ≡ scan_uint s 0
unfolding parse_uint
parse-scan [] h = absurd (h refl)
parse-scan (c ∷ s) h = refl

scan_nil : (n : ℕ) → scan_uint [] n ≡ parsed n
unfolding scan_uint
scan_nil n = refl

pub parse_uint-format_uint : (n : ℕ) → n ≤ max_uint64 → parse_uint (format_uint n) ≡ parsed n
unfolding format_uint
parse_uint-format_uint n h =
    parse-scan _ (digits-ne-nil (suc n) n [] (omega arith))
    ∙ scan-digits (suc n) n [] (omega arith) h
    ∙ scan_nil n

digits-IsDigit : (f n : ℕ) (out : Text) → n < f → All IsDigit out → All IsDigit (digits f n out)
unfolding digits
digits-IsDigit zero n out h k = k
digits-IsDigit (suc f) n out h k = ground (arith, digits-IsDigit f (n / 10) ((b'0' + n % 10) ∷ out))

pub format_uint-IsDigit : (n : ℕ) → All IsDigit (format_uint n)
unfolding format_uint
format_uint-IsDigit n = digits-IsDigit (suc n) n [] (omega arith) tt

pub digit-is_space : (c : ℕ) → IsDigit c → is_space c ≡ false
unfolding is_space
digit-is_space c h = ground arith

IsDigit-IsSolid : (s : Text) → All IsDigit s → IsSolid s
IsDigit-IsSolid [] h = tt
IsDigit-IsSolid (c ∷ s) h = (digit-is_space c h.0, IsDigit-IsSolid s h.1)

pub format_uint-IsWord : (n : ℕ) → IsWord (format_uint n)
format_uint-IsWord n = (format_uint-ne-nil n, IsDigit-IsSolid _ (format_uint-IsDigit n))
