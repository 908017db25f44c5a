-- ===== src/Go/Strings/Affixes.antt =====
-- Suffixes of a text against the text.
use systats.Go.Strings.{has_suffix, trim_suffix}
use systats.Prelude.Text.{Text, eqb, eqb_iff, eqb_refl}
use systats.Prelude.{
  ◌-◌, ◌≡◌, ◌&&◌, sym, ap, ◌∙◌, Bool, true, ◌++◌, arith, length, length-append, take, drop,
  take-append, drop-append, take-append-drop, leb,
}

&&-true : (a b : Bool) → (a && b) ≡ true → (a ≡ true) × (b ≡ true)
&&-true a b h = ground arith

-- A text with a suffix is what is left of it, and the suffix.
pub trim_suffix-append : (s p : Text) → has_suffix s p ≡ true → s ≡ trim_suffix s p ++ p
unfolding trim_suffix has_suffix
trim_suffix-append s p h =
    let parts = &&-true (leb (length p) (length s)) (eqb (drop (length s - length p) s) p) h in
    let rest = (eqb_iff (drop (length s - length p) s) p).0 parts.1 in
    rw h (
      sym (take-append-drop (length s - length p) s)
      ∙ ap (λ r. take (length s - length p) s ++ r) rest)

pub has_suffix-append : (p s : Text) → has_suffix (p ++ s) s ≡ true
unfolding has_suffix
has_suffix-append p s =
    let n : length (p ++ s) - length s ≡ length p = omega (arith, length-append p s) in
    rw (n, drop-append p s) (ground (arith, eqb_refl s, length-append p s))

pub trim_suffix-append_self : (p s : Text) → trim_suffix (p ++ s) s ≡ p
unfolding trim_suffix
trim_suffix-append_self p s =
    let n : length (p ++ s) - length s ≡ length p = omega (arith, length-append p s) in
    rw (has_suffix-append p s, n) (take-append p s)
