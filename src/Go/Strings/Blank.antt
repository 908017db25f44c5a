-- ===== src/Go/Strings/Blank.antt =====
-- Texts of white space only.
use systats.Go.Strings.Fields.{IsBlank, IsSolid}
use systats.Go.Strings.{is_space, trim_left, trim_right, trim_space, has_prefix, contains}
use systats.Prelude.Text.{Text}
use systats.Prelude.{
  ℕ, ◌≡◌, ◌↔◌, refl, ap, ◌==◌, ==_iff, subst, true, false, [], ◌∷◌, arith, Bool-cases, inl, inr,
}

trim_left_of_blank : (s : Text) → IsBlank s → trim_left s ≡ []
unfolding trim_left
trim_left_of_blank [] h = refl
trim_left_of_blank (c ∷ s) h = ground (arith, trim_left_of_blank s h.1)

trim_right_of_blank : (s : Text) → IsBlank s → trim_right s ≡ []
unfolding trim_right
trim_right_of_blank [] h = refl
trim_right_of_blank (c ∷ s) h = rw (trim_right_of_blank s h.1, h.0, trim_right) refl

IsBlank-of_trim_left : (s : Text) → trim_left s ≡ [] → IsBlank s
unfolding trim_left
IsBlank-of_trim_left [] h = tt
IsBlank-of_trim_left (c ∷ s) h = elim (Bool-cases (is_space c)) [
  | inl e ↦ (e, IsBlank-of_trim_left s (rw (e, trim_left) at h))
  | inr e ↦ absurd (ground arith)
]

trim_right_last :
    (c : ℕ) (s : Text) → trim_right s ≡ [] → is_space c ≡ false → trim_right (c ∷ s) ≡ c ∷ []
unfolding trim_right
trim_right_last c s e n = rw (e, n, trim_right) refl

IsBlank-step :
    (c : ℕ) (s t : Text)
    → trim_right s ≡ t
    → IsBlank (trim_right (c ∷ s))
    → (is_space c ≡ true) × IsBlank (trim_right s)
unfolding trim_right
IsBlank-step c s [] e h = elim (Bool-cases (is_space c)) [
  | inl b ↦ (b, rw e tt)
  | inr n ↦ let end = subst IsBlank (trim_right_last c s e n) h in absurd (ground arith)
]
IsBlank-step c s (d ∷ r) e h = rw e (rw (e, trim_right) at h)

IsBlank-of_trim_right : (s : Text) → IsBlank (trim_right s) → IsBlank s
IsBlank-of_trim_right [] h = tt
IsBlank-of_trim_right (c ∷ s) h =
    let parts = IsBlank-step c s (trim_right s) refl h in (parts.0, IsBlank-of_trim_right s parts.1)

-- TrimSpace leaves nothing exactly of a text of white space only.
pub trim_space-IsBlank : (s : Text) → (trim_space s ≡ []) ↔ IsBlank s
unfolding trim_space
trim_space-IsBlank s = (
  λ h. IsBlank-of_trim_right s (IsBlank-of_trim_left (trim_right s) h),
  λ h. rw (trim_right_of_blank s h) refl,
)

-- No white space matches a text that begins with another character.
pub contains-blank :
    (s : Text) (c : ℕ) (p : Text) → IsBlank s → is_space c ≡ false → contains s (c ∷ p) ≡ false
unfolding contains has_prefix
contains-blank [] c p h n = refl
contains-blank (d ∷ s) c p h n = elim (Bool-cases (d == c)) [
  | inl e ↦ let same : d ≡ c = (==_iff d c).0 e in absurd (ground (arith, ap is_space same))
  | inr e ↦ rw (e, contains, has_prefix) (contains-blank s c p h.1 n)
]

trim_right-IsSolid : (s : Text) → IsSolid s → trim_right s ≡ s
unfolding trim_right
trim_right-IsSolid [] h = refl
trim_right-IsSolid (c ∷ []) h = rw (h.0, trim_right) refl
trim_right-IsSolid (c ∷ d ∷ s) h = rw (trim_right-IsSolid (d ∷ s) h.1, trim_right) refl

-- TrimSpace leaves a text without white space as it is.
pub trim_space-IsSolid : (s : Text) → IsSolid s → trim_space s ≡ s
unfolding trim_space trim_left
trim_space-IsSolid [] h = unfold trim_right in refl
trim_space-IsSolid (c ∷ s) h = rw (trim_right-IsSolid (c ∷ s) h, h.0, trim_left) refl
