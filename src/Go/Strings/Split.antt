-- ===== src/Go/Strings/Split.antt =====
-- Split against the text that it came from.
use systats.Prelude.{ℕ, ◌≡◌, ◌≢◌, refl, ap, ◌∙◌, none, some, List, [], ◌∷◌, ◌++◌, arith, All}
use systats.Prelude.Text.{Text}
use systats.Go.Strings.{split, cut}

abbrev pub Lacks : ℕ → Text → Type 0
Lacks b = All (λ c. c ≢ b)

-- The parts with the separator between them.
abbrev pub join : List Text → ℕ → Text
join [] sep = []
join (p ∷ []) sep = p
join (p ∷ q ∷ ps) sep = p ++ (sep ∷ join (q ∷ ps) sep)

pub split-Lacks : (s : Text) (sep : ℕ) → Lacks sep s → split s sep ≡ s ∷ []
unfolding split
split-Lacks [] sep h = refl
split-Lacks (c ∷ s) sep h = ground (arith, split-Lacks s sep h.1)

-- A first part that lacks the separator is split off.
pub split-append :
    (p rest : Text) (sep : ℕ) → Lacks sep p → split (p ++ (sep ∷ rest)) sep ≡ p ∷ split rest sep
unfolding split
split-append [] rest sep h = ground arith
split-append (c ∷ p) rest sep h = ground (arith, split-append p rest sep h.1)

pub split-join :
    (p : Text) (ps : List Text) (sep : ℕ)
    → All (Lacks sep) (p ∷ ps)
    → split (join (p ∷ ps) sep) sep ≡ p ∷ ps
split-join p [] sep h = split-Lacks p sep h.0
split-join p (q ∷ ps) sep h =
    split-append p (join (q ∷ ps) sep) sep h.0 ∙ ap (◌∷◌ p) (split-join q ps sep h.1)

pub cut-append :
    (p rest : Text) (sep : ℕ) → Lacks sep p → cut (p ++ (sep ∷ rest)) sep ≡ some (p, rest)
unfolding cut
cut-append [] rest sep h = ground arith
cut-append (c ∷ p) rest sep h = ground (arith, cut-append p rest sep h.1)

pub cut-Lacks : (s : Text) (sep : ℕ) → Lacks sep s → cut s sep ≡ none
unfolding cut
cut-Lacks [] sep h = refl
cut-Lacks (c ∷ s) sep h = ground (arith, cut-Lacks s sep h.1)

-- The same for a list with a middle.
pub split-join_middle :
    (before after : List Text) (p : Text) (sep : ℕ)
    → All (Lacks sep) (before ++ (p ∷ after))
    → split (join (before ++ (p ∷ after)) sep) sep ≡ before ++ (p ∷ after)
split-join_middle [] after p sep h = split-join p after sep h
split-join_middle (q ∷ before) after p sep h = split-join q (before ++ (p ∷ after)) sep h
