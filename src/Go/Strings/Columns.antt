-- ===== src/Go/Strings/Columns.antt =====
-- Columns: words that spaces separate, as the kernel and who(1) print them.
use systats.Go.Strings.Fields.{IsWord, IsSolid, fields-word-space, fields-space, IsSolid-Lacks}
use systats.Go.Strings.Split.{Lacks}
use systats.Go.Strings.{fields, is_space, newline}
use systats.Prelude.Text.{Text}
use systats.Prelude.{
  ℕ, zero, suc, ◌≡◌, ◌≢◌, refl, ap, ◌∙◌, [], ◌∷◌, ◌++◌, arith, All-append}

abbrev pub spaces : ℕ → Text
spaces zero = []
spaces (suc k) = 32 ∷ spaces k

fields-spaces : (k : ℕ) (rest : Text) → fields (spaces k ++ rest) ≡ fields rest
fields-spaces zero rest = refl
fields-spaces (suc k) rest =
    fields-space 32 (spaces k ++ rest) (unfold is_space in refl) ∙ fields-spaces k rest

-- A word in front of spaces and a rest.
pub fields-column :
    (w : Text) (k : ℕ) (rest : Text)
    → IsWord w
    → fields (w ++ (32 ∷ (spaces k ++ rest))) ≡ w ∷ fields rest
fields-column w k rest h =
    fields-word-space w 32 (spaces k ++ rest) h (unfold is_space in refl)
    ∙ ap (◌∷◌ w) (fields-spaces k rest)

pub spaces-Lacks : (k : ℕ) (rest : Text) → Lacks newline rest → Lacks newline (spaces k ++ rest)
spaces-Lacks zero rest h = h
spaces-Lacks (suc k) rest h = ((omega arith), spaces-Lacks k rest h)

-- A word and a space in front of what has no line feed has none.
pub word-Lacks :
    (w : Text) (rest : Text) → IsSolid w → Lacks newline rest → Lacks newline (w ++ (32 ∷ rest))
word-Lacks w rest h k =
    All-append (λ c. c ≢ newline) w (32 ∷ rest)
      (IsSolid-Lacks newline w (unfold is_space in refl) h) ((omega arith), k)
