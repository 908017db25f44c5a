-- ===== src/Go/Strings/Fields.antt =====
-- Fields of a text that is words with white space around them.
use systats.Prelude.{
  ℕ, ◌≡◌, ◌≢◌, refl, sym, ap, ◌∙◌, true, false, [], ◌∷◌, ◌++◌, append-nil, append_assoc, All,
  All-append, Bool-cases, inl, inr,
}
use systats.Prelude.Text.{Text}
use systats.Go.Strings.Split.{Lacks}
use systats.Go.Strings.{is_space, flush, fields_from, fields}

abbrev pub IsBlank : Text → Type 0
IsBlank = All (λ c. is_space c ≡ true)

abbrev pub IsSolid : Text → Type 0
IsSolid = All (λ c. is_space c ≡ false)

-- A word: not empty, and no white space in it.
abbrev pub IsWord : Text → Type 0
IsWord w = (w ≢ []) × IsSolid w

pub fields_from-solid :
    (w word rest : Text) → IsSolid w → fields_from word (w ++ rest) ≡ fields_from (word ++ w) rest
unfolding fields_from
fields_from-solid [] word rest h = rw append-nil
fields_from-solid (c ∷ w) word rest h =
    rw (h.0, fields_from) (fields_from-solid w (word ++ c ∷ []) rest h.1 ∙ rw append_assoc)

pub fields_from-space :
    (c : ℕ) (word rest : Text)
    → is_space c ≡ true
    → fields_from word (c ∷ rest) ≡ flush word ++ fields rest
unfolding fields fields_from
fields_from-space c word rest h = rw (h, fields_from)

flush-word : (w : Text) → w ≢ [] → flush w ≡ w ∷ []
flush-word [] h = absurd (h refl)
flush-word (c ∷ w) h = refl

pub fields-word : (w : Text) → IsWord w → fields w ≡ w ∷ []
unfolding fields fields_from
fields-word w h =
    ap (fields_from []) (sym (append-nil w)) ∙ fields_from-solid w [] [] h.1 ∙ flush-word w h.0

pub fields-word-space :
    (w : Text) (c : ℕ) (rest : Text)
    → IsWord w
    → is_space c ≡ true
    → fields (w ++ (c ∷ rest)) ≡ w ∷ fields rest
unfolding fields
fields-word-space w c rest h k =
    fields_from-solid w [] (c ∷ rest) h.1
    ∙ fields_from-space c w rest k
    ∙ ap (λ l. l ++ fields rest) (flush-word w h.0)

pub fields-space : (c : ℕ) (rest : Text) → is_space c ≡ true → fields (c ∷ rest) ≡ fields rest
unfolding fields
fields-space c rest h = fields_from-space c [] rest h

flush-IsWord : (w : Text) → IsSolid w → All IsWord (flush w)
flush-IsWord [] h = tt
flush-IsWord (c ∷ w) h = (((cc), h), tt)

IsSolid-concat : (w : Text) (c : ℕ) → IsSolid w → is_space c ≡ false → IsSolid (w ++ c ∷ [])
IsSolid-concat w c h k = All-append (λ d. is_space d ≡ false) w (c ∷ []) h (k, tt)

fields_from-IsWord : (s word : Text) → IsSolid word → All IsWord (fields_from word s)
unfolding fields_from
fields_from-IsWord [] word h = flush-IsWord word h
fields_from-IsWord (c ∷ s) word h = elim (Bool-cases (is_space c)) [
  | inl e ↦
      rw (e, fields_from)
        (All-append IsWord (flush word) _ (flush-IsWord word h) (fields_from-IsWord s [] tt))
  | inr e ↦ rw (e, fields_from) (fields_from-IsWord s (word ++ c ∷ []) (IsSolid-concat word c h e))
]

-- Every field of any text is a word.
pub fields-IsWord : (s : Text) → All IsWord (fields s)
unfolding fields
fields-IsWord s = fields_from-IsWord s [] tt

pub IsSolid-Lacks : (b : ℕ) (w : Text) → is_space b ≡ true → IsSolid w → Lacks b w
IsSolid-Lacks b [] k h = tt
IsSolid-Lacks b (c ∷ w) k h = ((λ e. ne (rw e at h.0)), IsSolid-Lacks b w k h.1)
  where
    ne : is_space b ≡ false → ⊥
    ne e = cc
