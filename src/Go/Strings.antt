-- ===== src/Go/Strings.antt =====
-- Package strings, over code points: Split and Cut at one character, Fields, TrimSpace, prefixes,
-- suffixes, searches and replacement.
pub mod Split
pub mod Fields
pub mod Columns
pub mod Index
pub mod Blank
pub mod Affixes
use systats.Prelude.{
  ℕ, zero, suc, ◌+◌, ◌-◌, ◌≡◌, refl, Bool, true, false, not, ◌&&◌, ◌||◌, Option, none, some, List,
  [], ◌∷◌, ◌++◌, arith, ltb, leb, ◌==◌, if◌then◌else◌, length, take, drop,
}
use systats.Prelude.Text.{Text, eqb}

-- unicode.IsSpace
unfoldable pub is_space : ℕ → Bool
is_space c =
    (leb 9 c && leb c 13)
    || c == 32
    || c == 0x85
    || c == 0xa0
    || c == 0x1680
    || (leb 0x2000 c && leb c 0x200a)
    || c == 0x2028
    || c == 0x2029
    || c == 0x202f
    || c == 0x205f
    || c == 0x3000

abbrev cons_head : ℕ → List Text → List Text
cons_head c [] = (c ∷ []) ∷ []
cons_head c (p ∷ ps) = (c ∷ p) ∷ ps

-- strings.Split with a separator of one character
unfoldable pub split : Text → ℕ → List Text
split [] sep = [] ∷ []
split (c ∷ s) sep = let rest = split s sep in if c == sep then [] ∷ rest else cons_head c rest

-- strings.Cut with a separator of one character
unfoldable pub cut : Text → ℕ → Option (Text × Text)
cut [] sep = none
cut (c ∷ s) sep =
    if c == sep
    then some ([], s)
    else elim (cut s sep) [ none ↦ none | some (a, b) ↦ some (c ∷ a, b) ]

-- strings.SplitN(s, sep, 3)
unfoldable pub split3 : Text → ℕ → List Text
unfolding cut
split3 s sep = elim (cut s sep) [
  | none ↦ s ∷ []
  | some (a, r) ↦ elim (cut r sep) [ none ↦ a ∷ r ∷ [] | some (b, c) ↦ a ∷ b ∷ c ∷ [] ]
]

abbrev pub flush : Text → List Text
flush [] = []
flush (c ∷ w) = (c ∷ w) ∷ []

-- The field that is being read is the first argument.
unfoldable pub fields_from : Text → Text → List Text
unfolding is_space
fields_from word [] = flush word
fields_from word (c ∷ s) = elim (is_space c) [
  | true ↦ flush word ++ fields_from [] s
  | false ↦ fields_from (word ++ c ∷ []) s
]

-- strings.Fields
unfoldable pub fields : Text → List Text
unfolding fields_from
fields = fields_from []

unfoldable pub trim_left : Text → Text
unfolding is_space
trim_left [] = []
trim_left (c ∷ s) = if is_space c then trim_left s else c ∷ s

unfoldable pub trim_right : Text → Text
unfolding is_space
trim_right [] = []
trim_right (c ∷ s) = elim (trim_right s) [
  | [] ↦ if is_space c then [] else c ∷ []
  | d ∷ r ↦ c ∷ d ∷ r
]

-- strings.TrimSpace
unfoldable pub trim_space : Text → Text
unfolding trim_left trim_right
trim_space s = trim_left (trim_right s)

unfoldable pub has_prefix : Text → Text → Bool
has_prefix s [] = true
has_prefix [] (p ∷ ps) = false
has_prefix (c ∷ s) (p ∷ ps) = c == p && has_prefix s ps

unfoldable pub has_suffix : Text → Text → Bool
unfolding eqb
has_suffix s p = leb (length p) (length s) && eqb (drop (length s - length p) s) p

unfoldable pub trim_prefix : Text → Text → Text
unfolding has_prefix
trim_prefix s p = if has_prefix s p then drop (length p) s else s

unfoldable pub trim_suffix : Text → Text → Text
unfolding has_suffix
trim_suffix s p = if has_suffix s p then take (length s - length p) s else s

unfoldable pub contains : Text → Text → Bool
unfolding has_prefix
contains [] p = has_prefix [] p
contains (c ∷ s) p = has_prefix (c ∷ s) p || contains s p

-- strings.IndexByte; none is -1
unfoldable pub index_of : Text → ℕ → Option ℕ
index_of [] b = none
index_of (c ∷ s) b =
    if c == b then some 0 else elim (index_of s b) [ none ↦ none | some i ↦ some (suc i) ]

-- strings.LastIndexByte; none is -1
unfoldable pub last_index_of : Text → ℕ → Option ℕ
last_index_of [] b = none
last_index_of (c ∷ s) b = elim (last_index_of s b) [
  | none ↦ if c == b then some 0 else none
  | some i ↦ some (suc i)
]

-- strings.ReplaceAll of one character by another
unfoldable pub replace_char : Text → ℕ → ℕ → Text
replace_char [] old new = []
replace_char (c ∷ s) old new = (if c == old then new else c) ∷ replace_char s old new

-- strings.ToUpper, on ASCII letters
unfoldable pub to_upper : Text → Text
to_upper [] = []
to_upper (c ∷ s) = (if leb b'a' c && leb c b'z' then c - 32 else c) ∷ to_upper s

abbrev pub newline : ℕ
newline = 10

-- strings.Split(s, "\n")
unfoldable pub lines : Text → List Text
unfolding split
lines s = split s newline
