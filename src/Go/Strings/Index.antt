-- ===== src/Go/Strings/Index.antt =====
-- Positions in a text.
use systats.Go.Strings.Split.{Lacks}
use systats.Go.Strings.{index_of, last_index_of}
use systats.Prelude.Text.{Text}
use systats.Prelude.{ℕ, ◌≡◌, refl, none, some, [], ◌∷◌, ◌++◌, arith, length}

pub last_index_of-Lacks : (s : Text) (b : ℕ) → Lacks b s → last_index_of s b ≡ none
unfolding last_index_of
last_index_of-Lacks [] b h = refl
last_index_of-Lacks (c ∷ s) b h = ground (arith, last_index_of-Lacks s b h.1)

pub last_index_of-append :
    (p rest : Text) (b : ℕ) → Lacks b rest → last_index_of (p ++ (b ∷ rest)) b ≡ some (length p)
unfolding last_index_of
last_index_of-append [] rest b h = ground (arith, last_index_of-Lacks rest b h)
last_index_of-append (c ∷ p) rest b h = ground (arith, last_index_of-append p rest b h)

pub index_of-append :
    (p rest : Text) (b : ℕ) → Lacks b p → index_of (p ++ (b ∷ rest)) b ≡ some (length p)
unfolding index_of
index_of-append [] rest b h = ground arith
index_of-append (c ∷ p) rest b h = ground (arith, index_of-append p rest b h.1)
