-- ===== src/Go/Paths.antt =====
-- Package path: Clean, Join, Base and Dir, by components.
use systats.Prelude.{ℕ, ◌≡◌, refl, Bool, true, false, List, [], ◌∷◌, ◌++◌, ◌==◌, if◌then◌else◌}
use systats.Prelude.Text.{Text, codes, eqb}
use systats.Go.Strings.{split}

abbrev pub slash : ℕ
slash = b'/'

is_rooted : Text → Bool
is_rooted [] = false
is_rooted (c ∷ s) = c == slash

-- `..` on a stack of components, the last first.
pop : Bool → List Text → List Text
pop true [] = []
pop false [] = codes ".." ∷ []
pop r (d ∷ ds) = if eqb d (codes "..") then codes ".." ∷ d ∷ ds else ds

push : Bool → List Text → Text → List Text
push rooted stack c =
    if eqb c []
    then stack
    else if eqb c (codes ".")
    then stack
    else if eqb c (codes "..")
    then pop rooted stack
    else c ∷ stack

push_all : Bool → List Text → List Text → List Text
push_all rooted stack [] = stack
push_all rooted stack (c ∷ cs) = push_all rooted (push rooted stack c) cs

-- The components of a stack, with slashes between them.
spell : List Text → Text
spell [] = []
spell (c ∷ []) = c
spell (c ∷ d ∷ ds) = spell (d ∷ ds) ++ (slash ∷ c)

-- path.Clean
unfoldable pub clean : Text → Text
unfolding is_rooted pop push push_all spell eqb split
clean p =
    let stack = push_all (is_rooted p) [] (split p slash) in
    if is_rooted p
    then slash ∷ spell stack
    else (if eqb (spell stack) [] then codes "." else spell stack)

join_onto : Text → List Text → Text
join_onto out [] = out
join_onto out (p ∷ ps) =
    join_onto (if eqb p [] then out else (if eqb out [] then p else out ++ (slash ∷ p))) ps

-- path.Join; empty elements are ignored, and the result of no element is empty
unfoldable pub join : List Text → Text
unfolding join_onto clean
join ps = let all = join_onto [] ps in if eqb all [] then [] else clean all

trailing : Text → Text
trailing [] = []
trailing (c ∷ s) = elim (trailing s) [ [] ↦ if c == slash then [] else c ∷ [] | d ∷ r ↦ c ∷ d ∷ r ]

last_of : Text → List Text → Text
last_of d [] = d
last_of d (p ∷ ps) = last_of p ps

-- path.Base
unfoldable pub base : Text → Text
unfolding trailing last_of split eqb
base p =
    if eqb p []
    then codes "."
    else if eqb (trailing p) []
    then slash ∷ []
    else last_of [] (split (trailing p) slash)

-- All up to and with the last slash.
dir_part : Text → Text
dir_part [] = []
dir_part (c ∷ s) = elim (dir_part s) [ [] ↦ if c == slash then c ∷ [] else [] | d ∷ r ↦ c ∷ d ∷ r ]

-- path.Dir
unfoldable pub dir : Text → Text
unfolding dir_part clean
dir p = clean (dir_part p)

tests :
    (join (codes "/sys/fs/cgroup" ∷ codes "/" ∷ []) ≡ codes "/sys/fs/cgroup")
    × (join (codes "/a" ∷ codes "../b/./c/" ∷ []) ≡ codes "/b/c")
    × (join (codes "" ∷ codes "x" ∷ []) ≡ codes "x")
    × (base (codes "/a/bc/") ≡ codes "bc")
    × (dir (codes "/a/bc") ≡ codes "/a")
    × (dir (codes "/a") ≡ codes "/")
unfolding join base dir
tests = (refl, refl, refl, refl, refl, refl)
