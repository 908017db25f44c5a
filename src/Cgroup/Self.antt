-- ===== src/Cgroup/Self.antt =====
-- cgroup.go: parseSelfCgroupV1 against the lines of the file.
use systats.Cgroup.{has_element, match_v1_line, find_v1, parse_self_cgroup_v1}
use systats.Go.Outcome.{Outcome, ok, fail, controller_not_found}
use systats.Go.Strings.{split, split3, trim_space, lines}
use systats.Prelude.Text.{Text, eqb, eqb_iff}
use systats.Prelude.{
  ◌≡◌, ◌⊎◌, inl, inr, refl, ap, true, false, none, some, List, [], ◌∷◌, ◌++◌, All, Bool-cases,
}

-- The controller is one of the comma-separated elements.
abbrev pub HasElement : Text → List Text → Type 0
HasElement c [] = ⊥
HasElement c (x ∷ xs) = (x ≡ c) ⊎ HasElement c xs

-- The parts "id", "list" and "path" of a line whose list has the controller.
abbrev pub Has : Text → List Text → Type 0
Has controller (id ∷ list ∷ path ∷ []) = HasElement controller (split list b',')
Has controller _ = ⊥

-- The path and the list.
abbrev pub location : List Text → Text × Text
location (id ∷ list ∷ path ∷ []) = (path, list)
location _ = ([], [])

abbrev pub parts_of : Text → List Text
parts_of line = split3 (trim_space line) b':'

has_element-HasElement : (xs : List Text) (c : Text) → has_element xs c ≡ true → HasElement c xs
unfolding has_element
has_element-HasElement [] c h = cc
has_element-HasElement (x ∷ xs) c h = elim (Bool-cases (eqb x c)) [
  | inl e ↦ inl ((eqb_iff x c).0 e)
  | inr e ↦ inr (has_element-HasElement xs c (rw e at h))
]

has_element-none : (xs : List Text) (c : Text) → has_element xs c ≡ false → ¬ HasElement c xs
unfolding has_element
has_element-none [] c h n = n
has_element-none (x ∷ xs) c h n = elim (Bool-cases (eqb x c)) [
  | inl e ↦ cc
  | inr e ↦ elim n [ inl q ↦ cc ((eqb_iff x c).1 q) | inr m ↦ has_element-none xs c (rw e at h) m ]
]

match_parts :
    (controller : Text) (parts : List Text)
    → (Has controller parts × (match_v1_line parts controller ≡ some (location parts)))
      ⊎ ((¬ Has controller parts) × (match_v1_line parts controller ≡ none))
unfolding match_v1_line
match_parts controller (id ∷ list ∷ path ∷ []) =
    elim (Bool-cases (has_element (split list b',') controller)) [
      | inl e ↦ inl (has_element-HasElement (split list b',') controller e, rw e)
      | inr e ↦ inr (has_element-none (split list b',') controller e, rw e)
    ]
match_parts controller _ = inr ((λ h. h), refl)

-- The first of the lines that has the controller.
pub record FirstHit (controller : Text) (ls : List Text) (found : Text × Text) : Type 0 where
  pub before : List Text
  pub line : Text
  pub after : List Text
  pub splits : ls ≡ before ++ (line ∷ after)
  pub missed : All (λ l. ¬ Has controller (parts_of l)) before
  pub hit : Has controller (parts_of line)
  pub is_location : found ≡ location (parts_of line)

abbrev pub Finds : Text → List Text → Outcome (Text × Text) → Type 0
Finds controller ls r =
    ((found : Text × Text) × (r ≡ ok found) × FirstHit controller ls found)
    ⊎ ((r ≡ fail (controller_not_found controller)) × All (λ l. ¬ Has controller (parts_of l)) ls)

find_v1-cons :
    (controller l : Text) (ls : List Text)
    → ¬ Has controller (parts_of l)
    → match_v1_line (parts_of l) controller ≡ none
    → Finds controller ls (find_v1 ls controller)
    → Finds controller (l ∷ ls) (find_v1 (l ∷ ls) controller)
unfolding find_v1
find_v1-cons controller l ls miss e (inl (found, h, f)) = inl (
  found,
  rw (e, find_v1) h,
  record {
    before = l ∷ f.before;
    line = f.line;
    after = f.after;
    splits = ap (◌∷◌ l) f.splits;
    missed = (miss, f.missed);
    hit = f.hit;
    is_location = f.is_location;
  },
)
find_v1-cons controller l ls miss e (inr (h, all)) = inr (rw (e, find_v1) h, (miss, all))

find_v1-Finds : (controller : Text) (ls : List Text) → Finds controller ls (find_v1 ls controller)
unfolding find_v1
find_v1-Finds controller [] = inr (refl, tt)
find_v1-Finds controller (l ∷ ls) = elim (match_parts controller (parts_of l)) [
  | inl (hit, e) ↦ inl (
    location (parts_of l),
    rw (e, find_v1) refl,
    record {
      before = [];
      line = l;
      after = ls;
      splits = refl;
      missed = tt;
      hit = hit;
      is_location = refl;
    },
  )
  | inr (miss, e) ↦ find_v1-cons controller l ls miss e (find_v1-Finds controller ls)
]

-- parseSelfCgroupV1 returns the path and the list of the first line whose comma-separated list has
-- the controller as a whole element, and the error exactly where no line has it.
pub parse_self_cgroup_v1-Finds :
    (content controller : Text)
    → Finds controller (lines content) (parse_self_cgroup_v1 content controller)
unfolding parse_self_cgroup_v1
parse_self_cgroup_v1-Finds content controller = find_v1-Finds controller (lines content)
