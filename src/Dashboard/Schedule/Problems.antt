-- ===== src/Dashboard/Schedule/Problems.antt =====
-- example/collect.go: the problems that collect sorts by the name of their panel.
use mathlib.Core.Path.{ap₂}
use systats.Dashboard.Collect.{sort_problems}
use systats.Dashboard.Readers.{Readings}
use systats.Dashboard.Panels.{Problem}
use systats.Dashboard.Sort.{insert_by, sort_by}
use systats.Dashboard.Task.{
  Task, name_of, same, same-eq, in_list, AreDistinct, by_name, AreAscending, by_name-AreAscending,
  by_name-AreDistinct, in_list-by_name, in_list-cons,
}
use systats.Go.Float.{Float64}
use systats.Go.Outcome.{Outcome, ok, fail, panic, Error}
use systats.Prelude.Text.{text_ltb, text_ltb_asym}
use systats.Prelude.{
  ◌≡◌, refl, sym, ap, ◌∙◌, subst, Bool, true, false, ◌||◌, List, [], ◌∷◌, ◌++◌, arith, All,
  if◌then◌else◌, Bool-cases, inl, inr, ◌⊎◌,
}

-- The tasks that have ended.
abbrev pub Ended : Type 0
Ended = Task → Bool

abbrev pub mark : Task → Ended → Ended
mark a ended = λ q. same q a || ended q

abbrev pub mark_all : List Task → Ended → Ended
mark_all [] ended = ended
mark_all (a ∷ rest) ended = mark_all rest (mark a ended)

or_false : (a b : Bool) → (a || b) ≡ false → (a ≡ false) × (b ≡ false)
or_false a b h = ground arith

All-in_list {κ} :
    (P : Task → Type κ) (rest : List Task) (p : Task) → All P rest → in_list rest p ≡ true → P p
All-in_list P [] p h i = cc
All-in_list P (q ∷ rest) p h i =
    let i' = sym (in_list-cons q p rest) ∙ i in
    elim (Bool-cases (same q p)) [
      | inl s ↦ subst P (same-eq q p s) h.0
      | inr d ↦ All-in_list P rest p h.1 (rw d at i')
    ]

abbrev pub problem_of : {A : Type 0} → Task → Outcome A → List Problem
problem_of a (fail e) = record { panel = name_of a; err = e } ∷ []
problem_of a _ = []

problem_of_cases :
    {A : Type 0} (task : Task) (o : Outcome A)
    → (problem_of task o ≡ [])
      ⊎ ((e : Error) × (problem_of task o ≡ record { panel = name_of task; err = e } ∷ []))
problem_of_cases task (ok a) = inl refl
problem_of_cases task (fail e) = inr (e, refl)
problem_of_cases task (panic p) = inl refl

module _ (fl : Float64) (r : Readings fl) where
  abbrev pub problem : Task → List Problem
  problem Task.system = problem_of Task.system r.system
  problem Task.cpu = problem_of Task.cpu r.cpu
  problem Task.memory = problem_of Task.memory r.memory
  problem Task.swap = problem_of Task.swap r.swap
  problem Task.pressure = problem_of Task.pressure r.pressure
  problem Task.disks = problem_of Task.disks r.disks
  problem Task.disk_io = problem_of Task.disk_io r.disk_io
  problem Task.networks = problem_of Task.networks r.networks
  problem Task.tcp = problem_of Task.tcp r.tcp
  problem Task.temps = problem_of Task.temps r.temps
  problem Task.processes = problem_of Task.processes r.processes
  problem Task.containers = problem_of Task.containers r.containers
  problem Task.cg_memory = problem_of Task.cg_memory r.cg_memory
  problem Task.cg_cpu = problem_of Task.cg_cpu r.cg_cpu

  abbrev pub problems_of : List Task → List Problem
  problems_of [] = []
  problems_of (task ∷ tasks) = problem task ++ problems_of tasks

  problem_cases :
      (task : Task)
      → (problem task ≡ [])
        ⊎ ((e : Error) × (problem task ≡ record { panel = name_of task; err = e } ∷ []))
  problem_cases Task.system = problem_of_cases Task.system r.system
  problem_cases Task.cpu = problem_of_cases Task.cpu r.cpu
  problem_cases Task.memory = problem_of_cases Task.memory r.memory
  problem_cases Task.swap = problem_of_cases Task.swap r.swap
  problem_cases Task.pressure = problem_of_cases Task.pressure r.pressure
  problem_cases Task.disks = problem_of_cases Task.disks r.disks
  problem_cases Task.disk_io = problem_of_cases Task.disk_io r.disk_io
  problem_cases Task.networks = problem_of_cases Task.networks r.networks
  problem_cases Task.tcp = problem_of_cases Task.tcp r.tcp
  problem_cases Task.temps = problem_of_cases Task.temps r.temps
  problem_cases Task.processes = problem_of_cases Task.processes r.processes
  problem_cases Task.containers = problem_of_cases Task.containers r.containers
  problem_cases Task.cg_memory = problem_of_cases Task.cg_memory r.cg_memory
  problem_cases Task.cg_cpu = problem_of_cases Task.cg_cpu r.cg_cpu

  -- The problems of the tasks that have ended, in the order of a list.
  abbrev pub canon : Ended → List Task → List Problem
  canon e [] = []
  canon e (q ∷ rest) = (if e q then problem q else []) ++ canon e rest

  canon_other :
      (p : Task) (e : Ended) (rest : List Task)
      → in_list rest p ≡ false
      → canon (mark p e) rest ≡ canon e rest
  canon_other p e [] h = refl
  canon_other p e (q ∷ rest) h =
      let parts = or_false (same q p) (in_list rest p) (sym (in_list-cons q p rest) ∙ h) in
      rw (parts.0, canon_other p e rest parts.1) refl

  canon_empty :
      (p : Task) (e : Ended) (rest : List Task)
      → problem p ≡ []
      → canon (mark p e) rest ≡ canon e rest
  canon_empty p e [] h = refl
  canon_empty p e (q ∷ rest) h = elim (Bool-cases (same q p)) [
    | inl s ↦
        let none_of_q : problem q ≡ [] = ap problem (same-eq q p s) ∙ h in
        rw (s, none_of_q, canon_empty p e rest h) (nothing (e q))
    | inr d ↦ rw (d, canon_empty p e rest h) refl
  ]
    where
      nothing : (b : Bool) → canon e rest ≡ (if b then [] else []) ++ canon e rest
      nothing true = refl
      nothing false = refl

  abbrev is_before : Problem → Problem → Bool
  is_before a b = text_ltb a.panel b.panel

  -- A problem goes before those of tasks with later names.
  insert_first :
      (x : Problem) (e : Ended) (rest : List Task)
      → All (λ q. text_ltb x.panel (name_of q) ≡ true) rest
      → insert_by is_before x (canon e rest) ≡ x ∷ canon e rest
  unfolding insert_by
  insert_first x e [] h = refl
  insert_first x e (q ∷ rest) h = elim (Bool-cases (e q)) [
    | inr n ↦ rw n (insert_first x e rest h.1)
    | inl y ↦ elim (problem_cases q) [
      | inl n ↦ rw (y, n) (insert_first x e rest h.1)
      | inr (err, m) ↦ rw (y, m, insert_by) (rw (text_ltb_asym x.panel (name_of q) h.0) refl)
    ]
  ]

  module _ (p : Task) (err : Error)
      (at_p : problem p ≡ record { panel = name_of p; err = err } ∷ []) where
    abbrev x : Problem
    x = record { panel = name_of p; err = err }

    insert_behind :
        (q : Task) (b : Bool) (later : List Problem)
        → text_ltb (name_of q) (name_of p) ≡ true
        → insert_by is_before x ((if b then problem q else []) ++ later)
          ≡ (if b then problem q else []) ++ insert_by is_before x later
    unfolding insert_by
    insert_behind q false later h = refl
    insert_behind q true later h = elim (problem_cases q) [
      | inl n ↦ rw n refl
      | inr (e', m) ↦ rw (m, insert_by) (rw h refl)
    ]

    insert_canon :
        (e : Ended) (rest : List Task)
        → e p ≡ false
        → AreAscending rest
        → AreDistinct rest
        → in_list rest p ≡ true
        → insert_by is_before x (canon e rest) ≡ canon (mark p e) rest
    insert_canon e [] n a d i = cc
    insert_canon e (q ∷ rest) n a d i =
        let i2 = sym (in_list-cons q p rest) ∙ i in
        elim (Bool-cases (same q p)) [
          | inl s ↦
              let eq : q ≡ p = same-eq q p s in
              let none_left : in_list rest p ≡ false = subst (λ t. in_list rest t ≡ false) eq d.0 in
              let later =
                subst (λ t. All (λ u. text_ltb (name_of t) (name_of u) ≡ true) rest) eq a.0 in
              let at_q : problem q ≡ x ∷ [] = ap problem eq ∙ at_p in
              let not_yet : e q ≡ false = ap e eq ∙ n in
              rw (s, not_yet)
                (insert_first x e rest later
                  ∙ ap₂ ◌++◌ (sym at_q) (sym (canon_other p e rest none_left)))
          | inr o ↦
              let i' : in_list rest p ≡ true = rw o at i2 in
              rw o (
                insert_behind q (e q) (canon e rest)
                  (All-in_list (λ t. text_ltb (name_of q) (name_of t) ≡ true) rest p a.0 i')
                ∙ ap (λ l. (if e q then problem q else []) ++ l) (insert_canon e rest n a.1 d.1 i'))
        ]

  sort_problem :
      (p : Task) (e : Ended) (later : List Problem)
      → e p ≡ false
      → sort_problems fl later ≡ canon e by_name
      → sort_problems fl (problem p ++ later) ≡ canon (mark p e) by_name
  unfolding sort_problems sort_by
  sort_problem p e later n h = elim (problem_cases p) [
    | inl m ↦ rw m (h ∙ sym (canon_empty p e by_name m))
    | inr (err, m) ↦ rw m (
        ap (insert_by is_before (record { panel = name_of p; err = err })) h
        ∙ insert_canon p err m e by_name n by_name-AreAscending by_name-AreDistinct
            (in_list-by_name p))
  ]

  -- However the goroutines end, their problems are sorted by name.
  pub sort_problems_of :
      (tasks : List Task)
      → AreDistinct tasks
      → sort_problems fl (problems_of tasks) ≡ canon (in_list tasks) by_name
  sort_problems_of [] d = unfold sort_problems sort_by in refl
  sort_problems_of (task ∷ tasks) d =
      sort_problem task (in_list tasks) (problems_of tasks) d.0 (sort_problems_of tasks d.1)
