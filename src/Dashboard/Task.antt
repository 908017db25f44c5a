-- ===== src/Dashboard/Task.antt =====
-- example/collect.go: the goroutines of collect.
use systats.Prelude.Text.{Text, codes, text_ltb}
use systats.Prelude.{
  ℕ, ◌≡◌, refl, sym, ap, ◌∙◌, Bool, true, false, ◌||◌, List, [], ◌∷◌, arith, All, ◌==◌, ==_iff,
  if◌then◌else◌,
}

-- What a goroutine reads: figures of the host, or those of the own control group.
pub data Task : Type 0 where
  system cpu memory swap pressure disks disk_io networks tcp temps processes containers : Task
  cg_memory cg_cpu : Task

abbrev pub name_of : Task → Text
name_of system = codes "System"
name_of cpu = codes "CPU"
name_of memory = codes "Memory"
name_of swap = codes "Swap"
name_of pressure = codes "Pressure"
name_of disks = codes "Disks"
name_of disk_io = codes "Disk I/O"
name_of networks = codes "Networks"
name_of tcp = codes "TCP states"
name_of temps = codes "Temperatures"
name_of processes = codes "Processes"
name_of containers = codes "Containers"
name_of cg_memory = codes "Memory (container-aware)"
name_of cg_cpu = codes "CPU (container-aware)"

abbrev pub number : Task → ℕ
number system = 0
number cpu = 1
number memory = 2
number swap = 3
number pressure = 4
number disks = 5
number disk_io = 6
number networks = 7
number tcp = 8
number temps = 9
number processes = 10
number containers = 11
number cg_memory = 12
number cg_cpu = 13

abbrev pub same : Task → Task → Bool
same a b = number a == number b

-- Whether a task is among those.
abbrev pub in_list : List Task → Task → Bool
in_list [] q = false
in_list (a ∷ rest) q = same q a || in_list rest q

-- No task twice.
abbrev pub AreDistinct : List Task → Type 0
AreDistinct [] = Unit
AreDistinct (a ∷ rest) = (in_list rest a ≡ false) × AreDistinct rest

task_at : ℕ → Task
task_at n =
    if n == 0
    then system
    else if n == 1
    then cpu
    else if n == 2
    then memory
    else if n == 3
    then swap
    else if n == 4
    then pressure
    else if n == 5
    then disks
    else if n == 6
    then disk_io
    else if n == 7
    then networks
    else if n == 8
    then tcp
    else if n == 9
    then temps
    else if n == 10
    then processes
    else if n == 11
    then containers
    else if n == 12
    then cg_memory
    else cg_cpu

task_at-number : (a : Task) → task_at (number a) ≡ a
unfolding task_at
task_at-number system = refl
task_at-number cpu = refl
task_at-number memory = refl
task_at-number swap = refl
task_at-number pressure = refl
task_at-number disks = refl
task_at-number disk_io = refl
task_at-number networks = refl
task_at-number tcp = refl
task_at-number temps = refl
task_at-number processes = refl
task_at-number containers = refl
task_at-number cg_memory = refl
task_at-number cg_cpu = refl

pub same-eq : (a b : Task) → same a b ≡ true → a ≡ b
same-eq a b h =
    sym (task_at-number a) ∙ ap task_at ((==_iff (number a) (number b)).0 h) ∙ task_at-number b

pub same_refl : (a : Task) → same a a ≡ true
same_refl a = (==_iff (number a) (number a)).1 refl

-- The tasks in the order of their names.
abbrev pub by_name : List Task
by_name =
    cpu ∷ cg_cpu ∷ containers ∷ disk_io ∷ disks ∷ memory ∷ cg_memory ∷ networks ∷ pressure
    ∷ processes ∷ swap ∷ system ∷ tcp ∷ temps ∷ []

-- Each name is before those behind it.
abbrev pub AreAscending : List Task → Type 0
AreAscending [] = Unit
AreAscending (a ∷ rest) =
    All (λ b. text_ltb (name_of a) (name_of b) ≡ true) rest × AreAscending rest

pub by_name-AreAscending : AreAscending by_name
unfolding text_ltb
by_name-AreAscending = ground arith

pub by_name-AreDistinct : AreDistinct by_name
by_name-AreDistinct = ground arith

pub in_list-by_name : (q : Task) → in_list by_name q ≡ true
in_list-by_name system = refl
in_list-by_name cpu = refl
in_list-by_name memory = refl
in_list-by_name swap = refl
in_list-by_name pressure = refl
in_list-by_name disks = refl
in_list-by_name disk_io = refl
in_list-by_name networks = refl
in_list-by_name tcp = refl
in_list-by_name temps = refl
in_list-by_name processes = refl
in_list-by_name containers = refl
in_list-by_name cg_memory = refl
in_list-by_name cg_cpu = refl

same_sym : (a b : ℕ) → (a == b) ≡ (b == a)
same_sym a b = ground arith

pub in_list-cons :
    (q p : Task) (rest : List Task) → in_list (q ∷ rest) p ≡ (same q p || in_list rest p)
in_list-cons q p rest = ap (λ b. b || in_list rest p) (same_sym (number p) (number q))
