-- ===== src/Cpu/Topology.antt =====
-- parseCPUTopology: logical CPUs, physical cores and sockets of /proc/cpuinfo.
pub mod Bounds
use systats.Go.Strings.{cut, trim_space, lines}
use systats.Prelude.Text.{Text, codes, eqb}
use systats.Prelude.{
  ℕ, zero, suc, ◌+◌, Bool, true, false, ◌&&◌, ◌||◌, Option, none, some, List, [], ◌∷◌, ltb, ◌==◌,
  if◌then◌else◌, length,
}

pub record CpuTopology : Type 0 where
  pub logical : ℕ
  pub physical_cores : ℕ
  pub sockets : ℕ

pub record CoreKey : Type 0 where
  pub pkg : Text
  pub core : Text

unfoldable pub core_key_eq : CoreKey → CoreKey → Bool
unfolding eqb
core_key_eq a b = eqb a.pkg b.pkg && eqb a.core b.core

module _ {ℓ} {A : Type ℓ} (eq : A → A → Bool) where
  unfoldable pub seen : A → List A → Bool
  seen a [] = false
  seen a (x ∷ xs) = eq x a || seen a xs

  -- m[a] = true, on a map that is used as a set
  unfoldable pub mark : A → List A → List A
  unfolding seen
  mark a xs = if seen a xs then xs else a ∷ xs

-- The loop's variables. `pkg` and `core` are none where havePkg and haveCore are false.
pub record CpuBlock : Type 0 where
  pub seen_cores : List CoreKey
  pub seen_pkgs : List Text
  pub logical : ℕ
  pub pkg : Option Text
  pub core : Option Text

abbrev pub no_block : CpuBlock
no_block = record { seen_cores = []; seen_pkgs = []; logical = 0; pkg = none; core = none }

abbrev mark_core : Text → Option Text → List CoreKey → List CoreKey
mark_core pkg none cores = cores
mark_core pkg (some core) cores = mark core_key_eq (record { pkg = pkg; core = core }) cores

abbrev flush_into : Option Text → CpuBlock → CpuBlock
flush_into none b = record b { core = none }
flush_into (some pkg) b = record b {
  seen_cores = mark_core pkg b.core b.seen_cores;
  seen_pkgs = mark eqb pkg b.seen_pkgs;
  pkg = none;
  core = none;
}

unfoldable pub flush : CpuBlock → CpuBlock
unfolding mark core_key_eq
flush b = flush_into b.pkg b

unfoldable pub topology_entry : Text → Text → CpuBlock → CpuBlock
unfolding eqb
topology_entry k v b =
    if eqb k (codes "processor")
    then (let b' = flush b in record b' { logical = b'.logical + 1 })
    else if eqb k (codes "physical id")
    then record b { pkg = some v }
    else if eqb k (codes "core id")
    then record b { core = some v }
    else b

unfoldable pub topology_line : Text → CpuBlock → CpuBlock
unfolding topology_entry
topology_line line b = elim (cut line b':') [
  | none ↦ b
  | some (k, v) ↦ topology_entry (trim_space k) (trim_space v) b
]

unfoldable pub topology_lines : List Text → CpuBlock → CpuBlock
topology_lines [] b = b
topology_lines (line ∷ rest) b = topology_lines rest (topology_line line b)

unfoldable pub topology_of : CpuBlock → CpuTopology
topology_of b =
    let cores = length b.seen_cores in
    let pkgs = length b.seen_pkgs in
    record {
      logical = b.logical;
      physical_cores = if cores == 0 then b.logical else cores;
      sockets = if pkgs == 0 && ltb 0 b.logical then 1 else pkgs;
    }

unfoldable pub parse_cpu_topology : Text → CpuTopology
unfolding topology_lines topology_line flush topology_of lines cut trim_space
parse_cpu_topology content = topology_of (flush (topology_lines (lines content) no_block))
