-- ===== src/Cpu/Topology/Bounds.antt =====
-- cpu.go: the counts of a topology against one another.
use systats.Cpu.Topology.{
  CpuTopology, CpuBlock, no_block, core_key_eq, mark, flush, topology_entry, topology_line,
  topology_lines, topology_of, parse_cpu_topology,
}
use systats.Go.Strings.{cut, trim_space, lines}
use systats.Prelude.{
  ℕ, ◌+◌, ◌≤◌, ◌≡◌, ◌⊎◌, inl, inr, refl, Bool, Option, none, some, List, [], ◌∷◌, arith, length,
  Option-cases,
}
use systats.Prelude.Text.{Text, eqb}

length-mark {ℓ} :
    {A : Type ℓ} (eq : A → A → Bool) (a : A) (xs : List A) → length (mark eq a xs) ≤ length xs + 1
unfolding mark
length-mark eq a xs = ground arith

record IsBounded (b : CpuBlock) (extra : ℕ) : Type 0 where
  cores_le : length b.seen_cores ≤ b.logical + extra
  pkgs_le : length b.seen_pkgs ≤ b.logical + extra

flush-IsBounded :
    (pkg core : Option Text) (b : CpuBlock)
    → b.pkg ≡ pkg
    → b.core ≡ core
    → IsBounded b 0
    → IsBounded (flush b) 1 × ((flush b).logical ≡ b.logical)
unfolding flush
flush-IsBounded none core b e f h = rw e (omega arith)
flush-IsBounded (some pkg) none b e f h = rw (e, f) (omega (arith, length-mark eqb pkg b.seen_pkgs))
flush-IsBounded (some pkg) (some core) b e f h =
    rw (e, f)
      (omega (
        arith,
        length-mark eqb pkg b.seen_pkgs,
        length-mark core_key_eq (record { pkg = pkg; core = core }) b.seen_cores,
      ))

topology_entry-IsBounded :
    (k v : Text) (b : CpuBlock) → IsBounded b 0 → IsBounded (topology_entry k v b) 0
unfolding topology_entry
topology_entry-IsBounded k v b h =
    let f = flush-IsBounded b.pkg b.core b refl refl h in ground arith

topology_line-IsBounded :
    (line : Text) (b : CpuBlock) → IsBounded b 0 → IsBounded (topology_line line b) 0
unfolding topology_line
topology_line-IsBounded line b h = elim (Option-cases (cut line b':')) [
  | inl e ↦ rw (e, topology_line) h
  | inr ((k, v), e) ↦
      rw (e, topology_line) (topology_entry-IsBounded (trim_space k) (trim_space v) b h)
]

topology_lines-IsBounded :
    (ls : List Text) (b : CpuBlock) → IsBounded b 0 → IsBounded (topology_lines ls b) 0
unfolding topology_lines
topology_lines-IsBounded [] b h = h
topology_lines-IsBounded (l ∷ ls) b h =
    topology_lines-IsBounded ls (topology_line l b) (topology_line-IsBounded l b h)

-- What the reported counts satisfy.
pub record IsTopology (t : CpuTopology) : Type 0 where
  pub cores_le : t.physical_cores ≤ t.logical + 1
  pub sockets_le : t.sockets ≤ t.logical + 1
  pub some_core : (t.logical ≡ 0) ⊎ (1 ≤ t.physical_cores)
  pub some_socket : (t.logical ≡ 0) ⊎ (1 ≤ t.sockets)

topology_of-IsTopology : (b : CpuBlock) → IsBounded b 1 → IsTopology (topology_of b)
unfolding topology_of
topology_of-IsTopology b h = record {
  cores_le = ground arith;
  sockets_le = ground arith;
  some_core = ground arith;
  some_socket = ground arith;
}

-- For every /proc/cpuinfo, the physical cores and the sockets are each at most one more than the
-- logical CPUs, and neither is 0 where there is a logical CPU.
pub parse_cpu_topology-IsTopology : (content : Text) → IsTopology (parse_cpu_topology content)
unfolding parse_cpu_topology
parse_cpu_topology-IsTopology content =
    let b = topology_lines (lines content) no_block in
    topology_of-IsTopology (flush b)
      (flush-IsBounded b.pkg b.core b refl refl
        (topology_lines-IsBounded (lines content) no_block (omega arith))).0
