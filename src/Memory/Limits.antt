-- ===== src/Memory/Limits.antt =====
-- memory.go: the control group's limit, its units, and its errors.
use systats.Cgroup.{cgroup_v2, detect_cgroup_version, resolve_cgroup_controller_path}
use systats.Config.{with_recover, SyStats, SizeUnit, byte, kilobyte, megabyte, gigabyte}
use systats.Fileops.{read_file_with_error}
use systats.Go.Float.{Float64}
use systats.Go.Os.{Os}
use systats.Go.Outcome.{Outcome, ok, fail, panic, conversion, Panic, recovered, not_supported}
use systats.Go.Paths
use systats.Go.Strings.{trim_space}
use systats.Memory.{
  CgroupMemory, MemoryKib, read_cgroup_memory_limit, read_cgroup_memory_bytes, working_set,
  limit_memory, apply_cgroup_memory, kib_converter, get_memory, parse_meminfo,
}
use systats.Prelude.{
  ℕ, ◌+◌, ◌/◌, ◌-◌, ◌≤◌, ◌<◌, ◌≡◌, ◌≢◌, ◌⊎◌, refl, true, false, some, [], ◌∷◌, arith,
}
use systats.Prelude.Text.{Text, codes, eqb, eqb_iff}
use systats.Strops.{to_uint64}

-- The working set is the usage less the inactive file cache where that is the smaller, and the
-- whole usage otherwise.
pub working_set_lem :
    (usage inactive : ℕ)
    → ((inactive < usage) × (working_set usage inactive + inactive ≡ usage))
      ⊎ ((usage ≤ inactive) × (working_set usage inactive ≡ usage))
unfolding working_set
working_set_lem usage inactive = ground arith

module _ (fl : Float64) where
  -- The limited figures: total and used are the cgroup's bytes in whole KiB, and available and free
  -- are both what the total exceeds the used by, 0 where it does not.
  pub limit_memory_lem :
      (c : CgroupMemory) (m : MemoryKib fl)
      → ((limit_memory fl c m).total ≡ c.limit_bytes / 1024)
        × ((limit_memory fl c m).used ≡ c.used_bytes / 1024)
        × ((limit_memory fl c m).available ≡ c.limit_bytes / 1024 - c.used_bytes / 1024)
        × ((limit_memory fl c m).free ≡ (limit_memory fl c m).available)
        × ((limit_memory fl c m).limited ≡ true)
  unfolding limit_memory
  limit_memory_lem c m = (refl, refl, ground arith, refl, refl)

  -- Without ContainerAware the host's figures stay as they are.
  pub apply_cgroup_memory_off :
      (os : Os) (systats : SyStats) (m : MemoryKib fl)
      → systats.container_aware ≡ false
      → apply_cgroup_memory fl os systats m ≡ ok m
  unfolding apply_cgroup_memory
  apply_cgroup_memory_off os systats m h = rw h

  -- What applying a cgroup's figures can end in.
  abbrev pub Applied : MemoryKib fl → Outcome (MemoryKib fl) → Type 0
  Applied m r =
      (r ≡ ok m)
      ⊎ ((c : CgroupMemory) × (c.limited ≡ true) × (r ≡ ok (limit_memory fl c m)))
      ⊎ ((p : Panic) × (r ≡ panic p))

  -- With ContainerAware, a supported unit and host figures that can be read, a v2 memory.max of
  -- the own group that holds neither "max" nor a number makes the whole call fail.
  pub get_memory_bad_limit :
      (os : Os) (systats : SyStats) (unit : SizeUnit) (dir meminfo content : Text)
      {convert : ℕ → fl.F} {host : MemoryKib fl}
      → kib_converter fl unit ≡ ok convert
      → read_file_with_error os systats.meminfo_path ≡ ok meminfo
      → parse_meminfo fl meminfo ≡ ok host
      → systats.container_aware ≡ true
      → detect_cgroup_version os systats.cgroup_root_path ≡ cgroup_v2
      → resolve_cgroup_controller_path os systats cgroup_v2 (codes "memory") ≡ some dir
      → read_file_with_error os (Paths.join (dir ∷ codes "memory.max" ∷ [])) ≡ ok content
      → eqb (trim_space content) (codes "max") ≡ false
      → to_uint64 (trim_space content) ≡ panic conversion
      → with_recover (get_memory fl os systats unit) ≡ fail (recovered conversion)
  unfolding get_memory apply_cgroup_memory with_recover
  get_memory_bad_limit os systats unit dir meminfo content hu hm hp on hv hd hc hn hb =
      rw (hu, hm, hp, hv, hd, hv, read_bytes, on) refl
    where
      read_limit : read_cgroup_memory_limit os cgroup_v2 dir ≡ panic conversion
      read_limit = unfold read_cgroup_memory_limit in rw (hc, hn, hb) refl

      read_bytes : read_cgroup_memory_bytes os cgroup_v2 dir ≡ panic conversion
      read_bytes = unfold read_cgroup_memory_bytes in rw read_limit refl

  -- A unit that is none of the four fails before anything is read, whatever the system holds.
  pub get_memory_bad_unit :
      (os : Os) (systats : SyStats) (unit : SizeUnit)
      → unit ≢ byte
      → unit ≢ kilobyte
      → unit ≢ megabyte
      → unit ≢ gigabyte
      → get_memory fl os systats unit ≡ fail (not_supported unit)
  unfolding get_memory kib_converter
  get_memory_bad_unit os systats unit a b c d = ground (
    arith,
    eqb_iff unit byte,
    eqb_iff unit kilobyte,
    eqb_iff unit megabyte,
    eqb_iff unit gigabyte,
  )
