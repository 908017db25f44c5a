-- ===== src/Container/Stats.antt =====
-- container.go: memory, CPU counters, tasks, pressure and the frozen state of a container.
use systats.Cgroup.{CgroupDirs, is_v2, read_key_value_stat}
use systats.Config.{SizeUnit}
use systats.Container.Types.{ContainerPids, ContainerCpu, ContainerMemory}
use systats.Cpu.Quota.{no_cgroup_cpu, read_cgroup_cpu_quota, sample_cgroup_cpu_usage_seconds}
use systats.Fileops.{read_file}
use systats.Go.Float.{Float64}
use systats.Go.Os.{Os}
use systats.Go.Outcome.{Outcome, ok, fail, panic, ◌>>=◌}
use systats.Go.Paths
use systats.Go.Strconv.{Parsed, parsed, parse_uint}
use systats.Go.Strings.{trim_space}
use systats.Memory.{CgroupMemory, read_cgroup_memory_bytes, read_cgroup_memory_usage}
use systats.Prelude.Text.{Text, codes, eqb}
use systats.Prelude.{
  ℕ, ◌-◌, ◌^◌, Bool, true, false, not, ◌&&◌, ◌||◌, ◌==◌, Option, none, some, [], ◌∷◌, ltb,
  if◌then◌else◌,
}
use systats.Pressure.{Pressure, read_resources, no_resource}
use systats.Process.Usage.{clock_ticks_per_sec}
use systats.Stats.{Dict, lookup, get}

-- v, _ := ParseUint, with 0 for any error
abbrev parsed_or_zero : Parsed ℕ → ℕ
parsed_or_zero (parsed v) = v
parsed_or_zero _ = 0

abbrev uint_of_file : Option Text → ℕ
unfolding trim_space parse_uint
uint_of_file none = 0
uint_of_file (some content) = parsed_or_zero (parse_uint (trim_space content))

unfoldable pub read_uint_file : Os → Text → ℕ
unfolding uint_of_file
read_uint_file os file = uint_of_file (os.read_file file)

unfoldable pub stat_with_fallback : Dict ℕ → Text → Text → ℕ
unfolding lookup get
stat_with_fallback stat key fallback = elim (lookup key stat) [
  | some v ↦ v
  | none ↦ get stat fallback
]

unfoldable pub read_container_pids : Os → Text → ContainerPids
unfolding read_uint_file
read_container_pids os dir =
    let limit = read_uint_file os (Paths.join (dir ∷ codes "pids.max" ∷ [])) in
    record {
      current = read_uint_file os (Paths.join (dir ∷ codes "pids.current" ∷ []));
      max = limit;
      limited = ltb 0 limit;
    }

unfoldable pub is_cgroup_frozen : Os → CgroupDirs → Bool
unfolding get read_key_value_stat trim_space eqb read_file
is_cgroup_frozen os dirs =
    if is_v2 dirs.version
    then get (read_key_value_stat os (Paths.join (dirs.cpu ∷ codes "cgroup.events" ∷ [])))
        (codes "frozen")
      == 1
    else eqb (trim_space (read_file os (Paths.join (dirs.freezer ∷ codes "freezer.state" ∷ []))))
        (codes "FROZEN")

-- memsw less the usage, where both could be read and memsw is the larger.
abbrev swap_of : ℕ → Outcome ℕ → Outcome ℕ
swap_of memsw (ok usage) = ok (if ltb usage memsw then memsw - usage else 0)
swap_of memsw (fail e) = ok 0
swap_of memsw (panic p) = panic p

-- The anonymous, file and swap bytes, and the OOM kills.
pub record MemoryDetail : Type 0 where
  pub anon : ℕ
  pub file : ℕ
  pub swap : ℕ
  pub oom_kills : ℕ

unfoldable pub memory_detail : Os → CgroupDirs → Outcome MemoryDetail
unfolding read_key_value_stat read_uint_file get stat_with_fallback
memory_detail os dirs =
    let at = λ (name : Text). Paths.join (dirs.memory ∷ name ∷ []) in
    let stat = read_key_value_stat os (at (codes "memory.stat")) in
    if is_v2 dirs.version
    then ok (record {
      anon = get stat (codes "anon");
      file = get stat (codes "file");
      swap = read_uint_file os (at (codes "memory.swap.current"));
      oom_kills = get (read_key_value_stat os (at (codes "memory.events"))) (codes "oom_kill");
    })
    else (do
      let memsw = read_uint_file os (at (codes "memory.memsw.usage_in_bytes"))
      swap ←
          (if ltb 0 memsw
            then swap_of memsw (read_cgroup_memory_usage os dirs.version dirs.memory)
            else ok 0)
      ok (record {
        anon = stat_with_fallback stat (codes "total_rss") (codes "rss");
        file = stat_with_fallback stat (codes "total_cache") (codes "cache");
        swap = swap;
        oom_kills =
            get (read_key_value_stat os (at (codes "memory.oom_control"))) (codes "oom_kill");
      }))

module _ (fl : Float64) where
  open fl use {F, of_ℕ, sub, mul, div, lt, le}

  unfoldable pub container_memory :
      CgroupMemory → MemoryDetail → ℕ → F → SizeUnit → ContainerMemory fl
  container_memory c detail host_memory_bytes bytes_per unit =
      let limit_bytes = (if c.limited then c.limit_bytes else host_memory_bytes) in
      record {
        used = div (of_ℕ c.used_bytes) bytes_per;
        limit = div (of_ℕ limit_bytes) bytes_per;
        limited = c.limited;
        percentage_used =
            if ltb 0 limit_bytes
            then mul (div (of_ℕ c.used_bytes) (of_ℕ limit_bytes)) (of_ℕ 100)
            else of_ℕ 0;
        anon = div (of_ℕ detail.anon) bytes_per;
        file = div (of_ℕ detail.file) bytes_per;
        swap = div (of_ℕ detail.swap) bytes_per;
        oom_kills = detail.oom_kills;
        unit = unit;
      }

  -- The unit is set by the caller, `mem.Unit = unit`.
  unfoldable pub read_container_memory :
      Os → CgroupDirs → ℕ → F → SizeUnit → Outcome (ContainerMemory fl)
  unfolding memory_detail container_memory
  read_container_memory os dirs host_memory_bytes bytes_per unit = do
    c ← read_cgroup_memory_bytes os dirs.version dirs.memory
    detail ← memory_detail os dirs
    ok (container_memory c detail host_memory_bytes bytes_per unit)

  unfoldable pub sample_container_cpu_seconds : Os → CgroupDirs → Outcome (Option F)
  unfolding sample_cgroup_cpu_usage_seconds
  sample_container_cpu_seconds os dirs =
      sample_cgroup_cpu_usage_seconds fl os
        (record (no_cgroup_cpu fl) { ok = true; version = dirs.version; usage_dir = dirs.cpuacct })

  abbrev pub no_container_cpu : ContainerCpu fl
  no_container_cpu = record {
    cores_used = of_ℕ 0;
    percent_of_host = of_ℕ 0;
    percent_of_limit = of_ℕ 0;
    limited = false;
    allocated_cores = of_ℕ 0;
    usage_seconds = of_ℕ 0;
    user_seconds = of_ℕ 0;
    system_seconds = of_ℕ 0;
    periods = 0;
    throttled_periods = 0;
    throttled_seconds = of_ℕ 0;
  }

  abbrev quota_of : Outcome (F × Bool) → Outcome (ContainerCpu fl)
  quota_of (ok (cores, true)) =
      ok (record no_container_cpu { limited = true; allocated_cores = cores })
  quota_of (ok (cores, false)) = ok no_container_cpu
  quota_of (fail e) = ok no_container_cpu
  quota_of (panic p) = panic p

  abbrev micro : ℕ → F
  micro n = div (of_ℕ n) (of_ℕ (10 ^ 6))

  abbrev or_no_seconds : Option F → F
  or_no_seconds (some s) = s
  or_no_seconds none = of_ℕ 0

  unfoldable pub cpu_counters : Os → CgroupDirs → ContainerCpu fl → Outcome (ContainerCpu fl)
  unfolding read_key_value_stat get sample_container_cpu_seconds
  cpu_counters os dirs out =
      let stat = read_key_value_stat os (Paths.join (dirs.cpu ∷ codes "cpu.stat" ∷ [])) in
      if is_v2 dirs.version
      then ok (record out {
        usage_seconds = micro (get stat (codes "usage_usec"));
        user_seconds = micro (get stat (codes "user_usec"));
        system_seconds = micro (get stat (codes "system_usec"));
        periods = get stat (codes "nr_periods");
        throttled_periods = get stat (codes "nr_throttled");
        throttled_seconds = micro (get stat (codes "throttled_usec"));
      })
      else (do
        usage ← sample_container_cpu_seconds os dirs
        let acct = read_key_value_stat os (Paths.join (dirs.cpuacct ∷ codes "cpuacct.stat" ∷ []))
        ok (record out {
          usage_seconds = or_no_seconds usage;
          user_seconds = div (of_ℕ (get acct (codes "user"))) (of_ℕ clock_ticks_per_sec);
          system_seconds = div (of_ℕ (get acct (codes "system"))) (of_ℕ clock_ticks_per_sec);
          periods = get stat (codes "nr_periods");
          throttled_periods = get stat (codes "nr_throttled");
          throttled_seconds = div (of_ℕ (get stat (codes "throttled_time"))) (of_ℕ (10 ^ 9));
        }))

  unfoldable pub read_container_cpu_counters : Os → CgroupDirs → Outcome (ContainerCpu fl)
  unfolding cpu_counters read_cgroup_cpu_quota
  read_container_cpu_counters os dirs = do
    out ← quota_of (read_cgroup_cpu_quota fl os dirs.version dirs.cpu)
    cpu_counters os dirs out

  -- `usage2 > 0` sets the usage, whatever the first reading was.
  abbrev with_usage : F → ContainerCpu fl → ContainerCpu fl
  with_usage usage2 out = if lt (of_ℕ 0) usage2 then record out { usage_seconds = usage2 } else out

  -- The percentages of a usage in cores.
  abbrev with_cores : F → ℕ → ContainerCpu fl → ContainerCpu fl
  with_cores cores host_cores out = record out {
    cores_used = cores;
    percent_of_host =
        if ltb 0 host_cores
        then div (mul (of_ℕ 100) cores) (of_ℕ host_cores)
        else out.percent_of_host;
    percent_of_limit =
        if out.limited && lt (of_ℕ 0) out.allocated_cores
        then div (mul (of_ℕ 100) cores) out.allocated_cores
        else out.percent_of_limit;
  }

  unfoldable pub apply_container_cpu_sample :
      ContainerCpu fl → F → F → Bool → F → ℕ → ContainerCpu fl
  apply_container_cpu_sample out usage1 usage2 both elapsed_seconds host_cores =
      if not both || le elapsed_seconds (of_ℕ 0) || lt usage2 usage1
      then with_usage usage2 out
      else with_cores (div (sub usage2 usage1) elapsed_seconds) host_cores (with_usage usage2 out)

  -- Only v2 has pressure files.
  unfoldable pub read_container_pressure : Os → CgroupDirs → Pressure fl
  unfolding read_resources
  read_container_pressure os dirs =
      if is_v2 dirs.version then read_resources fl os dirs.cpu true true else record {
        cpu = no_resource fl;
        memory = no_resource fl;
        io = no_resource fl;
        available = false;
        limited = false;
        time = os.now;
      }
