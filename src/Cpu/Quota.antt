-- ===== src/Cpu/Quota.antt =====
-- The cgroup's CPU quota and usage counter, and the load relative to the quota.
use systats.Cgroup.{
  CgroupVersion, cgroup_none, cgroup_v1, cgroup_v2, detect_cgroup_version,
  resolve_cgroup_controller_path,
}
use systats.Config.{SyStats}
use systats.Cpu.Stat.{Utilisation}
use systats.Fileops.{read_file_with_error}
use systats.Go.Float.{Float64}
use systats.Go.Os.{Os}
use systats.Go.Outcome.{Outcome, fail, panic, ◌>>=◌, bad_cpu_max, bad_number, unknown_cgroup}
use systats.Go.Paths
use systats.Go.Strconv.{Parsed, parsed, parse_uint, parse_int, valid}
use systats.Go.Strings.{fields, trim_space, lines}
use systats.Prelude.Int.{ℤ, pos, negsuc}
use systats.Prelude.Text.{Text, codes, eqb}
use systats.Prelude.{
  ℕ, ◌^◌, Bool, true, false, not, ◌||◌, Option, none, some, List, [], ◌∷◌, ◌==◌, if◌then◌else◌,
}
use systats.Strops.{to_uint64, to_float64}

-- The value of the first line "usage_usec N"; none for `ok == false`.
unfoldable pub find_usage_usec : List (List Text) → Option ℕ
unfolding eqb
find_usage_usec [] = none
find_usage_usec ((key ∷ value ∷ []) ∷ rest) =
    if eqb key (codes "usage_usec") then valid (parse_uint value) else find_usage_usec rest
find_usage_usec (_ ∷ rest) = find_usage_usec rest

abbrev all_fields : List Text → List (List Text)
all_fields [] = []
all_fields (line ∷ rest) = fields line ∷ all_fields rest

unfoldable pub parse_cpu_stat_usage_usec : Text → Option ℕ
unfolding find_usage_usec
parse_cpu_stat_usage_usec content = find_usage_usec (all_fields (lines content))

module _ (fl : Float64) where
  open fl use {F, of_ℕ, sub, mul, div, le, to_int}

  pub record CgroupCpuInfo : Type 0 where
    pub ok : Bool
    pub limited : Bool
    pub cores : F
    pub version : CgroupVersion
    pub usage_dir : Text

  abbrev pub no_cgroup_cpu : CgroupCpuInfo
  no_cgroup_cpu = record {
    ok = false;
    limited = false;
    cores = of_ℕ 0;
    version = cgroup_none;
    usage_dir = [];
  }

  -- (cores, limited)
  abbrev pub Quota : Type 0
  Quota = F × Bool

  abbrev unlimited : Outcome Quota
  unlimited = Outcome.ok (of_ℕ 0, false)

  unfoldable quota_v2 : List Text → Outcome Quota
  unfolding eqb to_float64
  quota_v2 (quota ∷ period ∷ rest) = if eqb quota (codes "max") then unlimited else (do
    p ← to_float64 fl period
    if le p (of_ℕ 0) then unlimited else (do q ← to_float64 fl quota; Outcome.ok (div q p, true)))
  quota_v2 _ = fail bad_cpu_max

  abbrev quota_v1 : Parsed ℤ → Outcome Text → Outcome Quota
  quota_v1 (parsed (pos n)) period = if n == 0 then unlimited else (do
    content ← period
    p ← to_float64 fl (trim_space content)
    if le p (of_ℕ 0) then unlimited else Outcome.ok (div (of_ℕ n) p, true))
  quota_v1 (parsed (negsuc n)) period = unlimited
  quota_v1 _ period = fail bad_number

  unfoldable pub read_cgroup_cpu_quota : Os → CgroupVersion → Text → Outcome Quota
  unfolding quota_v2 parse_int fields trim_space
  read_cgroup_cpu_quota os cgroup_v2 dir = do
    content ← read_file_with_error os (Paths.join (dir ∷ codes "cpu.max" ∷ []))
    quota_v2 (fields content)
  read_cgroup_cpu_quota os cgroup_v1 dir = do
    content ← read_file_with_error os (Paths.join (dir ∷ codes "cpu.cfs_quota_us" ∷ []))
    quota_v1 (parse_int (trim_space content))
        (read_file_with_error os (Paths.join (dir ∷ codes "cpu.cfs_period_us" ∷ [])))
  read_cgroup_cpu_quota os cgroup_none dir = fail (unknown_cgroup dir)

  -- quotaDir and usageDir, or none where the process's cgroup is not found.
  unfoldable cpu_dirs : Os → SyStats → CgroupVersion → Option (Text × Text)
  cpu_dirs os systats cgroup_none = none
  cpu_dirs os systats cgroup_v2 = elim (resolve_cgroup_controller_path os systats cgroup_v2 []) [
    | none ↦ none
    | some dir ↦ some (dir, dir)
  ]
  cpu_dirs os systats cgroup_v1 =
      elim (resolve_cgroup_controller_path os systats cgroup_v1 (codes "cpu")) [
        | none ↦ none
        | some cpu_dir ↦
            elim (resolve_cgroup_controller_path os systats cgroup_v1 (codes "cpuacct")) [
              | none ↦ none
              | some cpuacct_dir ↦ some (cpu_dir, cpuacct_dir)
            ]
      ]

  abbrev info_of : CgroupVersion → Text → Outcome Quota → Outcome CgroupCpuInfo
  info_of version usage_dir (Outcome.ok (cores, limited)) = Outcome.ok (record {
    ok = true;
    limited = limited;
    cores = cores;
    version = version;
    usage_dir = usage_dir;
  })
  info_of version usage_dir (fail e) = Outcome.ok no_cgroup_cpu
  info_of version usage_dir (panic p) = panic p

  unfoldable pub resolve_cgroup_cpu : Os → SyStats → Outcome CgroupCpuInfo
  unfolding cpu_dirs
  resolve_cgroup_cpu os systats =
      let version = detect_cgroup_version os systats.cgroup_root_path in
      elim (cpu_dirs os systats version) [
        | none ↦ Outcome.ok no_cgroup_cpu
        | some (quota_dir, usage_dir) ↦
            info_of version usage_dir (read_cgroup_cpu_quota os version quota_dir)
      ]

  abbrev seconds_of : ℕ → Option ℕ → Option F
  seconds_of per none = none
  seconds_of per (some n) = some (div (of_ℕ n) (of_ℕ per))

  -- The counter's content in seconds: microseconds in cpu.stat, nanoseconds in cpuacct.usage.
  unfoldable usage_seconds : CgroupVersion → Outcome Text → Outcome (Option F)
  usage_seconds cgroup_v2 (Outcome.ok content) =
      Outcome.ok (seconds_of (10 ^ 6) (parse_cpu_stat_usage_usec content))
  usage_seconds cgroup_v1 (Outcome.ok content) = do
    n ← to_uint64 (trim_space content)
    Outcome.ok (seconds_of (10 ^ 9) (some n))
  usage_seconds _ _ = Outcome.ok none

  abbrev usage_path : CgroupVersion → Text → Text
  usage_path cgroup_v2 dir = Paths.join (dir ∷ codes "cpu.stat" ∷ [])
  usage_path _ dir = Paths.join (dir ∷ codes "cpuacct.usage" ∷ [])

  -- none for `ok == false`
  unfoldable pub sample_cgroup_cpu_usage_seconds : Os → CgroupCpuInfo → Outcome (Option F)
  unfolding usage_seconds
  sample_cgroup_cpu_usage_seconds os info =
      if not info.ok
      then Outcome.ok none
      else usage_seconds info.version
          (read_file_with_error os (usage_path info.version info.usage_dir))

  -- LoadAvg, CoreAvg, Limited and AllocatedCores of CPU
  pub record CpuLoad : Type 0 where
    pub load_avg : ℤ
    pub core_avg : List ℤ
    pub limited : Bool
    pub allocated_cores : F

  unfoldable relative : Utilisation → CgroupCpuInfo → Option F → Option F → F → CpuLoad
  relative host info (some usage1) (some usage2) elapsed_seconds =
      if not info.limited || le elapsed_seconds (of_ℕ 0)
      then record {
        load_avg = host.load_avg;
        core_avg = host.core_avg;
        limited = info.limited;
        allocated_cores = info.cores;
      }
      else (let cores_used = div (sub usage2 usage1) elapsed_seconds in
          record {
            load_avg = to_int (div (mul (of_ℕ 100) cores_used) info.cores);
            core_avg = [];
            limited = info.limited;
            allocated_cores = info.cores;
          })
  relative host info _ _ elapsed_seconds = record {
    load_avg = host.load_avg;
    core_avg = host.core_avg;
    limited = info.limited;
    allocated_cores = info.cores;
  }

  unfoldable pub apply_cgroup_cpu : Utilisation → CgroupCpuInfo → Option F → Option F → F → CpuLoad
  unfolding relative
  apply_cgroup_cpu host info usage1 usage2 elapsed_seconds =
      if not info.ok
      then record {
        load_avg = host.load_avg;
        core_avg = host.core_avg;
        limited = false;
        allocated_cores = of_ℕ 0;
      }
      else relative host info usage1 usage2 elapsed_seconds
