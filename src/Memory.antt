-- ===== src/Memory.antt =====
-- memory.go: host memory from /proc/meminfo, replaced by the cgroup's figures where a limit is set.
pub mod Host
pub mod Limits
use systats.Cgroup.{
  CgroupVersion, cgroup_v1, cgroup_v2, cgroup_none, detect_cgroup_version,
  resolve_cgroup_controller_path, parse_key_value_stat,
}
use systats.Config.{SyStats, SizeUnit, byte, kilobyte, megabyte, gigabyte}
use systats.Fileops.{read_file_with_error}
use systats.Go.Float.{Float64}
use systats.Go.Os.{Os}
use systats.Go.Outcome.{Outcome, ok, fail, panic, ◌>>=◌, index, not_supported, unknown_cgroup}
use systats.Go.Paths
use systats.Go.Strings.{fields, trim_space, lines}
use systats.Go.Words.{add64, sub64}
use systats.Prelude.{
  ℕ, ◌-◌, ◌/◌, ◌^◌, Bool, true, false, not, ◌&&◌, ◌||◌, Option, none, some, List, [], ◌∷◌, ltb,
  if◌then◌else◌, get_elem?,
}
use systats.Prelude.Text.{Text, codes, eqb}
use systats.Stats.{Dict, lookup, get}
use systats.Strops.{to_uint64}
use systats.Unitconv.{kib_to_bytes, kib_to_kb, kib_to_mb, kib_to_gb}

-- The loop's variables: three fields of memoryKiB, and `buffers` and `cached`.
pub record Meminfo : Type 0 where
  pub total : ℕ
  pub free : ℕ
  pub available : ℕ
  pub buffers : ℕ
  pub cached : ℕ

abbrev pub no_meminfo : Meminfo
no_meminfo = record { total = 0; free = 0; available = 0; buffers = 0; cached = 0 }

-- strops.ToUint64(lineArr[1])
abbrev pub second_field : List Text → Outcome ℕ
second_field line_arr = do w ← index (get_elem? line_arr 1); to_uint64 w

unfoldable pub meminfo_line : List Text → Meminfo → Outcome Meminfo
unfolding eqb
meminfo_line [] m = ok m
meminfo_line (key ∷ rest) m =
    if eqb key (codes "MemTotal:")
    then (do v ← second_field (key ∷ rest); ok (record m { total = v }))
    else if eqb key (codes "MemFree:")
    then (do v ← second_field (key ∷ rest); ok (record m { free = v }))
    else if eqb key (codes "MemAvailable:")
    then (do v ← second_field (key ∷ rest); ok (record m { available = v }))
    else if eqb key (codes "Buffers:")
    then (do v ← second_field (key ∷ rest); ok (record m { buffers = v }))
    else if eqb key (codes "Cached:")
    then (do v ← second_field (key ∷ rest); ok (record m { cached = v }))
    else ok m

unfoldable pub meminfo_lines : List Text → Meminfo → Outcome Meminfo
meminfo_lines [] m = ok m
meminfo_lines (line ∷ rest) m = do m' ← meminfo_line (fields line) m; meminfo_lines rest m'

abbrev pub is_v1 : CgroupVersion → Bool
is_v1 cgroup_v1 = true
is_v1 _ = false

abbrev read_trimmed : Os → Text → Outcome Text
read_trimmed os path = do content ← read_file_with_error os path; ok (trim_space content)

-- (limitBytes, limited)
unfoldable pub read_cgroup_memory_limit : Os → CgroupVersion → Text → Outcome (ℕ × Bool)
unfolding eqb
read_cgroup_memory_limit os cgroup_v2 dir = do
  content ← read_trimmed os (Paths.join (dir ∷ codes "memory.max" ∷ []))
  (if eqb content (codes "max") then ok (0, false) else (do v ← to_uint64 content; ok (v, true)))
read_cgroup_memory_limit os cgroup_v1 dir = do
  content ← read_trimmed os (Paths.join (dir ∷ codes "memory.limit_in_bytes" ∷ []))
  value ← to_uint64 content
  if ltb (2 ^ 62) value then ok (0, false) else ok (value, true)
read_cgroup_memory_limit os cgroup_none dir = fail (unknown_cgroup dir)

abbrev usage_file : CgroupVersion → Text
usage_file cgroup_v2 = codes "memory.current"
usage_file _ = codes "memory.usage_in_bytes"

unfoldable pub read_cgroup_memory_usage : Os → CgroupVersion → Text → Outcome ℕ
read_cgroup_memory_usage os version dir = do
  content ← read_trimmed os (Paths.join (dir ∷ usage_file version ∷ []))
  to_uint64 content

abbrev inactive_file : Dict ℕ → ℕ
inactive_file stats = get stats (codes "inactive_file")

unfoldable pub read_cgroup_memory_inactive_file_bytes : Os → CgroupVersion → Text → ℕ
read_cgroup_memory_inactive_file_bytes os version dir =
    elim (read_file_with_error os (Paths.join (dir ∷ codes "memory.stat" ∷ []))) [
      | ok content ↦
          (let stats = parse_key_value_stat content in
            if is_v1 version
            then elim (lookup (codes "total_inactive_file") stats) [
              | some v ↦ v
              | none ↦ inactive_file stats
            ]
            else inactive_file stats)
      | _ ↦ 0
    ]

-- Usage without the reclaimable file cache.
unfoldable pub working_set : ℕ → ℕ → ℕ
working_set usage inactive = if ltb inactive usage then usage - inactive else usage

-- (limitBytes, limited, usedBytes)
pub record CgroupMemory : Type 0 where
  pub limit_bytes : ℕ
  pub limited : Bool
  pub used_bytes : ℕ

unfoldable pub read_cgroup_memory_bytes : Os → CgroupVersion → Text → Outcome CgroupMemory
unfolding working_set
read_cgroup_memory_bytes os version dir = do
  (limit_bytes, limited) ← read_cgroup_memory_limit os version dir
  usage_bytes ← read_cgroup_memory_usage os version dir
  let inactive = read_cgroup_memory_inactive_file_bytes os version dir
  ok (record {
    limit_bytes = limit_bytes;
    limited = limited;
    used_bytes = working_set usage_bytes inactive;
  })

module _ (fl : Float64) where
  open fl use {F, of_ℕ, mul, div}

  pub record MemoryKib : Type 0 where
    pub total : ℕ
    pub free : ℕ
    pub available : ℕ
    pub used : ℕ
    pub percentage_used : F
    pub limited : Bool

  pub record Memory : Type 0 where
    pub percentage_used : F
    pub available : F
    pub free : F
    pub used : F
    pub time : ℕ
    pub total : F
    pub unit : SizeUnit
    pub limited : Bool

  -- float64(used) / float64(total) * 100
  abbrev pub percentage : ℕ → ℕ → F
  percentage used total = mul (div (of_ℕ used) (of_ℕ total)) (of_ℕ 100)

  -- What follows the loop of parseMeminfo.
  unfoldable pub summarise : Meminfo → MemoryKib
  summarise m =
      let used =
        if ltb 0 m.total then sub64 m.total (add64 (add64 m.free m.buffers) m.cached) else 0 in
      record {
        total = m.total;
        free = m.free;
        available = m.available;
        used = used;
        percentage_used = if ltb 0 m.total then percentage used m.total else of_ℕ 0;
        limited = false;
      }

  unfoldable pub parse_meminfo : Text → Outcome MemoryKib
  unfolding meminfo_lines meminfo_line summarise fields lines to_uint64
  parse_meminfo content = do m ← meminfo_lines (lines content) no_meminfo; ok (summarise m)

  unfoldable pub kib_converter : SizeUnit → Outcome (ℕ → F)
  unfolding eqb
  kib_converter unit =
      if eqb unit byte
      then ok (kib_to_bytes fl)
      else if eqb unit kilobyte
      then ok (kib_to_kb fl)
      else if eqb unit megabyte
      then ok (kib_to_mb fl)
      else if eqb unit gigabyte
      then ok (kib_to_gb fl)
      else fail (not_supported unit)

  -- The cgroup's figures in place of the host's.
  unfoldable pub limit_memory : CgroupMemory → MemoryKib → MemoryKib
  limit_memory c m =
      let total = c.limit_bytes / 1024 in
      let used = c.used_bytes / 1024 in
      let available = if ltb used total then total - used else 0 in
      record {
        total = total;
        free = available;
        available = available;
        used = used;
        percentage_used = if ltb 0 total then percentage used total else m.percentage_used;
        limited = true;
      }

  abbrev limit_outcome : Outcome CgroupMemory → MemoryKib → Outcome MemoryKib
  limit_outcome (ok c) m = if c.limited then ok (limit_memory c m) else ok m
  limit_outcome (fail e) m = ok m
  limit_outcome (panic p) m = panic p

  unfoldable pub apply_cgroup_memory : Os → SyStats → MemoryKib → Outcome MemoryKib
  unfolding limit_memory
  apply_cgroup_memory os systats m =
      if not systats.container_aware
      then ok m
      else (let version = detect_cgroup_version os systats.cgroup_root_path in
          elim (resolve_cgroup_controller_path os systats version (codes "memory")) [
            | none ↦ ok m
            | some dir ↦ limit_outcome (read_cgroup_memory_bytes os version dir) m
          ])

  unfoldable pub get_memory : Os → SyStats → SizeUnit → Outcome Memory
  unfolding kib_converter parse_meminfo apply_cgroup_memory
  get_memory os systats unit = do
    convert ← kib_converter unit
    meminfo ← read_file_with_error os systats.meminfo_path
    host ← parse_meminfo meminfo
    m ← apply_cgroup_memory os systats host
    ok (record {
      percentage_used = m.percentage_used;
      available = convert m.available;
      free = convert m.free;
      used = convert m.used;
      time = os.now;
      total = convert m.total;
      unit = unit;
      limited = m.limited;
    })
