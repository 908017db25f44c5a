-- ===== src/Pressure.antt =====
-- pressure.go: pressure stall information, of the host or of the process's own cgroup.
pub mod Lines
use systats.Cgroup.{
  CgroupVersion, cgroup_v2, is_v2, detect_cgroup_version, resolve_cgroup_controller_path,
}
use systats.Config.{SyStats}
use systats.Fileops.{is_file, read_file_with_error}
use systats.Go.Float.{Float64}
use systats.Go.Os.{Os}
use systats.Go.Outcome.{Outcome, ok}
use systats.Go.Paths
use systats.Go.Strconv.{parse_uint, uint_value}
use systats.Go.Strings.{fields, cut, lines}
use systats.Prelude.{
  ℕ, Bool, true, false, not, ◌&&◌, ◌||◌, Option, none, some, List, [], ◌∷◌, ◌++◌, if◌then◌else◌,
}
use systats.Prelude.Text.{Text, codes, eqb}

-- (dir, cgroupScoped)
unfoldable pub pressure_dir : Os → SyStats → Text × Bool
pressure_dir os systats =
    if not systats.container_aware
    then (systats.pressure_path, false)
    else if not (is_v2 (detect_cgroup_version os systats.cgroup_root_path))
    then (systats.pressure_path, false)
    else elim (resolve_cgroup_controller_path os systats cgroup_v2 []) [
      | none ↦ (systats.pressure_path, false)
      | some cg_dir ↦
          if not (is_file os (Paths.join (cg_dir ∷ codes "cpu.pressure" ∷ [])))
          then (systats.pressure_path, false)
          else (cg_dir, true)
    ]

unfoldable pub pressure_file_path : Text → Text → Bool → Text
pressure_file_path dir resource cgroup_scoped =
    if cgroup_scoped
    then Paths.join (dir ∷ (resource ++ codes ".pressure") ∷ [])
    else Paths.join (dir ∷ resource ∷ [])

module _ (fl : Float64) where
  open fl use {F, of_ℕ, parse}

  pub record PressureMetric : Type 0 where
    pub avg10 : F
    pub avg60 : F
    pub avg300 : F
    pub total : ℕ

  -- `Some`, `Full` and `FullAvailable`
  pub record ResourcePressure : Type 0 where
    pub some_stall : PressureMetric
    pub full_stall : PressureMetric
    pub full_available : Bool

  pub record Pressure : Type 0 where
    pub cpu : ResourcePressure
    pub memory : ResourcePressure
    pub io : ResourcePressure
    pub available : Bool
    pub limited : Bool
    pub time : ℕ

  abbrev pub no_metric : PressureMetric
  no_metric = record { avg10 = of_ℕ 0; avg60 = of_ℕ 0; avg300 = of_ℕ 0; total = 0 }

  abbrev pub no_resource : ResourcePressure
  no_resource = record { some_stall = no_metric; full_stall = no_metric; full_available = false }

  abbrev or_float_zero : Option F → F
  or_float_zero (some v) = v
  or_float_zero none = of_ℕ 0

  unfoldable pub parse_float_or_zero : Text → F
  parse_float_or_zero s = or_float_zero (parse s)

  -- `key=value`
  unfoldable pub set_metric : Text → Text → PressureMetric → PressureMetric
  unfolding eqb
  set_metric key value target =
      if eqb key (codes "avg10")
      then record target { avg10 = parse_float_or_zero value }
      else if eqb key (codes "avg60")
      then record target { avg60 = parse_float_or_zero value }
      else if eqb key (codes "avg300")
      then record target { avg300 = parse_float_or_zero value }
      else if eqb key (codes "total")
      then record target { total = uint_value (parse_uint value) }
      else target

  unfoldable pub metric_field : Text → PressureMetric → PressureMetric
  unfolding set_metric
  metric_field field target = elim (cut field b'=') [
    | none ↦ target
    | some (key, value) ↦ set_metric key value target
  ]

  unfoldable pub metric_fields : List Text → PressureMetric → PressureMetric
  metric_fields [] target = target
  metric_fields (field ∷ rest) target = metric_fields rest (metric_field field target)

  unfoldable pub pressure_line : List Text → ResourcePressure → ResourcePressure
  unfolding eqb
  pressure_line (kind ∷ field ∷ rest) out =
      if eqb kind (codes "some")
      then record out { some_stall = metric_fields (field ∷ rest) out.some_stall }
      else if eqb kind (codes "full")
      then record out {
        full_stall = metric_fields (field ∷ rest) out.full_stall;
        full_available = true;
      }
      else out
  pressure_line _ out = out

  unfoldable pub pressure_lines : List Text → ResourcePressure → ResourcePressure
  pressure_lines [] out = out
  pressure_lines (line ∷ rest) out = pressure_lines rest (pressure_line (fields line) out)

  unfoldable pub parse_pressure : Text → ResourcePressure
  unfolding pressure_lines pressure_line metric_fields metric_field parse_float_or_zero fields lines
      cut
  parse_pressure content = pressure_lines (lines content) no_resource

  -- A resource's file, or none where the kernel does not expose it.
  unfoldable pub read_resource : Os → Text → Bool → Text → Option ResourcePressure
  unfolding parse_pressure
  read_resource os dir cgroup_scoped name =
      elim (read_file_with_error os (pressure_file_path dir name cgroup_scoped)) [
        | ok content ↦ some (parse_pressure content)
        | _ ↦ none
      ]

  abbrev or_no_resource : Option ResourcePressure → ResourcePressure
  or_no_resource (some r) = r
  or_no_resource none = no_resource

  abbrev found : Option ResourcePressure → Bool
  found (some r) = true
  found none = false

  -- The loop over the three resources.
  unfoldable pub read_resources : Os → Text → Bool → Bool → Pressure
  read_resources os dir cgroup_scoped limited =
      let cpu = read_resource os dir cgroup_scoped (codes "cpu") in
      let memory = read_resource os dir cgroup_scoped (codes "memory") in
      let io = read_resource os dir cgroup_scoped (codes "io") in
      let available = found cpu || found memory || found io in
      record {
        cpu = or_no_resource cpu;
        memory = or_no_resource memory;
        io = or_no_resource io;
        available = available;
        limited = available && limited;
        time = os.now;
      }

  unfoldable pub get_pressure : Os → SyStats → Outcome Pressure
  unfolding read_resources read_resource pressure_dir
  get_pressure os systats =
      let (dir, cgroup_scoped) = pressure_dir os systats in
      ok (read_resources os dir cgroup_scoped cgroup_scoped)
