-- ===== src/Temperature.antt =====
-- temperature.go: the sensors of /sys/class/hwmon.
pub mod Inputs
pub mod Readings
pub mod Sensors
pub mod Order
use systats.Config.{SyStats}
use systats.Go.Float.{Float64}
use systats.Go.Os.{Os, DirEntry}
use systats.Go.Outcome.{Outcome, ok}
use systats.Go.Paths
use systats.Go.Strings.{has_prefix, has_suffix, trim_suffix}
use systats.Network.{read_as_string}
use systats.Prelude.Text.{Text, codes, eqb, text_ltb}
use systats.Prelude.{
  Bool, true, false, not, ◌&&◌, ◌||◌, Option, none, some, List, [], ◌∷◌, ◌++◌, if◌then◌else◌,
}

-- The prefix `tempN` of a file `tempN_input`.
unfoldable pub temp_input_prefix : Text → Option Text
unfolding has_prefix has_suffix trim_suffix eqb
temp_input_prefix file_name =
    if not (has_prefix file_name (codes "temp")) || not (has_suffix file_name (codes "_input"))
    then none
    else (let prefix = trim_suffix file_name (codes "_input") in
        if eqb prefix (codes "temp") then none else some prefix)

module _ (fl : Float64) where
  open fl use {F, of_ℕ, div, parse}

  pub record Temperature : Type 0 where
    pub name : Text
    pub label : Text
    pub celsius : F
    pub high : F
    pub high_available : Bool
    pub critical : F
    pub critical_available : Bool

  abbrev pub degrees : Option F → F × Bool
  degrees none = (of_ℕ 0, false)
  degrees (some milli) = (div milli (of_ℕ 1000), true)

  unfoldable pub read_milli_degrees : Os → Text → Text → F × Bool
  unfolding read_as_string Paths.join eqb
  read_milli_degrees os dir file_name =
      let raw = read_as_string os (Paths.join (dir ∷ file_name ∷ [])) in
      if eqb raw [] then (of_ℕ 0, false) else degrees (parse raw)

  -- The label file's text, where it has any.
  abbrev label_or : Text → Text → Text
  unfolding eqb
  label_or prefix label = if eqb label [] then prefix else label

  unfoldable pub temperature_of : Os → Text → Text → Text → F → Temperature
  unfolding label_or read_milli_degrees read_as_string Paths.join
  temperature_of os chip_dir chip_name prefix milli =
      let (high, high_available) = read_milli_degrees os chip_dir (prefix ++ codes "_max") in
      let (critical, critical_available) =
        read_milli_degrees os chip_dir (prefix ++ codes "_crit") in
      record {
        name = chip_name;
        label =
            label_or prefix
              (read_as_string os (Paths.join (chip_dir ∷ (prefix ++ codes "_label") ∷ [])));
        celsius = div milli (of_ℕ 1000);
        high = high;
        high_available = high_available;
        critical = critical;
        critical_available = critical_available;
      }

  -- A sensor that cannot be read as a number is skipped.
  abbrev pub reading_of : Os → Text → Text → Text → Option F → List Temperature
  unfolding temperature_of
  reading_of os chip_dir chip_name prefix none = []
  reading_of os chip_dir chip_name prefix (some milli) =
      temperature_of os chip_dir chip_name prefix milli ∷ []

  unfoldable pub entry_reading : Os → Text → Text → Text → List Temperature
  unfolding temp_input_prefix reading_of read_as_string Paths.join
  entry_reading os chip_dir chip_name file_name = elim (temp_input_prefix file_name) [
    | none ↦ []
    | some prefix ↦
        reading_of os chip_dir chip_name prefix
          (parse (read_as_string os (Paths.join (chip_dir ∷ file_name ∷ []))))
  ]

  unfoldable pub chip_readings : Os → Text → Text → List DirEntry → List Temperature
  unfolding entry_reading
  chip_readings os chip_dir chip_name [] = []
  chip_readings os chip_dir chip_name (e ∷ entries) =
      entry_reading os chip_dir chip_name e.name ++ chip_readings os chip_dir chip_name entries

  -- A chip whose directory cannot be read is skipped.
  abbrev pub chip_of : Os → Text → Option (List DirEntry) → List Temperature
  unfolding chip_readings read_as_string Paths.join
  chip_of os chip_dir none = []
  chip_of os chip_dir (some entries) =
      chip_readings os chip_dir (read_as_string os (Paths.join (chip_dir ∷ codes "name" ∷ [])))
        entries

  unfoldable pub all_readings : Os → Text → List DirEntry → List Temperature
  unfolding chip_of Paths.join
  all_readings os hwmon_path [] = []
  all_readings os hwmon_path (chip ∷ chips) =
      let chip_dir = Paths.join (hwmon_path ∷ chip.name ∷ []) in
      chip_of os chip_dir (os.read_dir chip_dir) ++ all_readings os hwmon_path chips

  -- The comparison of sort.Slice.
  unfoldable pub is_before : Temperature → Temperature → Bool
  unfolding eqb text_ltb
  is_before a b =
      if not (eqb a.name b.name) then text_ltb a.name b.name else text_ltb a.label b.label

  unfoldable pub insert_reading : Temperature → List Temperature → List Temperature
  unfolding is_before
  insert_reading t [] = t ∷ []
  insert_reading t (u ∷ us) = if is_before u t then u ∷ insert_reading t us else t ∷ u ∷ us

  unfoldable pub sort_readings : List Temperature → List Temperature
  unfolding insert_reading
  sort_readings [] = []
  sort_readings (t ∷ ts) = insert_reading t (sort_readings ts)

  unfoldable pub get_temperatures : Os → SyStats → Outcome (List Temperature)
  unfolding all_readings sort_readings
  get_temperatures os systats = elim (os.read_dir systats.hwmon_path) [
    | none ↦ ok []
    | some chips ↦ ok (sort_readings (all_readings os systats.hwmon_path chips))
  ]
