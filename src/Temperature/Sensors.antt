-- ===== src/Temperature/Sensors.antt =====
-- temperature.go: which sensors are reported.
use mathlib.Core.List.Perm
use mathlib.Core.List.{
  Mem, mem-cons, not-mem-nil, mem-append_left, mem-append_right, mem-cons_self, mem-cons_of_mem,
  Mem-prop,
}
use mathlib.Core.Logic.Or
use systats.Config.{SyStats}
use systats.Go.Float.{Float64}
use systats.Go.Os.{Os, DirEntry}
use systats.Go.Outcome.{ok}
use systats.Go.Paths
use systats.Network.{read_as_string}
use systats.Prelude.Text.{Text}
use systats.Prelude.{
  ◌≡◌, inl, inr, refl, sym, Option, none, some, List, subst, [], ◌∷◌, All, All-map, All-append,
  Option-cases,
}
use systats.Temperature.Order.{
  IsOrdered, sort_readings-perm, sort_readings-IsOrdered, sort_readings-All,
}
use systats.Temperature.{
  Temperature, temperature_of, chip_readings, chip_of, all_readings, sort_readings,
  get_temperatures,
}
use systats.Temperature.Inputs.{IsInput}
use systats.Temperature.Readings.{IsReading, chip_name, chip_readings-IsReading, Mem-chip_readings}

module _ (fl : Float64) where
  open fl use {F, parse}

  -- A reading of a chip that the directory lists.
  pub record IsSensor (os : Os) (systats : SyStats) (chips : List DirEntry) (t : Temperature fl)
      : Type 0 where
    pub chip : DirEntry
    pub chip_listed : Mem chip chips
    pub entries : List DirEntry
    pub opened : os.read_dir (Paths.join (systats.hwmon_path ∷ chip.name ∷ [])) ≡ some entries
    pub reading : IsReading fl os (Paths.join (systats.hwmon_path ∷ chip.name ∷ [])) entries t

  abbrev pub listed : Option (List DirEntry) → List DirEntry
  listed none = []
  listed (some chips) = chips

  module _ (os : Os) where
    module _ (systats : SyStats) where
      abbrev pub chip_dir : DirEntry → Text
      chip_dir chip = Paths.join (systats.hwmon_path ∷ chip.name ∷ [])

      chip-IsSensor :
          (chip : DirEntry) (chips : List DirEntry)
          → All
              (IsSensor os systats (chip ∷ chips))
              (chip_of fl os (chip_dir chip) (os.read_dir (chip_dir chip)))
      unfolding chip_of
      chip-IsSensor chip chips =
          let dir = chip_dir chip in
          elim (Option-cases (os.read_dir dir)) [
            | inl n ↦ rw n tt
            | inr (entries, d) ↦ rw d (
                All-map (IsReading fl os dir entries) (IsSensor os systats (chip ∷ chips))
                  (λ t r. record {
                    chip = chip;
                    chip_listed = mem-cons_self;
                    entries = entries;
                    opened = d;
                    reading = r;
                  })
                  (chip_readings fl os dir (chip_name fl os dir) entries)
                  (chip_readings-IsReading fl os dir entries))
          ]

      wider-IsSensor :
          (chip : DirEntry) (chips : List DirEntry) (t : Temperature fl)
          → IsSensor os systats chips t
          → IsSensor os systats (chip ∷ chips) t
      wider-IsSensor chip chips t s = record {
        chip = s.chip;
        chip_listed = mem-cons_of_mem chip s.chip_listed;
        entries = s.entries;
        opened = s.opened;
        reading = s.reading;
      }

      all_readings-IsSensor :
          (chips : List DirEntry)
          → All (IsSensor os systats chips) (all_readings fl os systats.hwmon_path chips)
      unfolding all_readings
      all_readings-IsSensor [] = tt
      all_readings-IsSensor (chip ∷ chips) =
          All-append (IsSensor os systats (chip ∷ chips)) _ _ (chip-IsSensor chip chips) (
            All-map (IsSensor os systats chips) (IsSensor os systats (chip ∷ chips))
              (wider-IsSensor chip chips) (all_readings fl os systats.hwmon_path chips)
              (all_readings-IsSensor chips))

    module _ (systats : SyStats) where
      -- A sensor file that holds a number has its reading.
      abbrev HasSensor : List DirEntry → List (Temperature fl) → Type 0
      HasSensor chips ts =
          (chip e : DirEntry) (entries : List DirEntry) (prefix : Text) (milli : F)
          → Mem chip chips
          → os.read_dir (chip_dir systats chip) ≡ some entries
          → Mem e entries
          → IsInput e.name prefix
          → parse (read_as_string os (Paths.join (chip_dir systats chip ∷ e.name ∷ [])))
            ≡ some milli
          → Mem
              (temperature_of fl os (chip_dir systats chip)
                (chip_name fl os (chip_dir systats chip)) prefix milli)
              ts

      all_readings-HasSensor :
          (chips : List DirEntry) → HasSensor chips (all_readings fl os systats.hwmon_path chips)
      unfolding all_readings chip_of
      all_readings-HasSensor [] chip e entries prefix milli hc hd he hi hm = absurd (not-mem-nil hc)
      all_readings-HasSensor (c ∷ chips) chip e entries prefix milli hc hd he hi hm =
          let t =
            temperature_of fl os (chip_dir systats chip) (chip_name fl os (chip_dir systats chip))
              prefix milli in
          Or.elim Mem-prop (mem-cons.0 hc)
            (λ same. mem-append_left _ (
              subst
                (λ c. Mem t (chip_of fl os (chip_dir systats c) (os.read_dir (chip_dir systats c))))
                same
                (subst (λ r. Mem t (chip_of fl os (chip_dir systats chip) r)) (sym hd)
                  (Mem-chip_readings fl os (chip_dir systats chip) prefix milli e hi hm entries
                    he))))
            (λ behind.
              mem-append_right _
                (all_readings-HasSensor chips chip e entries prefix milli behind hd he hi hm))

      -- For every system, getTemperatures returns without an error, and its readings are ordered by
      -- name and then by label. Each is that of a file `temp*_input` of a listed chip that holds a
      -- number, in degrees; a threshold is that of its file, or 0 and marked as not available.
      pub get_temperatures-AreSensors :
          (ts : List (Temperature fl)) × (get_temperatures fl os systats ≡ ok ts)
          × IsOrdered fl ts
          × All (IsSensor os systats (listed (os.read_dir systats.hwmon_path))) ts
      unfolding get_temperatures
      get_temperatures-AreSensors = elim (Option-cases (os.read_dir systats.hwmon_path)) [
        | inl n ↦ ([], rw (n, get_temperatures) refl, tt, tt)
        | inr (chips, h) ↦
            let ts = all_readings fl os systats.hwmon_path chips in
            (
              sort_readings fl ts,
              rw (h, get_temperatures) refl,
              sort_readings-IsOrdered fl ts,
              rw h (
                  sort_readings-All fl (IsSensor os systats chips) ts
                    (all_readings-IsSensor systats chips)),
            )
      ]

      -- Where the directory of the chips and that of a listed chip can be read, each of its files
      -- `temp*_input` that holds a number has its reading among those of getTemperatures.
      pub mem-get_temperatures :
          (chips entries : List DirEntry) (chip e : DirEntry) (prefix : Text) (milli : F)
          → os.read_dir systats.hwmon_path ≡ some chips
          → Mem chip chips
          → os.read_dir (chip_dir systats chip) ≡ some entries
          → Mem e entries
          → IsInput e.name prefix
          → parse (read_as_string os (Paths.join (chip_dir systats chip ∷ e.name ∷ [])))
            ≡ some milli
          → (ts : List (Temperature fl)) × (get_temperatures fl os systats ≡ ok ts)
            × Mem
                (temperature_of fl os
                  (chip_dir systats chip)
                  (chip_name fl os (chip_dir systats chip))
                  prefix
                  milli)
                ts
      unfolding get_temperatures
      mem-get_temperatures chips entries chip e prefix milli h hc hd he hi hm =
          let ts = all_readings fl os systats.hwmon_path chips in
          (
            sort_readings fl ts,
            rw (h, get_temperatures) refl,
            (Perm.mem_iff (sort_readings-perm fl ts)).1
                (all_readings-HasSensor chips chip e entries prefix milli hc hd he hi hm),
          )
