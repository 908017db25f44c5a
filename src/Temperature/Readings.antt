-- ===== src/Temperature/Readings.antt =====
-- temperature.go: what is reported of the sensors of a chip.
use mathlib.Core.List.{
  Mem, mem-cons, not-mem-nil, mem-append_left, mem-append_right, mem-cons_self, mem-cons_of_mem,
  Mem-prop,
}
use mathlib.Core.Logic.Or
use systats.Go.Float.{Float64}
use systats.Go.Os.{Os, DirEntry}
use systats.Go.Paths
use systats.Network.{read_as_string}
use systats.Prelude.Text.{Text, codes, eqb, eqb_iff}
use systats.Prelude.{
  ◌≡◌, ◌⊎◌, inl, inr, refl, Bool, true, false, none, some, List, subst, [], ◌∷◌, ◌++◌, All, All-map,
  All-append, Bool-cases, Option-cases,
}
use systats.Temperature.{
  temp_input_prefix, Temperature, read_milli_degrees, temperature_of, entry_reading, chip_readings,
}
use systats.Temperature.Inputs.{IsInput, temp_input_prefix-IsInput, temp_input_prefix_iff}

module _ (fl : Float64) where
  open fl use {F, of_ℕ, div, parse}

  -- A threshold is the number of its file in degrees, or marked as not available and 0 where that
  -- file is missing, empty or no number.
  abbrev pub IsThreshold : Os → Text → Text → F → Bool → Type 0
  IsThreshold os dir file_name value available =
      let raw = read_as_string os (Paths.join (dir ∷ file_name ∷ [])) in
      ((available ≡ true)
        × (milli : F) × (parse raw ≡ some milli)
        × (value ≡ div milli (of_ℕ 1000)))
      ⊎ ((available ≡ false) × (value ≡ of_ℕ 0) × ((raw ≡ []) ⊎ (parse raw ≡ none)))

  read_milli_degrees-IsThreshold :
      (os : Os) (dir file_name : Text)
      → IsThreshold os dir file_name
          (read_milli_degrees fl os dir file_name).0
          (read_milli_degrees fl os dir file_name).1
  unfolding read_milli_degrees
  read_milli_degrees-IsThreshold os dir file_name =
      let raw = read_as_string os (Paths.join (dir ∷ file_name ∷ [])) in
      elim (Bool-cases (eqb raw [])) [
        | inl e ↦ rw e (inr (refl, refl, inl ((eqb_iff raw []).0 e)))
        | inr n ↦ elim (Option-cases (parse raw)) [
          | inl e ↦ rw (n, e) (inr (refl, refl, inr refl))
          | inr (milli, e) ↦ rw (n, e) (inl (refl, milli, refl, refl))
        ]
      ]

  -- What is reported of the sensor of `file_name` in the directory of a chip.
  pub record IsReading (os : Os) (chip_dir : Text) (entries : List DirEntry) (t : Temperature fl)
      : Type 0 where
    pub entry : DirEntry
    pub listed : Mem entry entries
    pub prefix : Text
    pub input : IsInput entry.name prefix
    pub milli : F
    pub readable : parse (read_as_string os (Paths.join (chip_dir ∷ entry.name ∷ []))) ≡ some milli
    pub celsius_lem : t.celsius ≡ div milli (of_ℕ 1000)
    pub name_lem : t.name ≡ read_as_string os (Paths.join (chip_dir ∷ codes "name" ∷ []))
    pub high_lem : IsThreshold os chip_dir (prefix ++ codes "_max") t.high t.high_available
    pub critical_lem :
        IsThreshold os chip_dir (prefix ++ codes "_crit") t.critical t.critical_available

  module _ (os : Os) where
    abbrev pub chip_name : Text → Text
    chip_name dir = read_as_string os (Paths.join (dir ∷ codes "name" ∷ []))

    entry_reading-IsReading :
        (dir : Text) (e : DirEntry) (entries : List DirEntry)
        → All (IsReading os dir (e ∷ entries)) (entry_reading fl os dir (chip_name dir) e.name)
    unfolding entry_reading temperature_of
    entry_reading-IsReading dir e entries = elim (Option-cases (temp_input_prefix e.name)) [
      | inl n ↦ rw (n, entry_reading) tt
      | inr (prefix, p) ↦
          elim (Option-cases (parse (read_as_string os (Paths.join (dir ∷ e.name ∷ []))))) [
            | inl n ↦ rw (p, n, entry_reading) tt
            | inr (milli, m) ↦
                rw (p, m, entry_reading)
                  (
                    record {
                      entry = e;
                      listed = mem-cons_self;
                      prefix = prefix;
                      input = temp_input_prefix-IsInput e.name prefix p;
                      milli = milli;
                      readable = m;
                      celsius_lem = refl;
                      name_lem = refl;
                      high_lem = read_milli_degrees-IsThreshold os dir (prefix ++ codes "_max");
                      critical_lem =
                          read_milli_degrees-IsThreshold os dir (prefix ++ codes "_crit");
                    },
                    tt,
                  )
          ]
    ]

    wider-IsReading :
        (dir : Text) (e : DirEntry) (entries : List DirEntry) (t : Temperature fl)
        → IsReading os dir entries t
        → IsReading os dir (e ∷ entries) t
    wider-IsReading dir e entries t r = record {
      entry = r.entry;
      listed = mem-cons_of_mem e r.listed;
      prefix = r.prefix;
      input = r.input;
      milli = r.milli;
      readable = r.readable;
      celsius_lem = r.celsius_lem;
      name_lem = r.name_lem;
      high_lem = r.high_lem;
      critical_lem = r.critical_lem;
    }

    pub chip_readings-IsReading :
        (dir : Text) (entries : List DirEntry)
        → All (IsReading os dir entries) (chip_readings fl os dir (chip_name dir) entries)
    unfolding chip_readings
    chip_readings-IsReading dir [] = tt
    chip_readings-IsReading dir (e ∷ entries) =
        All-append (IsReading os dir (e ∷ entries)) (entry_reading fl os dir (chip_name dir) e.name)
          (chip_readings fl os dir (chip_name dir) entries) (entry_reading-IsReading dir e entries)
          (All-map (IsReading os dir entries) (IsReading os dir (e ∷ entries))
            (wider-IsReading dir e entries) (chip_readings fl os dir (chip_name dir) entries)
            (chip_readings-IsReading dir entries))

    entry_reading-Mem :
        (dir prefix : Text) (milli : F) (e : DirEntry)
        → IsInput e.name prefix
        → parse (read_as_string os (Paths.join (dir ∷ e.name ∷ []))) ≡ some milli
        → Mem
            (temperature_of fl os dir (chip_name dir) prefix milli)
            (entry_reading fl os dir (chip_name dir) e.name)
    unfolding entry_reading
    entry_reading-Mem dir prefix milli e i m =
        rw ((temp_input_prefix_iff e.name prefix).1 i, m, entry_reading) mem-cons_self

    pub Mem-chip_readings :
        (dir prefix : Text) (milli : F) (e : DirEntry)
        → IsInput e.name prefix
        → parse (read_as_string os (Paths.join (dir ∷ e.name ∷ []))) ≡ some milli
        → (entries : List DirEntry) → Mem e entries
        → Mem
            (temperature_of fl os dir (chip_name dir) prefix milli)
            (chip_readings fl os dir (chip_name dir) entries)
    unfolding chip_readings
    Mem-chip_readings dir prefix milli e i m [] h = absurd (not-mem-nil h)
    Mem-chip_readings dir prefix milli e i m (d ∷ entries) h =
        let t = temperature_of fl os dir (chip_name dir) prefix milli in
        Or.elim Mem-prop (mem-cons.0 h)
          (λ same. mem-append_left _ (
            subst (λ d. Mem t (entry_reading fl os dir (chip_name dir) d.name)) same
              (entry_reading-Mem dir prefix milli e i m)))
          (λ behind. mem-append_right _ (Mem-chip_readings dir prefix milli e i m entries behind))
