-- ===== src/Cpu/Info.antt =====
-- The descriptive fields of /proc/cpuinfo, and /proc/loadavg.
use systats.Go.Float.{Float64}
use systats.Go.Outcome.{Outcome, ok, fail, ◌>>=◌, bad_loadavg}
use systats.Go.Strings.{fields, trim_space}
use systats.Prelude.Text.{Text, codes, eqb}
use systats.Prelude.{List, [], ◌∷◌, ◌++◌, if◌then◌else◌}
use systats.Strops.{to_float64}

pub record CpuInfo : Type 0 where
  pub model : Text
  pub freq : Text
  pub cache : Text

abbrev pub no_info : CpuInfo
no_info = record { model = []; freq = []; cache = [] }

-- The words with a space behind each.
unfoldable pub spaced : List Text → Text
spaced [] = []
spaced (w ∷ ws) = w ++ (32 ∷ spaced ws)

unfoldable pub cpu_info_line : List Text → CpuInfo → CpuInfo
unfolding spaced eqb trim_space
cpu_info_line (a ∷ b ∷ c ∷ d ∷ rest) output =
    if eqb (a ++ b) (codes "modelname")
    then record output { model = trim_space (spaced (d ∷ rest)) }
    else if eqb (a ++ b) (codes "cpuMHz")
    then record output { freq = trim_space d ++ codes " MHz" }
    else if eqb (a ++ b) (codes "cachesize")
    then record output { cache = trim_space (spaced (d ∷ rest)) }
    else output
cpu_info_line _ output = output

unfoldable pub process_cpu_info_lines : List Text → CpuInfo → CpuInfo
unfolding cpu_info_line fields
process_cpu_info_lines [] output = output
process_cpu_info_lines (line ∷ rest) output =
    process_cpu_info_lines rest (cpu_info_line (fields line) output)

module _ (fl : Float64) where
  open fl use {F}

  -- Load1, Load5 and Load15
  pub record LoadAverage : Type 0 where
    pub load1 : F
    pub load5 : F
    pub load15 : F

  unfoldable load_fields : List Text → Outcome LoadAverage
  unfolding to_float64
  load_fields (a ∷ b ∷ c ∷ rest) = do
    load1 ← to_float64 fl a
    load5 ← to_float64 fl b
    load15 ← to_float64 fl c
    ok (record { load1 = load1; load5 = load5; load15 = load15 })
  load_fields _ = fail bad_loadavg

  unfoldable pub process_load_avg : Text → Outcome LoadAverage
  unfolding load_fields fields
  process_load_avg content = load_fields (fields content)
