-- ===== src/Process/Usage.antt =====
-- CPU usage of a process, as a delta over a window and as an average since it started.
use systats.Fileops.{read_file_with_error}
use systats.Go.Float.{Float64}
use systats.Go.Os.{Os}
use systats.Go.Outcome.{Outcome, fail, bad_uptime, ◌>>=◌}
use systats.Go.Strings.{fields}
use systats.Go.Words.{sub64}
use systats.Prelude.Text.{Text}
use systats.Prelude.{ℕ, List, [], ◌∷◌, if◌then◌else◌}
use systats.Strops.{to_float64}

abbrev pub clock_ticks_per_sec : ℕ
clock_ticks_per_sec = 100

module _ (fl : Float64) where
  open fl use {F, of_ℕ, sub, mul, div, le}

  unfoldable pub instant_cpu_percent : ℕ → ℕ → F → F
  instant_cpu_percent cpu_ticks1 cpu_ticks2 elapsed_seconds =
      if le elapsed_seconds (of_ℕ 0)
      then of_ℕ 0
      else (let delta_ticks = of_ℕ (sub64 cpu_ticks2 cpu_ticks1) in
          div (mul (of_ℕ 100) (div delta_ticks (of_ℕ clock_ticks_per_sec))) elapsed_seconds)

  unfoldable pub average_cpu_percent : ℕ → ℕ → F → F
  average_cpu_percent cpu_ticks starttime uptime_seconds =
      let process_age_seconds =
        sub uptime_seconds (div (of_ℕ starttime) (of_ℕ clock_ticks_per_sec)) in
      if le process_age_seconds (of_ℕ 0)
      then of_ℕ 0
      else div (mul (of_ℕ 100) (div (of_ℕ cpu_ticks) (of_ℕ clock_ticks_per_sec)))
          process_age_seconds

  unfoldable first_field : List Text → Outcome F
  unfolding to_float64
  first_field [] = fail bad_uptime
  first_field (w ∷ ws) = to_float64 fl w

  unfoldable pub system_uptime_seconds : Os → Text → Outcome F
  unfolding first_field fields
  system_uptime_seconds os uptime_path = do
    content ← read_file_with_error os uptime_path
    first_field (fields content)
