-- ===== src/Swap.antt =====
-- swap.go
pub mod Figures
use systats.Config.{SyStats, SizeUnit}
use systats.Fileops.{read_file_with_error}
use systats.Go.Float.{Float64}
use systats.Go.Os.{Os}
use systats.Go.Outcome.{Outcome, ok, fail, panic, ◌>>=◌}
use systats.Go.Strings.{fields, lines}
use systats.Go.Words.{sub64}
use systats.Memory.{second_field, percentage, kib_converter}
use systats.Prelude.{ℕ, List, [], ◌∷◌, ltb, if◌then◌else◌}
use systats.Prelude.Text.{Text, codes, eqb}

-- (totalKiB, freeKiB)
pub record SwapKib : Type 0 where
  pub total_kib : ℕ
  pub free_kib : ℕ

abbrev pub no_swap : SwapKib
no_swap = record { total_kib = 0; free_kib = 0 }

unfoldable pub swap_line : List Text → SwapKib → Outcome SwapKib
unfolding eqb
swap_line [] s = ok s
swap_line (key ∷ rest) s =
    if eqb key (codes "SwapTotal:")
    then (do v ← second_field (key ∷ rest); ok (record s { total_kib = v }))
    else if eqb key (codes "SwapFree:")
    then (do v ← second_field (key ∷ rest); ok (record s { free_kib = v }))
    else ok s

unfoldable pub swap_lines : List Text → SwapKib → Outcome SwapKib
swap_lines [] s = ok s
swap_lines (line ∷ rest) s = do s' ← swap_line (fields line) s; swap_lines rest s'

unfoldable pub parse_swap_meminfo : Text → Outcome SwapKib
unfolding swap_lines swap_line
parse_swap_meminfo content = swap_lines (lines content) no_swap

-- usedKiB
unfoldable pub used_kib : SwapKib → ℕ
used_kib s = if ltb 0 s.total_kib then sub64 s.total_kib s.free_kib else 0

module _ (fl : Float64) where
  open fl use {F, of_ℕ}

  pub record Swap : Type 0 where
    pub percentage_used : F
    pub free : F
    pub used : F
    pub time : ℕ
    pub total : F
    pub unit : SizeUnit

  unfoldable pub get_swap : Os → SyStats → SizeUnit → Outcome Swap
  unfolding parse_swap_meminfo used_kib
  get_swap os systats unit = do
    convert ← kib_converter fl unit
    meminfo ← read_file_with_error os systats.meminfo_path
    s ← parse_swap_meminfo meminfo
    ok (record {
      percentage_used =
          if ltb 0 s.total_kib then percentage fl (used_kib s) s.total_kib else of_ℕ 0;
      free = convert s.free_kib;
      used = convert (used_kib s);
      time = os.now;
      total = convert s.total_kib;
      unit = unit;
    })
