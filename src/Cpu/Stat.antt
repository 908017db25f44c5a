-- ===== src/Cpu/Stat.antt =====
-- processStatFile and processStatFileContents: two samples of /proc/stat.
pub mod Counts
pub mod Percent
use systats.Go.Outcome.{Outcome, ok, fail, panic, index_out_of_range, ◌>>=◌, index}
use systats.Go.Strings.{fields, has_prefix, lines}
use systats.Go.Words.{word, add64, sub64, mul64}
use systats.Prelude.Int.{ℤ, pos, negsuc}
use systats.Prelude.Text.{Text, codes}
use systats.Prelude.{
  ℕ, ◌-◌, ◌/◌, ◌^◌, Bool, true, false, List, [], ◌∷◌, ◌++◌, ltb, if◌then◌else◌, get_elem?,
}
use systats.Strops.{to_uint64}

-- user, system and idle time of one line
pub record StatRow : Type 0 where
  pub user : ℕ
  pub system : ℕ
  pub idle : ℕ

abbrev pub stat_field : List Text → ℕ → Outcome ℕ
stat_field line_arr i = do w ← index (get_elem? line_arr i); to_uint64 w

unfoldable pub stat_row : List Text → Outcome StatRow
unfolding to_uint64
stat_row line_arr = do
  user ← stat_field line_arr 1
  system ← stat_field line_arr 3
  idle ← stat_field line_arr 4
  ok (record { user = user; system = system; idle = idle })

unfoldable pub stat_rows : List Text → List StatRow → Outcome (List StatRow)
unfolding has_prefix
stat_rows [] output = ok output
stat_rows (line ∷ rest) output = elim (fields line) [
  | [] ↦ stat_rows rest output
  | head ∷ tail ↦
      if has_prefix head (codes "cpu")
      then (do row ← stat_row (head ∷ tail); stat_rows rest (output ++ row ∷ []))
      else stat_rows rest output
]

unfoldable pub process_stat_file : Text → Outcome (List StatRow)
unfolding stat_rows stat_row fields lines
process_stat_file content = stat_rows (lines content) []

-- int(x) of a uint64
unfoldable pub int_of_word : ℕ → ℤ
int_of_word x = if ltb x (2 ^ 63) then pos x else negsuc (2 ^ 64 - x - 1)

pub record Utilisation : Type 0 where
  pub load_avg : ℤ
  pub core_avg : List ℤ

abbrev pub no_utilisation : Utilisation
no_utilisation = record { load_avg = pos 0; core_avg = [] }

-- `b`: the time that passed between the two rows
unfoldable pub passed : StatRow → StatRow → ℕ
passed r1 r2 =
    sub64 (add64 (add64 r2.user r2.system) r2.idle) (add64 (add64 r1.user r1.system) r1.idle)

unfoldable pub usage : StatRow → StatRow → ℕ
unfolding passed
usage r1 r2 = mul64 100 (sub64 (add64 r2.user r2.system) (add64 r1.user r1.system)) / passed r1 r2

-- One round of the loop; the flag is `i == 0`.
unfoldable pub stat_round : Bool → StatRow → StatRow → Utilisation → Utilisation
unfolding usage int_of_word
stat_round first r1 r2 output =
    if ltb 0 (passed r1 r2)
    then (if first
        then record output { load_avg = int_of_word (usage r1 r2) }
        else record output { core_avg = output.core_avg ++ int_of_word (usage r1 r2) ∷ [] })
    else record output { core_avg = output.core_avg ++ pos 0 ∷ [] }

unfoldable pub stat_rounds : Bool → List StatRow → List StatRow → Utilisation → Outcome Utilisation
stat_rounds first [] stat_arr2 output = ok output
stat_rounds first (r1 ∷ rs1) [] output = panic index_out_of_range
stat_rounds first (r1 ∷ rs1) (r2 ∷ rs2) output =
    stat_rounds false rs1 rs2 (stat_round first r1 r2 output)

unfoldable pub process_stat_file_contents : Text → Text → Outcome Utilisation
unfolding process_stat_file stat_rounds stat_round
process_stat_file_contents stat_str1 stat_str2 = do
  stat_arr1 ← process_stat_file stat_str1
  stat_arr2 ← process_stat_file stat_str2
  stat_rounds true stat_arr1 stat_arr2 no_utilisation
