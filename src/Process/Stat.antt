-- ===== src/Process/Stat.antt =====
-- /proc/<pid>/stat
pub mod Comm
use systats.Fileops.{read_file_with_error}
use systats.Go.Os.{Os}
use systats.Go.Outcome.{Outcome, ok, fail, bad_stat, ◌>>=◌, index}
use systats.Go.Paths
use systats.Go.Strconv.{atoi_or_zero, itoa}
use systats.Go.Strings.{fields, index_of, last_index_of}
use systats.Prelude.Int.{ℤ}
use systats.Prelude.Text.{Text, codes}
use systats.Prelude.{
  ℕ, ◌+◌, ◌-◌, Bool, true, false, Option, none, some, List, [], ◌∷◌, ltb, if◌then◌else◌, length,
  get_elem?, take, drop,
}
use systats.Strops.{to_uint64}

pub record ProcStat : Type 0 where
  pub comm : Text
  pub state : Text
  pub ppid : ℤ
  pub utime : ℕ
  pub stime : ℕ
  pub num_threads : ℤ
  pub starttime : ℕ

unfoldable pub proc_file_path : Text → ℤ → Text → Text
unfolding itoa
proc_file_path proc_path pid name = Paths.join (proc_path ∷ itoa pid ∷ name ∷ [])

-- What stands between the first `(` and the `)` at `idx`, or "".
unfoldable pub comm_of : Text → ℕ → Text
unfolding index_of
comm_of content idx = elim (index_of content b'(') [
  | none ↦ []
  | some open_at ↦
      if ltb open_at idx then take (idx - (open_at + 1)) (drop (open_at + 1) content) else []
]

-- The fields behind `) `; there are at least 20.
unfoldable pub stat_of_fields : Text → List Text → Outcome ProcStat
unfolding to_uint64 atoi_or_zero
stat_of_fields comm fs = if ltb (length fs) 20 then fail bad_stat else (do
  state ← index (get_elem? fs 0)
  utime ← index (get_elem? fs 11)
  utime_ticks ← to_uint64 utime
  stime ← index (get_elem? fs 12)
  stime_ticks ← to_uint64 stime
  starttime ← index (get_elem? fs 19)
  starttime_ticks ← to_uint64 starttime
  ppid ← index (get_elem? fs 1)
  num_threads ← index (get_elem? fs 17)
  ok (record {
    comm = comm;
    state = state;
    ppid = atoi_or_zero ppid;
    utime = utime_ticks;
    stime = stime_ticks;
    num_threads = atoi_or_zero num_threads;
    starttime = starttime_ticks;
  }))

unfoldable pub parse_proc_stat : Text → Outcome ProcStat
unfolding stat_of_fields comm_of last_index_of fields
parse_proc_stat content = elim (last_index_of content b')') [
  | none ↦ fail bad_stat
  | some idx ↦
      if ltb (length content) (idx + 2)
      then fail bad_stat
      else stat_of_fields (comm_of content idx) (fields (drop (idx + 2) content))
]

unfoldable pub read_proc_stat : Os → Text → ℤ → Outcome ProcStat
unfolding parse_proc_stat proc_file_path
read_proc_stat os proc_path pid = do
  content ← read_file_with_error os (proc_file_path proc_path pid (codes "stat"))
  parse_proc_stat content
