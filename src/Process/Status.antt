-- ===== src/Process/Status.antt =====
-- /proc/<pid>/status, io, cmdline and fd, and MemTotal.
use systats.Fileops.{read_file_with_error}
use systats.Go.Os.{Os}
use systats.Go.Outcome.{Outcome, ok, fail, mem_total_not_found, ◌>>=◌}
use systats.Go.Paths
use systats.Go.Strconv.{Parsed, parsed, parse_uint, itoa}
use systats.Go.Strings.{fields, lines, trim_space, trim_suffix, replace_char}
use systats.Prelude.Int.{ℤ}
use systats.Prelude.Text.{Text, codes, eqb}
use systats.Prelude.{ℕ, Bool, true, false, ◌||◌, none, some, List, [], ◌∷◌, if◌then◌else◌, length}
use systats.Process.Stat.{proc_file_path}
use systats.Strops.{to_uint64}

pub record ProcessIo : Type 0 where
  pub read_chars : ℕ
  pub write_chars : ℕ
  pub read_syscalls : ℕ
  pub write_syscalls : ℕ
  pub read_bytes : ℕ
  pub write_bytes : ℕ
  pub cancelled_write_bytes : ℕ
  pub accessible : Bool

abbrev pub no_io : Bool → ProcessIo
no_io accessible = record {
  read_chars = 0;
  write_chars = 0;
  read_syscalls = 0;
  write_syscalls = 0;
  read_bytes = 0;
  write_bytes = 0;
  cancelled_write_bytes = 0;
  accessible = accessible;
}

unfoldable pub set_io : Text → ℕ → ProcessIo → ProcessIo
unfolding eqb
set_io key value io =
    if eqb key (codes "rchar")
    then record io { read_chars = value }
    else if eqb key (codes "wchar")
    then record io { write_chars = value }
    else if eqb key (codes "syscr")
    then record io { read_syscalls = value }
    else if eqb key (codes "syscw")
    then record io { write_syscalls = value }
    else if eqb key (codes "read_bytes")
    then record io { read_bytes = value }
    else if eqb key (codes "write_bytes")
    then record io { write_bytes = value }
    else if eqb key (codes "cancelled_write_bytes")
    then record io { cancelled_write_bytes = value }
    else io

abbrev set_parsed : Text → Parsed ℕ → ProcessIo → ProcessIo
set_parsed key (parsed value) io = set_io key value io
set_parsed key _ io = io

unfoldable pub io_line : List Text → ProcessIo → ProcessIo
unfolding set_io trim_suffix parse_uint
io_line (key ∷ value ∷ []) io = set_parsed (trim_suffix key (codes ":")) (parse_uint value) io
io_line _ io = io

unfoldable pub io_lines : List Text → ProcessIo → ProcessIo
io_lines [] io = io
io_lines (line ∷ rest) io = io_lines rest (io_line (fields line) io)

unfoldable pub parse_proc_io : Text → ProcessIo
unfolding io_lines io_line fields lines
parse_proc_io content = io_lines (lines content) (no_io true)

unfoldable pub read_proc_io : Os → Text → ℤ → ProcessIo
unfolding parse_proc_io proc_file_path
read_proc_io os proc_path pid =
    elim (read_file_with_error os (proc_file_path proc_path pid (codes "io"))) [
      | ok content ↦ parse_proc_io content
      | _ ↦ no_io false
    ]

unfoldable pub process_state_name : Text → Text
unfolding eqb
process_state_name state =
    if eqb state (codes "R")
    then codes "running"
    else if eqb state (codes "S")
    then codes "sleeping"
    else if eqb state (codes "D")
    then codes "disk-sleep"
    else if eqb state (codes "Z")
    then codes "zombie"
    else if eqb state (codes "T")
    then codes "stopped"
    else if eqb state (codes "t")
    then codes "tracing-stop"
    else if eqb state (codes "X") || eqb state (codes "x")
    then codes "dead"
    else if eqb state (codes "K")
    then codes "wakekill"
    else if eqb state (codes "W")
    then codes "waking"
    else if eqb state (codes "P")
    then codes "parked"
    else if eqb state (codes "I")
    then codes "idle"
    else codes "unknown"

unfoldable pub parse_cmdline : Text → Text
unfolding trim_space replace_char
parse_cmdline content = trim_space (replace_char content 0 32)

-- (count, ok)
unfoldable pub count_open_fds : Os → Text → ℤ → ℕ × Bool
unfolding itoa
count_open_fds os proc_path pid =
    elim (os.read_dir (Paths.join (proc_path ∷ itoa pid ∷ codes "fd" ∷ []))) [
      | none ↦ (0, false)
      | some entries ↦ (length entries, true)
    ]

-- (uid, vmRSSKB)
pub record ProcStatus : Type 0 where
  pub uid : Text
  pub vm_rss_kb : ℕ

unfoldable pub status_line : List Text → ProcStatus → Outcome ProcStatus
unfolding eqb to_uint64
status_line (key ∷ value ∷ rest) s =
    if eqb key (codes "Uid:")
    then ok (record s { uid = value })
    else if eqb key (codes "VmRSS:")
    then (do v ← to_uint64 value; ok (record s { vm_rss_kb = v }))
    else ok s
status_line _ s = ok s

unfoldable pub status_lines : List Text → ProcStatus → Outcome ProcStatus
status_lines [] s = ok s
status_lines (line ∷ rest) s = do s' ← status_line (fields line) s; status_lines rest s'

unfoldable pub parse_proc_status : Text → Outcome ProcStatus
unfolding status_lines status_line fields lines
parse_proc_status content = status_lines (lines content) (record { uid = []; vm_rss_kb = 0 })

unfoldable pub read_proc_mem_and_uid : Os → Text → ℤ → Outcome ProcStatus
unfolding parse_proc_status proc_file_path
read_proc_mem_and_uid os proc_path pid = do
  content ← read_file_with_error os (proc_file_path proc_path pid (codes "status"))
  parse_proc_status content

unfoldable pub find_mem_total : Text → List Text → Outcome ℕ
unfolding eqb to_uint64
find_mem_total path [] = fail (mem_total_not_found path)
find_mem_total path (line ∷ rest) = elim (fields line) [
  | [] ↦ find_mem_total path rest
  | key ∷ [] ↦ find_mem_total path rest
  | key ∷ value ∷ more ↦
      let later = find_mem_total path rest in
      if eqb key (codes "MemTotal:") then to_uint64 value else later
]

unfoldable pub total_memory_kb : Os → Text → Outcome ℕ
unfolding find_mem_total fields lines
total_memory_kb os meminfo_path = do
  content ← read_file_with_error os meminfo_path
  find_mem_total meminfo_path (lines content)
