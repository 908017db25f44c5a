-- ===== src/Process.antt =====
-- process.go: the processes, and what is read of one.
pub mod Stat
pub mod Status
pub mod Usage
pub mod Rank
pub mod Top
use systats.Config.{
  SyStats, SortOrder, sort_by_cpu, sort_by_memory, cpu_usage_average, sample_window, sleep_ctx,
}
use systats.Fileops.{read_file_with_error}
use systats.Go.Float.{Float64}
use systats.Go.Os.{Os, DirEntry}
use systats.Go.Outcome.{
  Outcome, ok, fail, panic, no_dir, cancelled, bad_uptime, mem_total_not_found, ◌>>=◌, ◌>>◌,
}
use systats.Go.Strconv.{Parsed, parsed, parse_int}
use systats.Go.Strings.{fields, lines, trim_space, replace_char}
use systats.Go.Words.{add64}
use systats.Prelude.Int.{ℤ, pos, eqb_ℤ}
use systats.Prelude.Text.{Text, codes, eqb}
use systats.Prelude.{
  ℕ, Bool, true, false, not, Option, none, some, List, [], ◌∷◌, ◌++◌, if◌then◌else◌, length,
}
use systats.Process.Stat.{ProcStat, read_proc_stat, proc_file_path}
use systats.Process.Rank.{ProcCandidate, validate_sort_by, sort_and_limit}
use systats.Process.Status.{
  ProcStatus, ProcessIo, no_io, read_proc_io, process_state_name, parse_cmdline, count_open_fds,
  read_proc_mem_and_uid, total_memory_kb,
}
use systats.Process.Usage.{instant_cpu_percent, average_cpu_percent, system_uptime_seconds}

abbrev valid_pid : Parsed ℤ → List ℤ
valid_pid (parsed pid) = pid ∷ []
valid_pid _ = []

pids_of : List DirEntry → List ℤ
pids_of [] = []
pids_of (e ∷ es) = valid_pid (parse_int e.name) ++ pids_of es

unfoldable pub list_pids : Os → Text → Outcome (List ℤ)
unfolding pids_of parse_int
list_pids os proc_path = elim (os.read_dir proc_path) [
  | none ↦ fail no_dir
  | some entries ↦ ok (pids_of entries)
]

-- A process whose stat file cannot be read is left out; a malformed one panics.
unfoldable pub sample_into :
    Outcome ProcStat → ℤ → List (ℤ × ProcStat) → Outcome (List (ℤ × ProcStat))
sample_into (ok s) pid out = ok ((pid, s) ∷ out)
sample_into (fail e) pid out = ok out
sample_into (panic p) pid out = panic p

unfoldable pub sample_proc_stats : Os → Text → List ℤ → Outcome (List (ℤ × ProcStat))
unfolding sample_into
sample_proc_stats os proc_path [] = ok []
sample_proc_stats os proc_path (pid ∷ pids) = do
  rest ← sample_proc_stats os proc_path pids
  sample_into (read_proc_stat os proc_path pid) pid rest

-- out[pid]
unfoldable pub stat_for : ℤ → List (ℤ × ProcStat) → Option ProcStat
stat_for pid [] = none
stat_for pid ((p, s) ∷ rest) = if eqb_ℤ p pid then some s else stat_for pid rest

abbrev or_uid : Option Text → Text → Text
or_uid (some name) uid = name
or_uid none uid = uid

unfoldable pub resolve_username : Os → Text → Text
resolve_username os uid = or_uid (os.user_name uid) uid

module _ (fl : Float64) where
  open fl use {F, of_ℕ, mul, div, narrow}

  pub record Process : Type 0 where
    pub pid : ℤ
    pub name : Text
    pub exec_path : Text
    pub user : Text
    pub state : Text
    pub state_name : Text
    pub threads : ℤ
    pub cpu_usage : F
    pub mem_usage : F
    pub open_fds : ℕ
    pub fds_accessible : Bool
    pub io : ProcessIo

  -- A process as the caller of enrichProcess has it.
  abbrev pub bare : ℤ → Text → F → F → Process
  bare pid user cpu_usage mem_usage = record {
    pid = pid;
    name = [];
    exec_path = [];
    user = user;
    state = [];
    state_name = [];
    threads = pos 0;
    cpu_usage = cpu_usage;
    mem_usage = mem_usage;
    open_fds = 0;
    fds_accessible = false;
    io = no_io false;
  }

  abbrev cmdline_of : Outcome Text → Text → Text
  cmdline_of (ok content) before = parse_cmdline content
  cmdline_of _ before = before

  unfoldable pub enrich_process : Os → SyStats → Process → Outcome Process
  enrich_process os systats p = do
    s ← read_proc_stat os systats.proc_path p.pid
    let (open_fds, fds_accessible) = count_open_fds os systats.proc_path p.pid
    ok (record p {
      name = s.comm;
      state = s.state;
      state_name = process_state_name s.state;
      threads = s.num_threads;
      exec_path =
          cmdline_of
            (read_file_with_error os (proc_file_path systats.proc_path p.pid (codes "cmdline")))
            p.exec_path;
      open_fds = open_fds;
      fds_accessible = fds_accessible;
      io = read_proc_io os systats.proc_path p.pid;
    })
