-- ===== src/Process/Top.antt =====
-- process.go: the collecting of processes by usage, getTopProcesses and getProcess.
use systats.Config.{SyStats, SortOrder, cpu_usage_average, sample_window, sleep_ctx}
use systats.Go.Float.{Float64}
use systats.Go.Os.{Os}
use systats.Go.Outcome.{Outcome, ok, fail, panic, cancelled, ◌>>=◌, ◌>>◌}
use systats.Go.Words.{add64}
use systats.Prelude.Int.{ℤ}
use systats.Prelude.Text.{eqb}
use systats.Prelude.{ℕ, Bool, true, false, Option, none, some, List, [], ◌∷◌, ◌++◌, if◌then◌else◌}
use systats.Process.Stat.{ProcStat, read_proc_stat}
use systats.Process.Rank.{ProcCandidate, validate_sort_by, sort_and_limit}
use systats.Process.Status.{ProcStatus, read_proc_mem_and_uid, total_memory_kb}
use systats.Process.Usage.{instant_cpu_percent, average_cpu_percent, system_uptime_seconds}
use systats.Process.{
  Process, bare, enrich_process, list_pids, sample_proc_stats, stat_for, resolve_username,
}

module _ (fl : Float64) where
  open fl use {F, of_ℕ, mul, div, narrow}

  -- 100 * float64(vmRSSKB) / float64(totalMemKB)
  abbrev pub mem_percent : ℕ → ℕ → F
  mem_percent vm_rss_kb total_mem_kb = div (mul (of_ℕ 100) (of_ℕ vm_rss_kb)) (of_ℕ total_mem_kb)

  -- What one round adds: nothing where the process is gone.
  unfoldable pub candidate_of : Outcome ProcStatus → ℤ → F → ℕ → Outcome (List (ProcCandidate fl))
  candidate_of (ok st) pid cpu_usage total_mem_kb = ok (
      record {
        pid = pid;
        uid = st.uid;
        cpu_usage = cpu_usage;
        mem_usage = mem_percent st.vm_rss_kb total_mem_kb;
      }
      ∷ [])
  candidate_of (fail e) pid cpu_usage total_mem_kb = ok []
  candidate_of (panic p) pid cpu_usage total_mem_kb = panic p

  unfoldable instant_round :
      Os
      → SyStats
      → ℤ
      → Option ProcStat
      → Option ProcStat
      → F
      → ℕ
      → Outcome (List (ProcCandidate fl))
  instant_round os systats pid (some s1) (some s2) elapsed_seconds total_mem_kb =
      candidate_of (read_proc_mem_and_uid os systats.proc_path pid) pid
        (instant_cpu_percent fl (add64 s1.utime s1.stime) (add64 s2.utime s2.stime) elapsed_seconds)
        total_mem_kb
  instant_round os systats pid _ _ elapsed_seconds total_mem_kb = ok []

  -- `ctx_done` is whether the context is done when the loop reaches the pid.
  unfoldable pub instant_rounds :
      Os
      → SyStats
      → (ℤ → Bool)
      → List (ℤ × ProcStat)
      → List (ℤ × ProcStat)
      → F
      → ℕ
      → List ℤ
      → List (ProcCandidate fl)
      → Outcome (List (ProcCandidate fl))
  unfolding instant_round candidate_of stat_for
  instant_rounds os systats ctx_done sample1 sample2 elapsed total [] candidates = ok candidates
  instant_rounds os systats ctx_done sample1 sample2 elapsed total (pid ∷ pids) candidates =
      elim (ctx_done pid) [
        | true ↦ fail cancelled
        | false ↦
            instant_round os systats pid (stat_for pid sample1) (stat_for pid sample2) elapsed total
            >>= λ cs.
                instant_rounds os systats ctx_done sample1 sample2 elapsed total pids
                  (candidates ++ cs)
      ]

  -- `os1` is the system before the wait, `os2` after it; `done` is whether the context ends the wait.
  unfoldable pub collect_candidates_instant :
      Os → Os → Bool → (ℤ → Bool) → F → SyStats → List ℤ → ℕ → Outcome (List (ProcCandidate fl))
  unfolding instant_rounds sample_proc_stats sleep_ctx
  collect_candidates_instant os1 os2 done ctx_done elapsed_seconds systats pids total_mem_kb = do
    sample1 ← sample_proc_stats os1 systats.proc_path pids
    sleep_ctx done (sample_window systats)
    sample2 ← sample_proc_stats os2 systats.proc_path pids
    instant_rounds os2 systats ctx_done sample1 sample2 elapsed_seconds total_mem_kb pids []

  unfoldable average_round :
      Os → SyStats → ℤ → Option ProcStat → F → ℕ → Outcome (List (ProcCandidate fl))
  average_round os systats pid (some s) uptime_seconds total_mem_kb =
      candidate_of (read_proc_mem_and_uid os systats.proc_path pid) pid
        (average_cpu_percent fl (add64 s.utime s.stime) s.starttime uptime_seconds) total_mem_kb
  average_round os systats pid none uptime_seconds total_mem_kb = ok []

  unfoldable pub average_rounds :
      Os
      → SyStats
      → (ℤ → Bool)
      → List (ℤ × ProcStat)
      → F
      → ℕ
      → List ℤ
      → List (ProcCandidate fl)
      → Outcome (List (ProcCandidate fl))
  unfolding average_round candidate_of stat_for
  average_rounds os systats ctx_done stats uptime total [] candidates = ok candidates
  average_rounds os systats ctx_done stats uptime total (pid ∷ pids) candidates =
      elim (ctx_done pid) [
        | true ↦ fail cancelled
        | false ↦ average_round os systats pid (stat_for pid stats) uptime total >>= λ cs.
            average_rounds os systats ctx_done stats uptime total pids (candidates ++ cs)
      ]

  unfoldable pub collect_candidates_average :
      Os → (ℤ → Bool) → SyStats → List ℤ → ℕ → Outcome (List (ProcCandidate fl))
  unfolding average_rounds sample_proc_stats
  collect_candidates_average os ctx_done systats pids total_mem_kb = do
    uptime_seconds ← system_uptime_seconds fl os systats.uptime_path
    stats ← sample_proc_stats os systats.proc_path pids
    average_rounds os systats ctx_done stats uptime_seconds total_mem_kb pids []

  abbrev kept : Outcome (Process fl) → Outcome (List (Process fl))
  kept (ok p) = ok (p ∷ [])
  kept (fail e) = ok []
  kept (panic p) = panic p

  -- A process that is gone by now is left out.
  unfoldable pub enrich_all : Os → SyStats → List (ProcCandidate fl) → Outcome (List (Process fl))
  unfolding enrich_process
  enrich_all os systats [] = ok []
  enrich_all os systats (c ∷ cs) = do
    p ← kept (
        enrich_process fl os systats
          (bare fl c.pid (resolve_username os c.uid) (narrow c.cpu_usage) (narrow c.mem_usage)))
    ps ← enrich_all os systats cs
    ok (p ++ ps)

  unfoldable pub get_top_processes :
      Os → Os → Bool → (ℤ → Bool) → F → SyStats → ℤ → SortOrder → Outcome (List (Process fl))
  unfolding collect_candidates_instant collect_candidates_average enrich_all validate_sort_by
  get_top_processes os1 os2 done ctx_done elapsed_seconds systats count sort_by = do
    validate_sort_by sort_by
    pids ← list_pids os1 systats.proc_path
    total_mem_kb ← total_memory_kb os1 systats.meminfo_path
    candidates ←
        (if eqb systats.process_cpu_mode cpu_usage_average
          then collect_candidates_average os2 ctx_done systats pids total_mem_kb
          else collect_candidates_instant os1 os2 done ctx_done elapsed_seconds systats pids
              total_mem_kb)
    top ← sort_and_limit fl candidates sort_by count
    enrich_all os2 systats top

  unfoldable pub get_process : Os → Os → Bool → F → SyStats → ℤ → Outcome (Process fl)
  unfolding enrich_process sleep_ctx
  get_process os1 os2 done elapsed_seconds systats pid = do
    total_mem_kb ← total_memory_kb os1 systats.meminfo_path
    cpu_usage ←
        (if eqb systats.process_cpu_mode cpu_usage_average
          then (do
            uptime_seconds ← system_uptime_seconds fl os2 systats.uptime_path
            s ← read_proc_stat os2 systats.proc_path pid
            ok (average_cpu_percent fl (add64 s.utime s.stime) s.starttime uptime_seconds))
          else (do
            s1 ← read_proc_stat os1 systats.proc_path pid
            sleep_ctx done (sample_window systats)
            s2 ← read_proc_stat os2 systats.proc_path pid
            ok (
                instant_cpu_percent fl (add64 s1.utime s1.stime) (add64 s2.utime s2.stime)
                  elapsed_seconds)))
    st ← read_proc_mem_and_uid os2 systats.proc_path pid
    enrich_process fl os2 systats (
        bare fl pid (resolve_username os2 st.uid) (narrow cpu_usage)
          (narrow (mem_percent st.vm_rss_kb total_mem_kb)))
