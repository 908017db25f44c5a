-- ===== src/Dashboard/Schedule/State.antt =====
-- example/collect.go: what the goroutines of collect have written when some have ended.
use mathlib.Core.Path.{fun_ext}
use systats.Dashboard.Readers.{Readings, Shared, nothing_yet, report, run_task, run_tasks}
use systats.Dashboard.Build.{
  build_host_panel, build_cpu_panel, build_memory_panel, build_swap_panel,
}
use systats.Dashboard.Panels.{Problem}
use systats.Dashboard.Render.{Print}
use systats.Dashboard.Rows.{
  build_pressure_panel, build_tcp_panel, build_temp_panels, build_process_rows,
}
use systats.Dashboard.Samples.{build_disk_panels}
use systats.Dashboard.Task.{Task, name_of, in_list}
use systats.Config.{SizeUnit}
use systats.Go.Float.{Float64}
use systats.Go.Outcome.{Outcome, ok, fail, panic}
use systats.Prelude.{
  ◌≡◌, refl, sym, ap, ◌∙◌, Bool, true, false, Option, none, some, List, [], ◌∷◌, ◌++◌, append-nil,
  append_assoc, arith, if◌then◌else◌, Bool-cases, inl, inr,
}
use systats.Dashboard.Schedule.Problems.{Ended, mark, mark_all, problem_of, problem, problems_of}

-- The figure of a task that has ended and did not fail.
abbrev pub got : {A : Type 0} → Bool → Outcome A → Option A
got ended (ok a) = if ended then some a else none
got ended (fail e) = none
got ended (panic p) = none

abbrev pub shown : {A B : Type 0} → (A → B) → Option A → Option B
shown f none = none
shown f (some a) = some (f a)

mark_all_keeps : (tasks : List Task) (e : Ended) (q : Task) → e q ≡ true → mark_all tasks e q ≡ true
mark_all_keeps [] e q h = h
mark_all_keeps (task ∷ tasks) e q h = mark_all_keeps tasks (mark task e) q (ground arith)

pub mark_all-in_list :
    (tasks : List Task) (e : Ended) (q : Task) → in_list tasks q ≡ true → mark_all tasks e q ≡ true
mark_all-in_list [] e q i = cc
mark_all-in_list (task ∷ tasks) e q i = elim (Bool-cases (in_list tasks q)) [
  | inl y ↦ mark_all-in_list tasks (mark task e) q y
  | inr n ↦ mark_all_keeps tasks (mark task e) q (ground arith)
]

-- The state when all have ended.
pub all_ended :
    (tasks : List Task)
    → ((q : Task) → in_list tasks q ≡ true)
    → mark_all tasks (λ task. false) ≡ (λ task. true)
all_ended tasks h = fun_ext (λ q. mark_all-in_list tasks (λ task. false) q (h q))

module _ (fl : Float64) (pr : Print fl) (unit : SizeUnit) (r : Readings fl) where
  -- What is shared when certain tasks have ended.
  abbrev pub state_of : Ended → List Problem → Shared fl
  state_of e problems = record {
    host = shown (build_host_panel fl) (got (e Task.system) r.system);
    cpu = shown (build_cpu_panel fl pr) (got (e Task.cpu) r.cpu);
    host_cpu = got (e Task.cpu) r.cpu;
    memory = shown (build_memory_panel fl pr) (got (e Task.memory) r.memory);
    host_mem = got (e Task.memory) r.memory;
    swap = shown (build_swap_panel fl pr) (got (e Task.swap) r.swap);
    pressure = shown (build_pressure_panel fl pr) (got (e Task.pressure) r.pressure);
    disks = shown (λ a. build_disk_panels fl pr a unit) (got (e Task.disks) r.disks);
    disk_io = got (e Task.disk_io) r.disk_io;
    networks = got (e Task.networks) r.networks;
    tcp = shown (build_tcp_panel fl pr) (got (e Task.tcp) r.tcp);
    temps = shown (build_temp_panels fl pr) (got (e Task.temps) r.temps);
    processes = shown (build_process_rows fl pr) (got (e Task.processes) r.processes);
    containers = got (e Task.containers) r.containers;
    cg_mem = got (e Task.cg_memory) r.cg_memory;
    cg_cpu = got (e Task.cg_cpu) r.cg_cpu;
    problems = problems;
  }

  -- A goroutine on a state of which it writes only its own part.
  report_lem :
      {A : Type 0} (task : Task) (o : Outcome A) (ended : Bool)
      (store : Option A → List Problem → Shared fl) (ps : List Problem)
      → ((x : Option A) (qs : List Problem)
          → record (store x ps) { problems = (store x ps).problems ++ qs } ≡ store x (ps ++ qs))
      → report fl task o (λ a. store (some a) ps) (store (got ended o) ps)
        ≡ store (got true o) (ps ++ problem_of task o)
  report_lem task (ok a) ended store ps h = ap (store (some a)) (sym (append-nil ps))
  report_lem task (fail e) ended store ps h = h none (record { panel = name_of task; err = e } ∷ [])
  report_lem task (panic p) ended store ps h = ap (store none) (sym (append-nil ps))

  run_one :
      (task : Task) (e : Ended) (ps : List Problem)
      → run_task fl pr unit r task (state_of e ps)
        ≡ state_of (mark task e) (ps ++ problem fl r task)
  unfolding run_task
  run_one Task.system e ps =
      report_lem Task.system r.system (e Task.system)
        (λ x qs. record (state_of e qs) { host = shown (build_host_panel fl) x }) ps (λ x qs. refl)
  run_one Task.cpu e ps =
      report_lem Task.cpu r.cpu (e Task.cpu)
        (λ x qs. record (state_of e qs) { cpu = shown (build_cpu_panel fl pr) x; host_cpu = x }) ps
        (λ x qs. refl)
  run_one Task.memory e ps =
      report_lem Task.memory r.memory (e Task.memory)
        (λ x qs. record (state_of e qs) {
          memory = shown (build_memory_panel fl pr) x;
          host_mem = x;
        })
        ps (λ x qs. refl)
  run_one Task.swap e ps =
      report_lem Task.swap r.swap (e Task.swap)
        (λ x qs. record (state_of e qs) { swap = shown (build_swap_panel fl pr) x }) ps
        (λ x qs. refl)
  run_one Task.pressure e ps =
      report_lem Task.pressure r.pressure (e Task.pressure)
        (λ x qs. record (state_of e qs) { pressure = shown (build_pressure_panel fl pr) x }) ps
        (λ x qs. refl)
  run_one Task.disks e ps =
      report_lem Task.disks r.disks (e Task.disks)
        (λ x qs. record (state_of e qs) { disks = shown (λ a. build_disk_panels fl pr a unit) x })
        ps (λ x qs. refl)
  run_one Task.disk_io e ps =
      report_lem Task.disk_io r.disk_io (e Task.disk_io)
        (λ x qs. record (state_of e qs) { disk_io = x }) ps (λ x qs. refl)
  run_one Task.networks e ps =
      report_lem Task.networks r.networks (e Task.networks)
        (λ x qs. record (state_of e qs) { networks = x }) ps (λ x qs. refl)
  run_one Task.tcp e ps =
      report_lem Task.tcp r.tcp (e Task.tcp)
        (λ x qs. record (state_of e qs) { tcp = shown (build_tcp_panel fl pr) x }) ps (λ x qs. refl)
  run_one Task.temps e ps =
      report_lem Task.temps r.temps (e Task.temps)
        (λ x qs. record (state_of e qs) { temps = shown (build_temp_panels fl pr) x }) ps
        (λ x qs. refl)
  run_one Task.processes e ps =
      report_lem Task.processes r.processes (e Task.processes)
        (λ x qs. record (state_of e qs) { processes = shown (build_process_rows fl pr) x }) ps
        (λ x qs. refl)
  run_one Task.containers e ps =
      report_lem Task.containers r.containers (e Task.containers)
        (λ x qs. record (state_of e qs) { containers = x }) ps (λ x qs. refl)
  run_one Task.cg_memory e ps =
      report_lem Task.cg_memory r.cg_memory (e Task.cg_memory)
        (λ x qs. record (state_of e qs) { cg_mem = x }) ps (λ x qs. refl)
  run_one Task.cg_cpu e ps =
      report_lem Task.cg_cpu r.cg_cpu (e Task.cg_cpu)
        (λ x qs. record (state_of e qs) { cg_cpu = x }) ps (λ x qs. refl)

  run_all :
      (tasks : List Task) (e : Ended) (ps : List Problem)
      → run_tasks fl pr unit r tasks (state_of e ps)
        ≡ state_of (mark_all tasks e) (ps ++ problems_of fl r tasks)
  unfolding run_tasks
  run_all [] e ps = ap (state_of e) (sym (append-nil ps))
  run_all (task ∷ tasks) e ps =
      ap (run_tasks fl pr unit r tasks) (run_one task e ps)
      ∙ run_all tasks (mark task e) (ps ++ problem fl r task)
      ∙ ap (state_of (mark_all tasks (mark task e)))
          (append_assoc ps (problem fl r task) (problems_of fl r tasks))

  got-none : {A : Type 0} (o : Outcome A) → got false o ≡ none
  got-none (ok a) = refl
  got-none (fail e) = refl
  got-none (panic p) = refl

  nothing_yet_lem : state_of (λ task. false) [] ≡ nothing_yet fl
  nothing_yet_lem =
      rw
        (
          got-none r.system,
          got-none r.cpu,
          got-none r.memory,
          got-none r.swap,
          got-none r.pressure,
          got-none r.disks,
          got-none r.disk_io,
          got-none r.networks,
          got-none r.tcp,
          got-none r.temps,
          got-none r.processes,
          got-none r.containers,
          got-none r.cg_memory,
          got-none r.cg_cpu,
        )
        refl

  pub run_from_nothing :
      (tasks : List Task)
      → run_tasks fl pr unit r tasks (nothing_yet fl)
        ≡ state_of (mark_all tasks (λ task. false)) (problems_of fl r tasks)
  run_from_nothing tasks =
      ap (run_tasks fl pr unit r tasks) (sym nothing_yet_lem) ∙ run_all tasks (λ task. false) []
