-- ===== src/Dashboard/Schedule.antt =====
-- example/collect.go: the order in which the goroutines of collect end.
mod Problems
mod State
use mathlib.Core.Path.{ap₂}
use mathlib.Core.Path.{fun_ext}
use systats.Dashboard.Collect.{sort_problems, finish, collect_ended}
use systats.Dashboard.Readers.{Readings, Shared, nothing_yet, report, run_task, run_tasks}
use systats.Dashboard.Build.{
  build_host_panel, build_cpu_panel, build_memory_panel, build_swap_panel,
}
use systats.Dashboard.Panels.{Problem, Dashboard}
use systats.Dashboard.Render.{Print}
use systats.Dashboard.Rows.{
  build_pressure_panel, build_tcp_panel, build_temp_panels, build_process_rows,
}
use systats.Dashboard.Samples.{build_disk_panels}
use systats.Dashboard.Sort.{insert_by, sort_by}
use systats.Dashboard.Task.{
  Task, name_of, same, same-eq, in_list, AreDistinct, by_name, AreAscending, by_name-AreAscending,
  by_name-AreDistinct, in_list-by_name, in_list-cons,
}
use systats.Config.{SizeUnit}
use systats.Go.Float.{Float64}
use systats.Go.Outcome.{Outcome, ok, fail, panic, Error}
use systats.Prelude.Int.{ℤ}
use systats.Prelude.Text.{Text, text_ltb, text_ltb_asym}
use systats.Prelude.{
  ◌≡◌, refl, sym, ap, ◌∙◌, subst, Bool, true, false, ◌||◌, Option, none, some, List, [], ◌∷◌, ◌++◌,
  append-nil, append_assoc, arith, All, if◌then◌else◌, Bool-cases, inl, inr, ◌⊎◌,
}
use systats.Dashboard.Schedule.Problems.{Ended, mark_all, problems_of, canon, sort_problems_of}
use systats.Dashboard.Schedule.State.{state_of, run_from_nothing, all_ended}

module _ (fl : Float64) (pr : Print fl) (unit : SizeUnit) (r : Readings fl) where
  abbrev ended_as : Text → ℤ → Ended → List Problem → Dashboard fl
  ended_as generated_at elapsed e problems =
      record (finish fl pr generated_at elapsed (state_of fl pr unit r e [])) {
        problems = problems;
      }

  finish-problems :
      (generated_at : Text) (elapsed : ℤ) (e : Ended) (problems : List Problem)
      → finish fl pr generated_at elapsed (state_of fl pr unit r e problems)
        ≡ ended_as generated_at elapsed e (sort_problems fl problems)
  unfolding finish
  finish-problems generated_at elapsed e problems = refl

  -- The page in terms of what has been read alone.
  collect_ended_lem :
      (generated_at : Text) (elapsed : ℤ) (tasks : List Task)
      → AreDistinct tasks
      → ((q : Task) → in_list tasks q ≡ true)
      → collect_ended fl pr unit r generated_at elapsed tasks
        ≡ ended_as generated_at elapsed (λ task. true) (canon fl r (λ task. true) by_name)
  unfolding collect_ended
  collect_ended_lem generated_at elapsed tasks d h =
      let all : in_list tasks ≡ (λ task. true) = fun_ext h in
      ap (finish fl pr generated_at elapsed) (run_from_nothing fl pr unit r tasks)
      ∙ finish-problems generated_at elapsed (mark_all tasks (λ task. false))
          (problems_of fl r tasks)
      ∙ ap₂ (ended_as generated_at elapsed) (all_ended tasks h)
          (sort_problems_of fl r tasks d ∙ ap (λ e. canon fl r e by_name) all)

  -- Whatever the calls return, the page does not depend on the order in which the goroutines end:
  -- any two orders in which each of the fourteen ends once give the same page, problems included.
  pub collect_ended-order :
      (generated_at : Text) (elapsed : ℤ) (first second : List Task)
      → AreDistinct first
      → AreDistinct second
      → ((q : Task) → in_list first q ≡ true)
      → ((q : Task) → in_list second q ≡ true)
      → collect_ended fl pr unit r generated_at elapsed first
        ≡ collect_ended fl pr unit r generated_at elapsed second
  collect_ended-order generated_at elapsed first second d d' h h' =
      collect_ended_lem generated_at elapsed first d h
      ∙ sym (collect_ended_lem generated_at elapsed second d' h')
