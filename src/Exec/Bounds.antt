-- ===== src/Exec/Bounds.antt =====
-- exec/exec.go: the time and the locale that a subprocess is given.
use systats.Exec.{
  Context, Command, Shell, default_exec_timeout, with_timeout, with_locale, run,
  execute_with_context, execute_with_pipe_and_context, execute_with_error_and_context,
  execute_with_pipe_and_error_and_context,
}
use systats.Prelude.Int.{ℤ, pos, ◌≤ℤ◌}
use systats.Prelude.Text.{Text, codes}
use systats.Prelude.{◌*◌, ◌^◌, ◌≡◌, ◌⊎◌, refl, Option, none, some, List, [], ◌∷◌, ◌++◌, arith}

abbrev pub five_seconds : ℤ
five_seconds = pos (5 * 10 ^ 9)

-- Five seconds, in nanoseconds, or what is left to the caller's deadline where that is less.
abbrev pub IsStopTime : Option ℤ → ℤ → Type 0
IsStopTime none time = time ≡ five_seconds
IsStopTime (some left) time =
    ((left ≤ℤ five_seconds) × (time ≡ left)) ⊎ ((five_seconds ≤ℤ left) × (time ≡ five_seconds))

-- A command that is stopped after five seconds, or at the caller's deadline where that is earlier,
-- and whose environment ends with the C locale.
pub record IsBounded (environ : List Text) (deadline : Option ℤ) (c : Command) : Type 0 where
  pub time : ℤ
  pub stopped_at : c.deadline ≡ some time
  pub time_lem : IsStopTime deadline time
  pub locale : c.env ≡ environ ++ (codes "LC_ALL=C" ∷ [])

with_timeout-IsStopTime :
    (deadline : Option ℤ) → IsStopTime deadline (with_timeout deadline default_exec_timeout)
unfolding with_timeout
with_timeout-IsStopTime none = refl
with_timeout-IsStopTime (some left) = ground arith

module _ (s t : Shell) (ctx : Context) (environ : List Text) (of_s : s.environ ≡ environ)
    (of_t : t.environ ≡ environ)
    (agree : (c : Command) → IsBounded environ ctx.deadline c → s.output c ≡ t.output c) where
  run-bounded : (name : Text) (args : List Text) → run s ctx name args ≡ run t ctx name args
  unfolding run with_locale
  run-bounded name args =
      rw (of_s, of_t)
        (agree _ (record {
          time = with_timeout ctx.deadline default_exec_timeout;
          stopped_at = refl;
          time_lem = with_timeout-IsStopTime ctx.deadline;
          locale = refl;
        }))

  -- Where two systems have the same environment, and answer alike the commands that are stopped
  -- after five seconds or at the caller's earlier deadline, with the C locale last in their
  -- environment, the four calls that take a context give the same on both: no other command is
  -- started.
  pub execute-bounded :
      (command : Text) (params : List Text)
      → (execute_with_context s ctx command params ≡ execute_with_context t ctx command params)
        × (execute_with_error_and_context s ctx command params
            ≡ execute_with_error_and_context t ctx command params)
        × (execute_with_pipe_and_context s ctx command
            ≡ execute_with_pipe_and_context t ctx command)
        × (execute_with_pipe_and_error_and_context s ctx command
            ≡ execute_with_pipe_and_error_and_context t ctx command)
  unfolding execute_with_context execute_with_error_and_context execute_with_pipe_and_context
      execute_with_pipe_and_error_and_context
  execute-bounded command params =
      let direct = run-bounded command params in
      let piped = run-bounded (codes "bash") (codes "-c" ∷ command ∷ []) in
      (rw direct, direct, rw piped, piped)
