-- ===== src/Exec.antt =====
-- exec/exec.go: subprocesses. The operating system starts them, so what a command prints is a
-- parameter.
pub mod Bounds
use systats.Prelude.Int.{ℤ, pos, ltb_ℤ}
use systats.Prelude.Text.{Text, codes}
use systats.Prelude.{◌*◌, ◌^◌, Option, none, some, List, [], ◌∷◌, ◌++◌, if◌then◌else◌}
use systats.Go.Outcome.{Error}

-- context.Context: the time that is left to its deadline, in nanoseconds, and what Err() says once
-- the calls that it bounds are over.
pub record Context : Type 0 where
  pub deadline : Option ℤ
  pub err : Option Error

abbrev pub background : Context
background = record { deadline = none; err = none }

-- exec.Cmd, as far as it is set
pub record Command : Type 0 where
  pub name : Text
  pub args : List Text
  pub env : List Text
  pub deadline : Option ℤ

-- os.Environ(), and what cmd.Output() returns: the standard output and the text of the error.
pub record Shell : Type 0 where
  pub environ : List Text
  pub output : Command → Text × Option Text

abbrev pub default_exec_timeout : ℤ
default_exec_timeout = pos (5 * 10 ^ 9)

-- context.WithTimeout: an earlier deadline of the parent stays.
unfoldable pub with_timeout : Option ℤ → ℤ → ℤ
with_timeout none timeout = timeout
with_timeout (some left) timeout = if ltb_ℤ left timeout then left else timeout

unfoldable pub with_locale : List Text → List Text
with_locale environ = environ ++ (codes "LC_ALL=C" ∷ [])

unfoldable pub run : Shell → Context → Text → List Text → Text × Option Text
unfolding with_timeout with_locale
run shell ctx name args = shell.output (record {
  name = name;
  args = args;
  env = with_locale shell.environ;
  deadline = some (with_timeout ctx.deadline default_exec_timeout);
})

abbrev output_or_error : Text × Option Text → Text
output_or_error (stdout, none) = stdout
output_or_error (stdout, some message) = message

unfoldable pub execute_with_context : Shell → Context → Text → List Text → Text
unfolding run
execute_with_context shell ctx command params = output_or_error (run shell ctx command params)

unfoldable pub execute : Shell → Text → List Text → Text
unfolding execute_with_context
execute shell command params = execute_with_context shell background command params

unfoldable pub execute_with_pipe_and_context : Shell → Context → Text → Text
unfolding run
execute_with_pipe_and_context shell ctx command =
    output_or_error (run shell ctx (codes "bash") (codes "-c" ∷ command ∷ []))

unfoldable pub execute_with_pipe : Shell → Text → Text
unfolding execute_with_pipe_and_context
execute_with_pipe shell command = execute_with_pipe_and_context shell background command

unfoldable pub execute_with_error_and_context :
    Shell → Context → Text → List Text → Text × Option Text
unfolding run
execute_with_error_and_context shell ctx command params = run shell ctx command params

unfoldable pub execute_with_error : Shell → Text → List Text → Text × Option Text
unfolding execute_with_error_and_context
execute_with_error shell command params =
    execute_with_error_and_context shell background command params

unfoldable pub execute_with_pipe_and_error_and_context : Shell → Context → Text → Text × Option Text
unfolding run
execute_with_pipe_and_error_and_context shell ctx command =
    run shell ctx (codes "bash") (codes "-c" ∷ command ∷ [])

unfoldable pub execute_with_pipe_and_error : Shell → Text → Text × Option Text
unfolding execute_with_pipe_and_error_and_context
execute_with_pipe_and_error shell command =
    execute_with_pipe_and_error_and_context shell background command
