-- ===== src/Service.antt =====
-- service.go: whether a service is active.
pub mod Verdict
use systats.Exec.{Context, Shell, execute_with_error_and_context}
use systats.Go.Outcome.{Error, undetermined}
use systats.Go.Strings.{contains, trim_space}
use systats.Prelude.Text.{Text, codes, eqb}
use systats.Prelude.{Bool, true, false, not, Option, none, some, List, [], ◌∷◌, if◌then◌else◌}

-- serviceActiveRe: a text that has no special character stands for itself.
abbrev service_active_re : Text → Bool
unfolding contains
service_active_re output = contains output (codes "Active: active")

-- What is said where neither tool said anything: the context's error, or both tools'.
abbrev no_verdict : Option Error → Text → Text → Text → Bool × Option Error
no_verdict (some e) service err fallback_err = (false, some e)
no_verdict none service err fallback_err = (false, some (undetermined service err fallback_err))

-- The answer of service(8), which is asked where systemctl failed with `err`.
unfoldable pub fallback_verdict : Context → Text → Text → Text × Option Text → Bool × Option Error
unfolding service_active_re trim_space eqb
fallback_verdict ctx service err (fallback, fallback_err) =
    if not (eqb (trim_space fallback) [])
    then (service_active_re fallback, none)
    else elim fallback_err [
      | none ↦ (false, none)
      | some message ↦ no_verdict ctx.err service err message
    ]

-- The answer of systemctl, and what service(8) would say.
unfoldable pub systemctl_verdict :
    Context → Text → Text × Option Text → Text × Option Text → Bool × Option Error
unfolding fallback_verdict trim_space eqb
systemctl_verdict ctx service (output, err) fallback =
    let trimmed = trim_space output in
    if not (eqb trimmed []) then (eqb trimmed (codes "active"), none) else elim err [
      | none ↦ (false, none)
      | some message ↦ fallback_verdict ctx service message fallback
    ]

unfoldable pub is_service_running : Shell → Context → Text → Bool × Option Error
unfolding systemctl_verdict execute_with_error_and_context
is_service_running shell ctx service =
    systemctl_verdict ctx service
      (execute_with_error_and_context shell ctx (codes "systemctl")
        (codes "is-active" ∷ service ∷ []))
      (execute_with_error_and_context shell ctx (codes "service") (service ∷ codes "status" ∷ []))
