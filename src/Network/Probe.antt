-- ===== src/Network/Probe.antt =====
-- network.go: port and URL checks. Dialing and the HTTP request are parameters.
use systats.Exec.{Context, with_timeout}
use systats.Go.Outcome.{Outcome, ok, ◌>>=◌}
use systats.Go.Strconv.{itoa}
use systats.Prelude.Int.{ℤ, pos}
use systats.Prelude.Text.{Text, codes}
use systats.Prelude.{◌*◌, ◌^◌, Bool, true, false, Option, ◌++◌}

-- What the network answers within a time, if that is bounded: net.Dialer.DialContext,
-- http.NewRequestWithContext and the sending of the request.
pub record Net : Type 0 where
  pub dial : Option ℤ → Text → Outcome (Unit {0})
  pub new_request : Text → Outcome (Unit {0})
  pub send : ℤ → Text → Outcome (Unit {0})

abbrev is_ok : Outcome (Unit {0}) → Bool
is_ok (ok u) = true
is_ok _ = false

unfoldable pub is_port_open : Net → Context → ℤ → Bool
unfolding itoa
is_port_open net ctx port = is_ok (net.dial ctx.deadline (codes "localhost:" ++ itoa port))

abbrev http_timeout : ℤ
http_timeout = pos (10 * 10 ^ 9)

unfoldable pub can_connect : Net → Context → Text → Outcome Bool
unfolding with_timeout
can_connect net ctx url = do
  request ← net.new_request url
  response ← net.send (with_timeout ctx.deadline http_timeout) url
  ok true
