-- ===== src/Network/Tcp/Totals.antt =====
-- network.go: the counts by state against the socket tables.
use systats.Config.{SyStats}
use systats.Go.Os.{Os}
use systats.Go.Outcome.{ok}
use systats.Network.Tcp.{
  TcpSocketRecord, TcpStates, TcpState, no_states, state_of, add_state, add, tcp_state_name,
  add_all, read_tcp_socket_records, get_tcp_connection_states,
}
use systats.Prelude.Text.{Text, eqb}
use systats.Prelude.{ℕ, ◌+◌, ◌≡◌, refl, List, [], ◌∷◌, arith, length, if◌then◌else◌}

-- The field that counts a state.
abbrev pub count : TcpState → TcpStates → ℕ
count TcpState.established t = t.established
count TcpState.syn_sent t = t.syn_sent
count TcpState.syn_recv t = t.syn_recv
count TcpState.fin_wait1 t = t.fin_wait1
count TcpState.fin_wait2 t = t.fin_wait2
count TcpState.time_wait t = t.time_wait
count TcpState.close t = t.close
count TcpState.close_wait t = t.close_wait
count TcpState.last_ack t = t.last_ack
count TcpState.listen t = t.listen
count TcpState.closing t = t.closing
count TcpState.new_syn_recv t = t.new_syn_recv
count TcpState.unknown t = t.unknown

-- How many sockets have a state of that name.
abbrev pub tally : Text → List TcpSocketRecord → ℕ
tally name [] = 0
tally name (r ∷ rest) = (if eqb (tcp_state_name r.state) name then 1 else 0) + tally name rest

total-add_state : (s : TcpState) (t : TcpStates) → (add_state s t).total ≡ t.total
unfolding add_state
total-add_state TcpState.established t = refl
total-add_state _ t = refl

-- The sum of all thirteen counts.
abbrev pub sum : TcpStates → ℕ
sum t =
    t.established + t.syn_sent + t.syn_recv + t.fin_wait1 + t.fin_wait2 + t.time_wait + t.close
    + t.close_wait + t.last_ack + t.listen + t.closing + t.new_syn_recv + t.unknown

sum-add_state : (s : TcpState) (t : TcpStates) → sum (add_state s t) ≡ sum t + 1
unfolding add_state
sum-add_state TcpState.established t = omega arith
sum-add_state _ t = omega arith

sum-add :
    (state_hex : Text) (t : TcpStates)
    → (sum (add state_hex t) ≡ sum t + 1) × ((add state_hex t).total ≡ t.total + 1)
unfolding add
sum-add state_hex t = (
  sum-add_state (state_of state_hex) (record t { total = t.total + 1 }),
  total-add_state (state_of state_hex) (record t { total = t.total + 1 }),
)

sum-add_all :
    (rs : List TcpSocketRecord) (t : TcpStates)
    → (sum (add_all rs t) ≡ sum t + length rs) × ((add_all rs t).total ≡ t.total + length rs)
unfolding add_all
sum-add_all [] t = omega arith
sum-add_all (r ∷ rest) t =
    let (s, n) = sum-add_all rest (add r.state t) in
    let (s', n') = sum-add r.state t in (omega arith, omega arith)

-- The thirteen counts add up to Total, which is the number of sockets in both tables.
pub get_tcp_connection_states-sum :
    (os : Os) (systats : SyStats)
    → (t : TcpStates) × (get_tcp_connection_states os systats ≡ ok t)
      × (sum t ≡ t.total)
      × (t.total ≡ length (read_tcp_socket_records os systats))
unfolding get_tcp_connection_states
get_tcp_connection_states-sum os systats =
    let rs = read_tcp_socket_records os systats in
    let (s, n) = sum-add_all rs (no_states os.now) in
    (add_all rs (no_states os.now), refl, omega arith, omega arith)
