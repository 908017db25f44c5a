-- ===== src/Network/Tcp.antt =====
-- The socket tables /proc/net/tcp and /proc/net/tcp6, and the count of sockets by state.
pub mod Totals
use systats.Config.{SyStats}
use systats.Fileops.{read_file_with_error}
use systats.Go.Os.{Os, DirEntry}
use systats.Go.Outcome.{Outcome, ok}
use systats.Go.Strings.{fields, lines, to_upper}
use systats.Prelude.Text.{Text, codes, eqb}
use systats.Prelude.{
  ℕ, ◌+◌, Bool, true, false, ltb, Option, none, some, List, [], ◌∷◌, ◌++◌, if◌then◌else◌, length,
  get_elem?,
}

pub record TcpSocketRecord : Type 0 where
  pub state : Text
  pub inode : Text

-- Columns 3 and 9 of a line with at least ten.
unfoldable pub socket_line : List Text → List TcpSocketRecord
socket_line (c0 ∷ c1 ∷ c2 ∷ c3 ∷ c4 ∷ c5 ∷ c6 ∷ c7 ∷ c8 ∷ c9 ∷ rest) =
    record { state = c3; inode = c9 } ∷ []
socket_line _ = []

unfoldable pub socket_lines : List Text → List TcpSocketRecord → List TcpSocketRecord
unfolding socket_line
socket_lines [] out = out
socket_lines (line ∷ rest) out = socket_lines rest (out ++ socket_line (fields line))

abbrev behind_header : List Text → List Text
behind_header [] = []
behind_header (header ∷ rest) = rest

unfoldable pub parse_proc_net_tcp : Text → List TcpSocketRecord
unfolding socket_lines fields lines
parse_proc_net_tcp content = socket_lines (behind_header (lines content)) []

socket_files : Os → List Text → List TcpSocketRecord → List TcpSocketRecord
socket_files os [] records = records
socket_files os (path ∷ paths) records =
    socket_files os paths (elim (read_file_with_error os path) [
      | ok content ↦ records ++ parse_proc_net_tcp content
      | _ ↦ records
    ])

unfoldable pub read_tcp_socket_records : Os → SyStats → List TcpSocketRecord
unfolding socket_files parse_proc_net_tcp
read_tcp_socket_records os systats =
    socket_files os (systats.net_tcp_path ∷ systats.net_tcp6_path ∷ []) []

pub record TcpStates : Type 0 where
  pub established : ℕ
  pub syn_sent : ℕ
  pub syn_recv : ℕ
  pub fin_wait1 : ℕ
  pub fin_wait2 : ℕ
  pub time_wait : ℕ
  pub close : ℕ
  pub close_wait : ℕ
  pub last_ack : ℕ
  pub listen : ℕ
  pub closing : ℕ
  pub new_syn_recv : ℕ
  pub unknown : ℕ
  pub total : ℕ
  pub time : ℕ

abbrev pub no_states : ℕ → TcpStates
no_states now = record {
  established = 0;
  syn_sent = 0;
  syn_recv = 0;
  fin_wait1 = 0;
  fin_wait2 = 0;
  time_wait = 0;
  close = 0;
  close_wait = 0;
  last_ack = 0;
  listen = 0;
  closing = 0;
  new_syn_recv = 0;
  unknown = 0;
  total = 0;
  time = now;
}

-- The kernel's states, and one for a byte that is none of them.
pub data TcpState : Type 0 where
  established syn_sent syn_recv fin_wait1 fin_wait2 time_wait close close_wait : TcpState
  last_ack listen closing new_syn_recv unknown : TcpState

-- The case of the two switches that a state byte takes.
unfoldable pub state_of : Text → TcpState
unfolding to_upper eqb
state_of state_hex =
    let s = to_upper state_hex in
    if eqb s (codes "01")
    then TcpState.established
    else if eqb s (codes "02")
    then TcpState.syn_sent
    else if eqb s (codes "03")
    then TcpState.syn_recv
    else if eqb s (codes "04")
    then TcpState.fin_wait1
    else if eqb s (codes "05")
    then TcpState.fin_wait2
    else if eqb s (codes "06")
    then TcpState.time_wait
    else if eqb s (codes "07")
    then TcpState.close
    else if eqb s (codes "08")
    then TcpState.close_wait
    else if eqb s (codes "09")
    then TcpState.last_ack
    else if eqb s (codes "0A")
    then TcpState.listen
    else if eqb s (codes "0B")
    then TcpState.closing
    else if eqb s (codes "0C")
    then TcpState.new_syn_recv
    else TcpState.unknown

unfoldable pub add_state : TcpState → TcpStates → TcpStates
add_state TcpState.established t = record t { established = t.established + 1 }
add_state TcpState.syn_sent t = record t { syn_sent = t.syn_sent + 1 }
add_state TcpState.syn_recv t = record t { syn_recv = t.syn_recv + 1 }
add_state TcpState.fin_wait1 t = record t { fin_wait1 = t.fin_wait1 + 1 }
add_state TcpState.fin_wait2 t = record t { fin_wait2 = t.fin_wait2 + 1 }
add_state TcpState.time_wait t = record t { time_wait = t.time_wait + 1 }
add_state TcpState.close t = record t { close = t.close + 1 }
add_state TcpState.close_wait t = record t { close_wait = t.close_wait + 1 }
add_state TcpState.last_ack t = record t { last_ack = t.last_ack + 1 }
add_state TcpState.listen t = record t { listen = t.listen + 1 }
add_state TcpState.closing t = record t { closing = t.closing + 1 }
add_state TcpState.new_syn_recv t = record t { new_syn_recv = t.new_syn_recv + 1 }
add_state TcpState.unknown t = record t { unknown = t.unknown + 1 }

unfoldable pub add : Text → TcpStates → TcpStates
unfolding add_state state_of
add state_hex t = add_state (state_of state_hex) (record t { total = t.total + 1 })

unfoldable pub name_of : TcpState → Text
name_of TcpState.established = codes "ESTABLISHED"
name_of TcpState.syn_sent = codes "SYN_SENT"
name_of TcpState.syn_recv = codes "SYN_RECV"
name_of TcpState.fin_wait1 = codes "FIN_WAIT1"
name_of TcpState.fin_wait2 = codes "FIN_WAIT2"
name_of TcpState.time_wait = codes "TIME_WAIT"
name_of TcpState.close = codes "CLOSE"
name_of TcpState.close_wait = codes "CLOSE_WAIT"
name_of TcpState.last_ack = codes "LAST_ACK"
name_of TcpState.listen = codes "LISTEN"
name_of TcpState.closing = codes "CLOSING"
name_of TcpState.new_syn_recv = codes "NEW_SYN_RECV"
name_of TcpState.unknown = codes "UNKNOWN"

unfoldable pub tcp_state_name : Text → Text
unfolding name_of state_of
tcp_state_name state_hex = name_of (state_of state_hex)

unfoldable pub add_all : List TcpSocketRecord → TcpStates → TcpStates
add_all [] t = t
add_all (r ∷ rest) t = add_all rest (add r.state t)

unfoldable pub get_tcp_connection_states : Os → SyStats → Outcome TcpStates
unfolding read_tcp_socket_records add_all add
get_tcp_connection_states os systats =
    ok (add_all (read_tcp_socket_records os systats) (no_states os.now))
