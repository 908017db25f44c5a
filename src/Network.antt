-- ===== src/Network.antt =====
-- network.go: interfaces and their counters, and TCP sockets by state and by process.
pub mod Probe
pub mod Tcp
pub mod Sockets
use systats.Config.{SyStats}
use systats.Fileops.{read_file_with_error}
use systats.Go.Os.{Os}
use systats.Go.Outcome.{Outcome, ok, fail, Error, ◌>>=◌}
use systats.Go.Paths
use systats.Go.Strconv.{parse_uint, uint_value}
use systats.Go.Strings.{trim_space}
use systats.Prelude.Text.{Text, codes, eqb}
use systats.Prelude.{
  ℕ, Bool, true, false, not, ◌&&◌, Option, none, some, List, [], ◌∷◌, ◌++◌, if◌then◌else◌,
}

-- A net.Addr: whether it is a *net.IPNet, whether its To4 is not nil, whether it is link-local, and
-- its text.
pub record Addr : Type 0 where
  pub is_ip_net : Bool
  pub is_v4 : Bool
  pub is_link_local : Bool
  pub text : Text

-- A net.Interface; `addrs` is none where Addrs returns an error.
pub record Iface : Type 0 where
  pub name : Text
  pub addrs : Outcome (List Addr)
  pub is_loopback : Bool
  pub hardware_addr : Text

pub record NetworkUsage : Type 0 where
  pub state : Text
  pub rx_bytes : ℕ
  pub tx_bytes : ℕ
  pub rx_packets : ℕ
  pub tx_packets : ℕ

pub record Network : Type 0 where
  pub interface : Text
  pub ip : Text
  pub ipv6 : Text
  pub mac_address : Text
  pub usage : NetworkUsage
  pub time : ℕ

abbrev same : Bool → Bool → Bool
same true b = b
same false b = not b

unfoldable pub pick_from : List Addr → Bool → Text → Text
unfolding eqb
pick_from [] want_v4 fallback = fallback
pick_from (a ∷ rest) want_v4 fallback = elim (a.is_ip_net && same a.is_v4 want_v4) [
  | false ↦ pick_from rest want_v4 fallback
  | true ↦ elim (a.is_link_local) [
    | false ↦ a.text
    | true ↦ pick_from rest want_v4 (if eqb fallback [] then a.text else fallback)
  ]
]

unfoldable pub pick_ip : List Addr → Bool → Text
unfolding pick_from
pick_ip addrs want_v4 = pick_from addrs want_v4 []

unfoldable pub read_as_uint64 : Os → Text → ℕ
unfolding parse_uint uint_value
read_as_uint64 os path = elim (read_file_with_error os path) [
  | ok result ↦ uint_value (parse_uint (trim_space result))
  | _ ↦ 0
]

unfoldable pub read_as_string : Os → Text → Text
unfolding trim_space
read_as_string os path = elim (read_file_with_error os path) [
  | ok result ↦ trim_space result
  | _ ↦ []
]

unfoldable pub get_network_usage : Os → SyStats → Text → NetworkUsage
unfolding read_as_uint64 read_as_string
get_network_usage os systats network_interface =
    let base = Paths.join (systats.sys_class_net_path ∷ network_interface ∷ []) in
    let statistic =
      λ (name : Text). read_as_uint64 os (Paths.join (base ∷ codes "statistics" ∷ name ∷ [])) in
    record {
      state = read_as_string os (Paths.join (base ∷ codes "operstate" ∷ []));
      rx_bytes = statistic (codes "rx_bytes");
      tx_bytes = statistic (codes "tx_bytes");
      rx_packets = statistic (codes "rx_packets");
      tx_packets = statistic (codes "tx_packets");
    }

unfoldable pub networks_of : Os → SyStats → List Iface → List Network → Outcome (List Network)
unfolding get_network_usage pick_ip
networks_of os systats [] output = ok output
networks_of os systats (iface ∷ rest) output = do
  addrs ← iface.addrs
  networks_of os systats rest (
      if iface.is_loopback
      then output
      else output
        ++ record {
          interface = iface.name;
          ip = pick_ip addrs true;
          ipv6 = pick_ip addrs false;
          mac_address = iface.hardware_addr;
          usage = get_network_usage os systats iface.name;
          time = os.now;
        }
          ∷ [])

-- The argument is what net.Interfaces returns.
unfoldable pub get_networks : Os → SyStats → Outcome (List Iface) → Outcome (List Network)
unfolding networks_of
get_networks os systats interfaces = do ifaces ← interfaces; networks_of os systats ifaces []
