-- ===== src/Container/Netdev.antt =====
-- container.go: the network counters of a container's namespace.
use systats.Container.Types.{ContainerInterface, ContainerNetwork}
use systats.Fileops.{read_file_with_error}
use systats.Go.Os.{Os}
use systats.Go.Outcome.{ok}
use systats.Go.Paths
use systats.Go.Strconv.{uint_value, parse_uint, itoa}
use systats.Go.Strings.{fields, lines, cut, trim_space}
use systats.Go.Words.{add64}
use systats.Prelude.Int.{ℤ}
use systats.Prelude.Text.{Text, codes, eqb}
use systats.Prelude.{
  ℕ, Bool, true, false, not, ◌&&◌, Option, none, some, List, [], ◌∷◌, ◌++◌, if◌then◌else◌,
}

-- `n(i)`: an error leaves 0, and the maximum where the number is out of range.
abbrev column : Text → ℕ
unfolding parse_uint
column s = uint_value (parse_uint s)

-- The columns behind the name; there are at least 12.
unfoldable pub interface_of : Text → List Text → List ContainerInterface
unfolding column
interface_of name (rb ∷ rp ∷ re ∷ rd ∷ _ ∷ _ ∷ _ ∷ _ ∷ tb ∷ tp ∷ te ∷ td ∷ _) =
    record {
      interface = name;
      rx_bytes = column rb;
      rx_packets = column rp;
      rx_errors = column re;
      rx_dropped = column rd;
      tx_bytes = column tb;
      tx_packets = column tp;
      tx_errors = column te;
      tx_dropped = column td;
    }
    ∷ []
interface_of name _ = []

unfoldable pub net_dev_line : Text → List ContainerInterface
unfolding interface_of cut fields trim_space eqb
net_dev_line line = elim (cut line b':') [
  | none ↦ []
  | some (name, rest) ↦
      if eqb (trim_space name) (codes "lo")
      then []
      else interface_of (trim_space name) (fields rest)
]

unfoldable pub net_dev_lines : List Text → List ContainerInterface
net_dev_lines [] = []
net_dev_lines (line ∷ rest) = net_dev_line line ++ net_dev_lines rest

unfoldable pub parse_net_dev : Text → List ContainerInterface
unfolding net_dev_lines net_dev_line lines
parse_net_dev content = net_dev_lines (lines content)

abbrev pub no_interface : ContainerInterface
no_interface = record {
  interface = [];
  rx_bytes = 0;
  tx_bytes = 0;
  rx_packets = 0;
  tx_packets = 0;
  rx_errors = 0;
  tx_errors = 0;
  rx_dropped = 0;
  tx_dropped = 0;
}

unfoldable pub total_interfaces : List ContainerInterface → ContainerInterface → ContainerInterface
total_interfaces [] t = t
total_interfaces (i ∷ is) t = total_interfaces is (record t {
  rx_bytes = add64 t.rx_bytes i.rx_bytes;
  tx_bytes = add64 t.tx_bytes i.tx_bytes;
  rx_packets = add64 t.rx_packets i.rx_packets;
  tx_packets = add64 t.tx_packets i.tx_packets;
})

unfoldable pub totals : ContainerNetwork → ContainerInterface
unfolding total_interfaces
totals n = total_interfaces n.interfaces no_interface

abbrev pub no_network : ContainerNetwork
no_network = record { interfaces = []; shares_host_network = false; accessible = false }

-- Both namespaces are known, and they are the same.
abbrev same_namespace : Text → Option Text → Bool
same_namespace host none = false
same_namespace host (some ns) = not (eqb host []) && eqb ns host

unfoldable pub read_container_network : Os → Text → ℤ → Text → ContainerNetwork
unfolding parse_net_dev itoa read_file_with_error
read_container_network os proc_path pid host_net_ns =
    let pid_dir = Paths.join (proc_path ∷ itoa pid ∷ []) in
    elim (read_file_with_error os (Paths.join (pid_dir ∷ codes "net" ∷ codes "dev" ∷ []))) [
      | ok content ↦ record {
        interfaces = parse_net_dev content;
        shares_host_network =
            same_namespace host_net_ns
              (os.read_link (Paths.join (pid_dir ∷ codes "ns" ∷ codes "net" ∷ [])));
        accessible = true;
      }
      | _ ↦ no_network
    ]
