-- ===== src/Tests/Containers.antt =====
-- Containers: matching, rates, block I/O, names, mounts and sockets.
use systats.Config.{kilobyte}
use systats.Container.Blockio.Throttle.{AreDevices, throttled-AreDevices}
use systats.Container.Blockio.{device_of, throttled, parse_blkio_throttle}
use systats.Container.Layer.Links.{layer_size-link}
use systats.Container.Layer.{FileInfo, irregular, regular, layer_size}
use systats.Container.Match.Found.{Stands, match_container-Stands}
use systats.Container.Match.{match_container}
use systats.Container.Netdev.{no_interface, no_network, totals}
use systats.Container.Patterns.Names.{
  ScopeRuntime, scope_name, IsId, match_cgroup_name-scope_name, match_cgroup_name-conmon,
}
use systats.Container.Patterns.{is_hex, match_cgroup_name, pod_uid_from_cgroup_path}
use systats.Container.Rates.Groups.{NetworkRates, container_rates_since-NetworkRates}
use systats.Container.Rates.{container_rates_since}
use systats.Container.Stats.{no_container_cpu}
use systats.Container.Types.{ContainerInterface, Container}
use systats.Go.Float.{exact}
use systats.Go.Os.{Os, DirEntry}
use systats.Go.Outcome.{ok}
use systats.Network.Sockets.{established_tcp_conn_count}
use systats.Prelude.Int.{pos}
use systats.Prelude.Text.{Text, codes, eqb}
use systats.Prelude.{ℕ, ◌*◌, ◌≡◌, refl, false, none, some, List, [], ◌∷◌, ◌++◌, arith}
use systats.Pressure.{no_resource}
use systats.Stats.{lookup}
use systats.Tests.World.{world, config}

abbrev interface : ℕ → ContainerInterface
interface n = record no_interface {
  interface = codes "eth0";
  rx_bytes = n;
  tx_bytes = 2 * n;
  rx_packets = n;
  tx_packets = n;
}

abbrev container : Text → Text → ℕ → Container exact
container id name n = record {
  id = id;
  short_id = id;
  name = name;
  image = [];
  labels = [];
  state = codes "running";
  runtime = codes "docker";
  pod_uid = [];
  metadata_available = false;
  cgroup_path = [];
  pid = pos 1;
  cpu = no_container_cpu exact;
  memory = record {
    used = exact.of_ℕ 0;
    limit = exact.of_ℕ 0;
    limited = false;
    percentage_used = exact.of_ℕ 0;
    anon = exact.of_ℕ 0;
    file = exact.of_ℕ 0;
    swap = exact.of_ℕ 0;
    oom_kills = 0;
    unit = kilobyte;
  };
  network = record no_network { interfaces = interface n ∷ [] };
  block_io = [];
  mounts = [];
  layer = record { size = exact.of_ℕ 0; unit = kilobyte; files = 0; path = []; available = false };
  pids = record { current = 0; max = 0; limited = false };
  pressure = record {
    cpu = no_resource exact;
    memory = no_resource exact;
    io = no_resource exact;
    available = false;
    limited = false;
    time = 0;
  };
  time = 0;
}

abbrev two : List (Container exact)
two = container (codes "ab12") (codes "web") 10 ∷ container (codes "ab34") (codes "ab1") 10 ∷ []

match_container-Stands_example :
    Stands exact (codes "ab1") two (match_container exact two (codes "ab1"))
match_container-Stands_example = match_container-Stands exact two (codes "ab1")

-- A name goes before a prefix of an ID.
name_first : match_container exact two (codes "ab1") ≡ ok 1
unfolding match_container eqb systats.Container.Match.is_named
name_first = refl

container_rates_since-NetworkRates_example :
    NetworkRates exact
      (totals (container (codes "ab12") [] 30).network)
      (totals (container (codes "ab12") [] 10).network)
      (exact.of_ℕ 2)
      (container_rates_since exact
        (container (codes "ab12") [] 30)
        (container (codes "ab12") [] 10)
        (exact.of_ℕ 2))
container_rates_since-NetworkRates_example =
    container_rates_since-NetworkRates exact (container (codes "ab12") [] 30)
      (container (codes "ab12") [] 10) (exact.of_ℕ 2) refl refl

abbrev service_bytes : Text
service_bytes =
    codes "8:0 Read 100"
    ++ (10 ∷ codes "8:0 Write 200")
    ++ (10 ∷ codes "x Read 3")
    ++ (10 ∷ codes "Total 300")

throttled-AreDevices_example : AreDevices (throttled service_bytes (codes "8:0 Read 7"))
throttled-AreDevices_example = throttled-AreDevices service_bytes (codes "8:0 Read 7")

one_device :
    parse_blkio_throttle service_bytes (codes "8:0 Read 7")
    ≡ record (device_of [] 8 0) { read_bytes = 100; write_bytes = 200; reads = 7 } ∷ []
unfolding parse_blkio_throttle eqb systats.Go.Strings.fields
one_device = refl

abbrev full_id : Text
full_id = codes "0123456789abcdef0123456789abcdef0123456789abcdef0123456789abcdef"

full-IsId : IsId full_id
unfolding is_hex
full-IsId = ground arith

match_cgroup_name-scope_name_example :
    match_cgroup_name (scope_name ScopeRuntime.podman full_id) (codes "machine.slice") (codes "/x")
    ≡ some (full_id, codes "podman")
match_cgroup_name-scope_name_example =
    match_cgroup_name-scope_name ScopeRuntime.podman full_id (codes "machine.slice") (codes "/x")
      full-IsId

match_cgroup_name-conmon_example :
    match_cgroup_name
      (codes "libpod-conmon-" ++ (full_id ++ codes ".scope"))
      (codes "machine.slice")
      (codes "/x")
    ≡ none
match_cgroup_name-conmon_example =
    match_cgroup_name-conmon full_id (codes "machine.slice") (codes "/x")

pod_uid_found :
    pod_uid_from_cgroup_path (codes "/kubepods-pod01234567_89ab_cdef_0123_456789abcdef.slice")
    ≡ codes "01234567-89ab-cdef-0123-456789abcdef"
unfolding pod_uid_from_cgroup_path
pod_uid_found = refl

abbrev mounts : List (Text × Text)
mounts =
    (
      codes "/proc/1/mounts",
      codes "overlay / overlay rw 0 0" ++ (10 ∷ codes "proc /proc proc rw 0 0"),
    )
    ∷ []

abbrev entry : Text → DirEntry
entry name = record { name = name; is_dir = false }

-- One process with two descriptors, of which one is an established socket.
unfoldable host : Os
unfolding lookup
host =
    record (world (
      (codes "/proc/7/comm", codes "nginx" ++ (10 ∷ []))
      ∷ (
        codes "/proc/net/tcp",
        codes "sl local_address rem_address st"
            ++ (10 ∷ codes "0: 00:50 00:99 01 0:0 00:0 00 0 0 4243"),
      )
      ∷ [])) {
        read_dir = λ path. lookup path (
            (codes "/proc", entry (codes "7") ∷ entry (codes "self") ∷ [])
            ∷ (codes "/proc/7/fd", entry (codes "0") ∷ entry (codes "3") ∷ [])
            ∷ []);
        read_link = λ path. lookup path (
            (codes "/proc/7/fd/0", codes "/dev/null")
            ∷ (codes "/proc/7/fd/3", codes "socket:[4243]")
            ∷ []);
      }

one_connection : established_tcp_conn_count host config (codes "nginx") ≡ 1
unfolding established_tcp_conn_count host systats.Fileops.read_file_with_error world
    systats.Go.Paths.join
one_connection = refl

abbrev linked : FileInfo
linked = record { size = 100; links = 2; dev = 1; ino = 77 }

layer_size-link_example :
    layer_size ((false, regular linked) ∷ ((false, irregular) ∷ ((false, regular linked) ∷ [])))
    ≡ layer_size ((false, regular linked) ∷ ((false, irregular) ∷ []))
layer_size-link_example = layer_size-link [] ((false, irregular) ∷ []) [] linked (omega arith)

counted_once :
    layer_size ((false, regular linked) ∷ (false, regular linked) ∷ [])
    ≡ ok (record { seen = (1, 77) ∷ []; size = 100; files = 1 })
unfolding layer_size
counted_once = refl
