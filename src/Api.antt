-- ===== src/Api.antt =====
-- systats.go: the public methods. What the environment does during a call is an argument: the
-- system at its readings, the context, the commands and the network.
pub mod Boundary
use systats.Config.{SyStats, SizeUnit, SortOrder, with_recover}
use systats.Container.Collect
use systats.Container.Layer.{Visit}
use systats.Container.Runtime.{ContainerMetadata, Socket, fetch_container_metadata}
use systats.Container.Types.{Container}
use systats.Cpu
use systats.Cpu.{Cpu}
use systats.Disk
use systats.Disk.{Disk}
use systats.Diskio
use systats.Diskio.{DiskIo}
use systats.Exec.{Context, background, Shell}
use systats.Go.Float.{Float64}
use systats.Go.Os.{Os}
use systats.Go.Outcome.{Outcome, Error}
use systats.Go.Time.{Time}
use systats.Memory
use systats.Memory.{Memory}
use systats.Netproto
use systats.Netproto.{ProtocolStats}
use systats.Network
use systats.Network.Probe
use systats.Network.Probe.{Net}
use systats.Network.Sockets
use systats.Network.Tcp
use systats.Network.Tcp.{TcpStates}
use systats.Network.{Iface, Network, NetworkUsage}
use systats.Prelude.Int.{ℤ}
use systats.Prelude.Text.{Text}
use systats.Prelude.{ℕ, Bool, false, Option, List}
use systats.Pressure
use systats.Pressure.{Pressure}
use systats.Process.Top
use systats.Process.{Process}
use systats.Service
use systats.Stats.{Dict}
use systats.Swap
use systats.Swap.{Swap}
use systats.System
use systats.System.{System}
use systats.Temperature
use systats.Temperature.{Temperature}

module _ (fl : Float64) where
  open fl use {F}

  -- The system at the first reading of a call, at the second, and from then on; the context, whether
  -- it is done before the sampling window is over, and before each process is read; and what the
  -- calls outside the program answer.
  pub record Surroundings : Type 0 where
    pub os1 : Os
    pub os2 : Os
    pub os3 : Os
    pub ctx : Context
    pub done : Bool
    pub ctx_done : ℤ → Bool
    pub elapsed_seconds : F
    pub now : Time
    pub shell : Shell
    pub net : Net
    pub socket : Socket
    pub interfaces : Outcome (List Iface)
    pub walk_dir : Text → List (Bool × Visit)
    pub walk_done : Bool
    pub search_depth : ℕ

  -- The same, with context.Background(), which is never done.
  abbrev pub in_background : Surroundings → Surroundings
  in_background w = record {
    os1 = w.os1;
    os2 = w.os2;
    os3 = w.os3;
    ctx = background;
    done = false;
    ctx_done = λ pid. false;
    elapsed_seconds = w.elapsed_seconds;
    now = w.now;
    shell = w.shell;
    net = w.net;
    socket = w.socket;
    interfaces = w.interfaces;
    walk_dir = w.walk_dir;
    walk_done = false;
    search_depth = w.search_depth;
  }

  module _ (w : Surroundings) (systats : SyStats) where
    unfoldable pub get_memory : SizeUnit → Outcome (Memory fl)
    get_memory unit = with_recover (Memory.get_memory fl w.os1 systats unit)

    unfoldable pub get_swap : SizeUnit → Outcome (Swap fl)
    get_swap unit = with_recover (Swap.get_swap fl w.os1 systats unit)

    unfoldable pub get_cpu_with_context : Outcome (Cpu fl)
    get_cpu_with_context =
        with_recover (Cpu.get_cpu fl w.os1 w.os2 w.done w.elapsed_seconds systats)

    unfoldable pub get_system_with_context : Outcome (System fl)
    get_system_with_context = with_recover (System.get_system fl w.os1 w.shell w.ctx w.now systats)

    unfoldable pub get_networks : Outcome (List Network)
    get_networks = with_recover (Network.get_networks w.os1 systats w.interfaces)

    unfoldable pub get_network_usage : Text → NetworkUsage
    get_network_usage network_interface = Network.get_network_usage w.os1 systats network_interface

    unfoldable pub is_service_running_with_context : Text → Bool × Option Error
    is_service_running_with_context service = Service.is_service_running w.shell w.ctx service

    unfoldable pub get_top_processes_with_context : ℤ → SortOrder → Outcome (List (Process fl))
    get_top_processes_with_context count sort = with_recover (
        Top.get_top_processes fl w.os1 w.os2 w.done w.ctx_done w.elapsed_seconds systats count sort)

    unfoldable pub get_process_with_context : ℤ → Outcome (Process fl)
    get_process_with_context pid =
        with_recover (Top.get_process fl w.os1 w.os2 w.done w.elapsed_seconds systats pid)

    unfoldable pub get_disks : Outcome (List (Disk fl))
    get_disks = with_recover (Disk.get_disks fl w.os1 systats)

    unfoldable pub get_disk_io : Outcome (List DiskIo)
    get_disk_io = with_recover (Diskio.get_disk_io w.os1 systats)

    unfoldable pub is_port_open_with_context : ℤ → Bool
    is_port_open_with_context port = Network.Probe.is_port_open w.net w.ctx port

    unfoldable pub can_connect_external_with_context : Text → Outcome Bool
    can_connect_external_with_context url = with_recover (Network.Probe.can_connect w.net w.ctx url)

    unfoldable pub established_tcp_conn_count : Text → ℕ
    established_tcp_conn_count proc_name =
        Network.Sockets.established_tcp_conn_count w.os1 systats proc_name

    unfoldable pub get_tcp_connection_states : Outcome TcpStates
    get_tcp_connection_states = with_recover (Network.Tcp.get_tcp_connection_states w.os1 systats)

    unfoldable pub get_pressure : Outcome (Pressure fl)
    get_pressure = with_recover (Pressure.get_pressure fl w.os1 systats)

    unfoldable pub get_temperatures : Outcome (List (Temperature fl))
    get_temperatures = with_recover (Temperature.get_temperatures fl w.os1 systats)

    unfoldable pub get_protocol_stats : Outcome ProtocolStats
    get_protocol_stats = with_recover (Netproto.get_protocol_stats w.os1 systats)

    -- What the runtime answers to collectContainers.
    unfoldable pub known : Outcome (Dict ContainerMetadata)
    known =
        fetch_container_metadata w.socket w.ctx systats.container_socket_path
          systats.container_socket_timeout

    unfoldable pub get_containers_with_context : SizeUnit → Outcome (List (Container fl))
    unfolding known
    get_containers_with_context unit = with_recover (
        Collect.get_containers fl w.walk_dir w.walk_done w.search_depth known w.os1 w.os2 w.os3
          w.done w.elapsed_seconds systats unit)

    unfoldable pub get_container_with_context : SizeUnit → Text → Outcome (Container fl)
    unfolding known
    get_container_with_context unit id_or_name = with_recover (
        Collect.get_container fl w.walk_dir w.walk_done w.search_depth known w.os1 w.os2 w.os3
          w.done w.elapsed_seconds systats unit id_or_name)

  -- The methods without a context.
  module _ (w : Surroundings) (systats : SyStats) where
    unfoldable pub get_cpu : Outcome (Cpu fl)
    unfolding get_cpu_with_context
    get_cpu = get_cpu_with_context (in_background w) systats

    unfoldable pub get_system : Outcome (System fl)
    unfolding get_system_with_context
    get_system = get_system_with_context (in_background w) systats

    unfoldable pub is_service_running : Text → Bool
    unfolding is_service_running_with_context
    is_service_running service =
        (is_service_running_with_context (in_background w) systats service).0

    unfoldable pub get_top_processes : ℤ → SortOrder → Outcome (List (Process fl))
    unfolding get_top_processes_with_context
    get_top_processes count sort =
        get_top_processes_with_context (in_background w) systats count sort

    unfoldable pub get_process : ℤ → Outcome (Process fl)
    unfolding get_process_with_context
    get_process pid = get_process_with_context (in_background w) systats pid

    unfoldable pub is_port_open : ℤ → Bool
    unfolding is_port_open_with_context
    is_port_open port = is_port_open_with_context (in_background w) systats port

    unfoldable pub can_connect_external : Text → Outcome Bool
    unfolding can_connect_external_with_context
    can_connect_external url = can_connect_external_with_context (in_background w) systats url

    unfoldable pub get_containers : SizeUnit → Outcome (List (Container fl))
    unfolding get_containers_with_context
    get_containers unit = get_containers_with_context (in_background w) systats unit

    unfoldable pub get_container : SizeUnit → Text → Outcome (Container fl)
    unfolding get_container_with_context
    get_container unit id_or_name =
        get_container_with_context (in_background w) systats unit id_or_name
