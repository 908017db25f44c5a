-- ===== src/Container/Reader.antt =====
-- container.go: naming the containers that were found, and reading the figures of one of them.
use systats.Config.{SyStats, SizeUnit}
use systats.Container.Blockio.{read_container_block_io}
use systats.Container.Discover.{ContainerRef}
use systats.Container.Host.{ContainerHostInfo}
use systats.Container.Match.{short_container_id}
use systats.Container.Mounts.{read_container_mounts}
use systats.Container.Netdev.{no_network, read_container_network}
use systats.Container.Runtime.{ContainerMetadata}
use systats.Container.Stats.{
  no_container_cpu, read_container_memory, read_container_cpu_counters, read_container_pids,
  read_container_pressure, is_cgroup_frozen, sample_container_cpu_seconds,
}
use systats.Container.Types.{ContainerLayer, Container}
use systats.Go.Float.{Float64}
use systats.Go.Os.{Os}
use systats.Go.Outcome.{Outcome, ok, ◌>>=◌}
use systats.Prelude.Text.{Text, codes, eqb}
use systats.Prelude.{true, false, Option, none, some, List, [], ◌∷◌, if◌then◌else◌}
use systats.Pressure.{no_resource}
use systats.Stats.{Dict, lookup}

module _ (fl : Float64) where
  open fl use {F, of_ℕ}

  abbrev pub no_layer : SizeUnit → ContainerLayer fl
  no_layer unit = record { size = of_ℕ 0; unit = unit; files = 0; path = []; available = false }

  -- A container of which only its reference is known.
  abbrev pub container_of : ContainerRef → Container fl
  container_of ref = record {
    id = ref.id;
    short_id = short_container_id ref.id;
    name = [];
    image = [];
    labels = [];
    state = [];
    runtime = ref.runtime;
    pod_uid = ref.pod_uid;
    metadata_available = false;
    cgroup_path = ref.rel_path;
    pid = ref.pid;
    cpu = no_container_cpu fl;
    memory = record {
      used = of_ℕ 0;
      limit = of_ℕ 0;
      limited = false;
      percentage_used = of_ℕ 0;
      anon = of_ℕ 0;
      file = of_ℕ 0;
      swap = of_ℕ 0;
      oom_kills = 0;
      unit = [];
    };
    network = no_network;
    block_io = [];
    mounts = [];
    layer = no_layer [];
    pids = record { current = 0; max = 0; limited = false };
    pressure = record {
      cpu = no_resource fl;
      memory = no_resource fl;
      io = no_resource fl;
      available = false;
      limited = false;
      time = 0;
    };
    time = 0;
  }

  abbrev with_metadata : Option ContainerMetadata → Container fl → Container fl
  with_metadata none c = c
  with_metadata (some m) c = record c {
    name = m.name;
    image = m.image;
    state = m.state;
    labels = m.labels;
    metadata_available = true;
  }

  abbrev metadata_of : Outcome (Dict ContainerMetadata) → Text → Option ContainerMetadata
  unfolding lookup
  metadata_of (ok known) id = lookup id known
  metadata_of _ id = none

  -- The containers with what the runtime knows; an error of the runtime leaves them without.
  unfoldable pub named_containers :
      Outcome (Dict ContainerMetadata) → List ContainerRef → List (ContainerRef × Container fl)
  unfolding metadata_of short_container_id
  named_containers known [] = []
  named_containers known (ref ∷ refs) =
      (ref, with_metadata (metadata_of known ref.id) (container_of ref))
      ∷ named_containers known refs

  abbrev state_of : Os → ContainerRef → Text → Text
  unfolding is_cgroup_frozen eqb
  state_of os ref state =
      if eqb state []
      then (if is_cgroup_frozen os ref.dirs then codes "paused" else codes "running")
      else state

  -- readContainerStats, without its recover
  unfoldable pub read_container_stats :
      Os
      → SyStats
      → ContainerHostInfo
      → SizeUnit
      → F
      → ContainerRef
      → Container fl
      → Outcome (Container fl)
  unfolding state_of read_container_memory read_container_cpu_counters read_container_pids
      read_container_pressure read_container_block_io read_container_network read_container_mounts
  read_container_stats os systats host unit bytes_per ref c = do
    memory ← read_container_memory fl os ref.dirs host.memory_bytes bytes_per unit
    cpu ← read_container_cpu_counters fl os ref.dirs
    ok (record c {
      time = os.now;
      memory = memory;
      cpu = cpu;
      pids = read_container_pids os ref.dirs.pids;
      pressure = read_container_pressure fl os ref.dirs;
      block_io = read_container_block_io os ref.dirs host.disk_names;
      network = read_container_network os systats.proc_path ref.pid host.net_ns;
      mounts = read_container_mounts fl os systats.proc_path ref.pid unit bytes_per;
      state = state_of os ref c.state;
    })

  -- A reading of each container's usage. A panic of one is the panic of the call.
  unfoldable pub sample_all : Os → List (ContainerRef × Container fl) → Outcome (List (Option F))
  unfolding sample_container_cpu_seconds
  sample_all os [] = ok []
  sample_all os ((ref, c) ∷ rest) = do
    usage ← sample_container_cpu_seconds fl os ref.dirs
    usages ← sample_all os rest
    ok (usage ∷ usages)
