-- ===== src/Dashboard/Collect.antt =====
-- example/collect.go: collect. Its goroutines end in some order, which is an argument.
use systats.Api
use systats.Api.{Surroundings}
use systats.Config.{SyStats, SizeUnit, new, cpu_usage_average, sort_by_cpu}
use systats.Cpu.{Cpu}
use systats.Dashboard.Build.{build_container_panel}
use systats.Dashboard.Cards.{sample_containers}
use systats.Dashboard.Panels.{Problem, ContainerPanel, Dashboard}
use systats.Dashboard.Render.{Print}
use systats.Dashboard.Samples.{sample_disk_io, sample_networks}
use systats.Dashboard.Sort.{sort_by}
use systats.Dashboard.Task.{Task}
use systats.Go.Float.{Float64}
use systats.Go.Time.{round_duration, duration_string}
use systats.Memory.{Memory}
use systats.Prelude.Int.{ℤ}
use systats.Prelude.Text.{Text, text_ltb}
use systats.Prelude.{◌^◌, Bool, true, false, ◌||◌, Option, none, some, List, [], if◌then◌else◌}
use systats.Dashboard.Readers.{Readings, Shared, run_tasks, nothing_yet}
use systats.Dashboard.Zero.{
  no_host, no_cpu_panel, no_gauge_panel, no_pressure, no_tcp, no_memory, no_cpu, or_else,
}

-- example/main.go: what collect is asked for.
pub record DashboardConfig : Type 0 where
  pub unit : SizeUnit
  pub sample_window : ℤ
  pub sample_interval : ℤ
  pub top_processes : ℤ
  pub container_socket : Text
  pub container_layers : Bool

unfoldable pub host_config : DashboardConfig → SyStats
host_config cfg = record new {
  cpu_sample_window = cfg.sample_window;
  process_cpu_mode = cpu_usage_average;
  container_socket_path = cfg.container_socket;
  container_layer_size = cfg.container_layers;
}

unfoldable pub cgroup_config : DashboardConfig → SyStats
cgroup_config cfg = record new { cpu_sample_window = cfg.sample_window; container_aware = true }

-- sampleContainers' copy of the configuration for its first sample.
abbrev quick : SyStats → SyStats
quick s = record s { container_layer_size = false }

module _ (fl : Float64) where
  open fl use {F}

  unfoldable pub sort_problems : List Problem → List Problem
  unfolding sort_by text_ltb
  sort_problems = sort_by (λ (a b : Problem). text_ltb a.panel b.panel)

  -- The panel of the own control group, where it has a limit.
  abbrev container_panel :
      Print fl → Memory fl → Cpu fl → Memory fl → Cpu fl → Option (ContainerPanel fl)
  unfolding build_container_panel
  container_panel pr cg_mem cg_cpu host_mem host_cpu =
      if cg_mem.limited || cg_cpu.load.limited
      then some (build_container_panel fl pr cg_mem cg_cpu host_mem host_cpu)
      else none

  -- What follows wg.Wait(). `elapsed` is time.Since(start).
  unfoldable pub finish : Print fl → Text → ℤ → Shared fl → Dashboard fl
  unfolding container_panel sort_problems round_duration duration_string
  finish pr generated_at elapsed s = record {
    generated_at = generated_at;
    elapsed = duration_string (round_duration elapsed (10 ^ 6));
    host = or_else (no_host fl) s.host;
    cpu = or_else (no_cpu_panel fl) s.cpu;
    memory = or_else (no_gauge_panel fl) s.memory;
    swap = or_else (no_gauge_panel fl) s.swap;
    container =
        container_panel pr (or_else (no_memory fl) s.cg_mem) (or_else (no_cpu fl) s.cg_cpu)
          (or_else (no_memory fl) s.host_mem) (or_else (no_cpu fl) s.host_cpu);
    containers = (or_else ([], []) s.containers).0;
    containers_note = (or_else ([], []) s.containers).1;
    pressure = or_else (no_pressure fl) s.pressure;
    disks = or_else [] s.disks;
    disk_io = or_else [] s.disk_io;
    networks = or_else [] s.networks;
    tcp = or_else (no_tcp fl) s.tcp;
    temps = or_else [] s.temps;
    processes = or_else [] s.processes;
    problems = sort_problems s.problems;
  }

  -- collect, for goroutines that end in the order of `tasks`.
  unfoldable pub collect_ended :
      Print fl → SizeUnit → Readings fl → Text → ℤ → List Task → Dashboard fl
  unfolding run_tasks finish
  collect_ended pr unit r generated_at elapsed tasks =
      finish pr generated_at elapsed (run_tasks fl pr unit r tasks (nothing_yet fl))

  -- The calls of the goroutines: what surrounds the call of each, and for those that sample twice,
  -- what surrounds their second call. `waits` is whether the context is done before the interval between
  -- the two is over, and the seconds that really pass.
  unfoldable pub readings_of :
      Print fl
      → DashboardConfig
      → (Task → Surroundings fl)
      → (Task → Surroundings fl)
      → (Task → Bool × F)
      → Readings fl
  unfolding host_config cgroup_config sample_disk_io sample_networks sample_containers
  readings_of pr cfg at later waits =
      let host = host_config cfg in
      let cgroup = cgroup_config cfg in
      record {
        system = Api.get_system_with_context fl (at Task.system) host;
        cpu = Api.get_cpu_with_context fl (at Task.cpu) host;
        memory = Api.get_memory fl (at Task.memory) host cfg.unit;
        swap = Api.get_swap fl (at Task.swap) host cfg.unit;
        pressure = Api.get_pressure fl (at Task.pressure) cgroup;
        disks = Api.get_disks fl (at Task.disks) host;
        disk_io =
            sample_disk_io fl pr (Api.get_disk_io fl (at Task.disk_io) host)
              (Api.get_disk_io fl (later Task.disk_io) host) (waits Task.disk_io).0
              cfg.sample_interval (waits Task.disk_io).1;
        networks =
            sample_networks fl pr (Api.get_networks fl (at Task.networks) host)
              (Api.get_networks fl (later Task.networks) host) (waits Task.networks).0
              cfg.sample_interval (waits Task.networks).1;
        tcp = Api.get_tcp_connection_states fl (at Task.tcp) host;
        temps = Api.get_temperatures fl (at Task.temps) host;
        processes =
            Api.get_top_processes_with_context fl (at Task.processes) host cfg.top_processes
              sort_by_cpu;
        containers =
            sample_containers fl pr
              (Api.get_containers_with_context fl (at Task.containers) (quick host) cfg.unit)
              (Api.get_containers_with_context fl (later Task.containers) host cfg.unit)
              (waits Task.containers).0 cfg.sample_interval (waits Task.containers).1
              host.container_socket_path;
        cg_memory = Api.get_memory fl (at Task.cg_memory) cgroup cfg.unit;
        cg_cpu = Api.get_cpu_with_context fl (at Task.cg_cpu) cgroup;
      }

  unfoldable pub collect :
      Print fl
      → DashboardConfig
      → (Task → Surroundings fl)
      → (Task → Surroundings fl)
      → (Task → Bool × F)
      → Text
      → ℤ
      → List Task
      → Dashboard fl
  unfolding collect_ended readings_of
  collect pr cfg at later waits generated_at elapsed tasks =
      collect_ended pr cfg.unit (readings_of pr cfg at later waits) generated_at elapsed tasks
