-- ===== src/Dashboard/Readers.antt =====
-- example/collect.go: the goroutines of collect and what they share.
use systats.Config.{SizeUnit}
use systats.Cpu.{Cpu}
use systats.Dashboard.Build.{
  build_host_panel, build_cpu_panel, build_memory_panel, build_swap_panel,
}
use systats.Dashboard.Panels.{
  Problem, HostPanel, NetworkPanel, CpuPanel, GaugePanel, ContainerCard, PressurePanel, DiskPanel,
  DiskIoPanel, TcpPanel, TempPanel, ProcessRow,
}
use systats.Dashboard.Render.{Print}
use systats.Dashboard.Rows.{
  build_pressure_panel, build_tcp_panel, build_temp_panels, build_process_rows,
}
use systats.Dashboard.Samples.{build_disk_panels}
use systats.Dashboard.Task.{Task, name_of}
use systats.Disk.{Disk}
use systats.Go.Float.{Float64}
use systats.Go.Outcome.{Outcome, ok, fail, panic}
use systats.Memory.{Memory}
use systats.Network.Tcp.{TcpStates}
use systats.Prelude.Text.{Text}
use systats.Prelude.{Option, none, some, List, [], ◌∷◌, ◌++◌}
use systats.Pressure.{Pressure}
use systats.Process.{Process}
use systats.Swap.{Swap}
use systats.System.{System}
use systats.Temperature.{Temperature}

module _ (fl : Float64) where
  -- What each goroutine's calls return.
  pub record Readings : Type 0 where
    pub system : Outcome (System fl)
    pub cpu : Outcome (Cpu fl)
    pub memory : Outcome (Memory fl)
    pub swap : Outcome (Swap fl)
    pub pressure : Outcome (Pressure fl)
    pub disks : Outcome (List (Disk fl))
    pub disk_io : Outcome (List (DiskIoPanel fl))
    pub networks : Outcome (List NetworkPanel)
    pub tcp : Outcome TcpStates
    pub temps : Outcome (List (Temperature fl))
    pub processes : Outcome (List (Process fl))
    pub containers : Outcome (List (ContainerCard fl) × Text)
    pub cg_memory : Outcome (Memory fl)
    pub cg_cpu : Outcome (Cpu fl)

  -- What the goroutines share: the panels, and the four figures behind the container panel. What is
  -- not yet set is none here.
  pub record Shared : Type 0 where
    pub host : Option HostPanel
    pub cpu : Option (CpuPanel fl)
    pub host_cpu : Option (Cpu fl)
    pub memory : Option (GaugePanel fl)
    pub host_mem : Option (Memory fl)
    pub swap : Option (GaugePanel fl)
    pub pressure : Option (PressurePanel fl)
    pub disks : Option (List (DiskPanel fl))
    pub disk_io : Option (List (DiskIoPanel fl))
    pub networks : Option (List NetworkPanel)
    pub tcp : Option (TcpPanel fl)
    pub temps : Option (List (TempPanel fl))
    pub processes : Option (List (ProcessRow fl))
    pub containers : Option (List (ContainerCard fl) × Text)
    pub cg_mem : Option (Memory fl)
    pub cg_cpu : Option (Cpu fl)
    pub problems : List Problem

  -- The body of a goroutine: its figure is stored, or its error appended. The public methods do not
  -- panic.
  abbrev pub report : {A : Type 0} → Task → Outcome A → (A → Shared) → Shared → Shared
  report task (ok a) store s = store a
  report task (fail e) store s = record s {
    problems = s.problems ++ (record { panel = name_of task; err = e } ∷ []);
  }
  report task (panic p) store s = s

  module _ (pr : Print fl) (unit : SizeUnit) where
    unfoldable pub run_task : Readings → Task → Shared → Shared
    unfolding build_host_panel build_cpu_panel build_memory_panel build_swap_panel
        build_pressure_panel build_disk_panels build_tcp_panel build_temp_panels build_process_rows
    run_task r Task.system s =
        report Task.system r.system (λ a. record s { host = some (build_host_panel fl a) }) s
    run_task r Task.cpu s =
        report Task.cpu r.cpu
          (λ a. record s { cpu = some (build_cpu_panel fl pr a); host_cpu = some a }) s
    run_task r Task.memory s =
        report Task.memory r.memory
          (λ a. record s { memory = some (build_memory_panel fl pr a); host_mem = some a }) s
    run_task r Task.swap s =
        report Task.swap r.swap (λ a. record s { swap = some (build_swap_panel fl pr a) }) s
    run_task r Task.pressure s =
        report Task.pressure r.pressure
          (λ a. record s { pressure = some (build_pressure_panel fl pr a) }) s
    run_task r Task.disks s =
        report Task.disks r.disks (λ a. record s { disks = some (build_disk_panels fl pr a unit) })
          s
    run_task r Task.disk_io s = report Task.disk_io r.disk_io (λ a. record s { disk_io = some a }) s
    run_task r Task.networks s =
        report Task.networks r.networks (λ a. record s { networks = some a }) s
    run_task r Task.tcp s =
        report Task.tcp r.tcp (λ a. record s { tcp = some (build_tcp_panel fl pr a) }) s
    run_task r Task.temps s =
        report Task.temps r.temps (λ a. record s { temps = some (build_temp_panels fl pr a) }) s
    run_task r Task.processes s =
        report Task.processes r.processes
          (λ a. record s { processes = some (build_process_rows fl pr a) }) s
    run_task r Task.containers s =
        report Task.containers r.containers (λ a. record s { containers = some a }) s
    run_task r Task.cg_memory s =
        report Task.cg_memory r.cg_memory (λ a. record s { cg_mem = some a }) s
    run_task r Task.cg_cpu s = report Task.cg_cpu r.cg_cpu (λ a. record s { cg_cpu = some a }) s

    -- The goroutines, in the order in which they end.
    unfoldable pub run_tasks : Readings → List Task → Shared → Shared
    unfolding run_task
    run_tasks r [] s = s
    run_tasks r (task ∷ tasks) s = run_tasks r tasks (run_task r task s)

  abbrev pub nothing_yet : Shared
  nothing_yet = record {
    host = none;
    cpu = none;
    host_cpu = none;
    memory = none;
    host_mem = none;
    swap = none;
    pressure = none;
    disks = none;
    disk_io = none;
    networks = none;
    tcp = none;
    temps = none;
    processes = none;
    containers = none;
    cg_mem = none;
    cg_cpu = none;
    problems = [];
  }
