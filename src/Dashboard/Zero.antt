-- ===== src/Dashboard/Zero.antt =====
-- example/collect.go: the panels and figures that no goroutine of collect has set.
use systats.Cpu.{Cpu}
use systats.Dashboard.Build.{no_gauge}
use systats.Dashboard.Panels.{HostPanel, CpuPanel, GaugePanel, PressurePanel, TcpPanel}
use systats.Go.Float.{Float64}
use systats.Memory.{Memory}
use systats.Prelude.Int.{pos}
use systats.Prelude.{false, Option, none, some, []}

abbrev pub or_else {ℓ} : {A : Type ℓ} → A → Option A → A
or_else d none = d
or_else d (some a) = a

module _ (fl : Float64) where
  open fl use {F, of_ℕ}

  -- Go's zero values.
  abbrev pub no_host : HostPanel
  no_host = record {
    is_ok = false;
    hostname = [];
    os_name = [];
    kernel = [];
    uptime = [];
    time_zone = [];
    logged_in_users = 0;
  }

  abbrev pub no_cpu_panel : CpuPanel fl
  no_cpu_panel = record {
    is_ok = false;
    gauge = no_gauge fl;
    cores = [];
    sockets = 0;
    model = [];
    cores_label = [];
    load1 = [];
    load5 = [];
    load15 = [];
  }

  abbrev pub no_gauge_panel : GaugePanel fl
  no_gauge_panel = record {
    is_ok = false;
    gauge = no_gauge fl;
    used = [];
    total = [];
    free = [];
    detail = [];
    present = false;
  }

  abbrev pub no_pressure : PressurePanel fl
  no_pressure = record { available = false; note = []; limited = false; resources = [] }

  abbrev pub no_tcp : TcpPanel fl
  no_tcp = record { is_ok = false; total = 0; segments = []; rows = [] }

  abbrev pub no_memory : Memory fl
  no_memory = record {
    percentage_used = of_ℕ 0;
    available = of_ℕ 0;
    free = of_ℕ 0;
    used = of_ℕ 0;
    time = 0;
    total = of_ℕ 0;
    unit = [];
    limited = false;
  }

  abbrev pub no_cpu : Cpu fl
  no_cpu = record {
    load = record { load_avg = pos 0; core_avg = []; limited = false; allocated_cores = of_ℕ 0 };
    average = record { load1 = of_ℕ 0; load5 = of_ℕ 0; load15 = of_ℕ 0 };
    info = record { model = []; freq = []; cache = [] };
    counts = record { logical = 0; physical_cores = 0; sockets = 0 };
    time = 0;
  }
