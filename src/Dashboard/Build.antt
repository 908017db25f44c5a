-- ===== src/Dashboard/Build.antt =====
-- example/collect.go: the panels of single figures, and the rows of processes, sensors and states.
use systats.Cpu.{Cpu}
use systats.Dashboard.Panels.{HostPanel, CpuPanel, GaugePanel, ContainerPanel}
use systats.Dashboard.Render.{Print, Gauge, Bar, new_gauge, new_bar, size}
use systats.Go.Float.{Float64}
use systats.Go.Strconv.{format_uint, itoa}
use systats.Go.Time.{wrap64, mul_int64, round_duration, duration_string}
use systats.Memory.{Memory}
use systats.Prelude.Int.{ℤ, pos, negsuc}
use systats.Prelude.Text.{Text, codes}
use systats.Prelude.{ℕ, suc, ◌+◌, ◌^◌, true, false, List, [], ◌∷◌, ◌++◌, if◌then◌else◌, length}
use systats.Pressure.{PressureMetric}
use systats.Swap.{Swap}
use systats.System.{System}

module _ (fl : Float64) where
  open fl use {F, of_ℕ, sub, mul, div, lt, le}

  -- float64(n)
  abbrev pub of_ℤ : ℤ → F
  of_ℤ (pos n) = of_ℕ n
  of_ℤ (negsuc n) = sub (of_ℕ 0) (of_ℕ (suc n))

  abbrev pub no_gauge : Gauge fl
  no_gauge = record {
    percent = of_ℕ 0;
    dash = [];
    gap = [];
    circumference = [];
    color = [];
    label = [];
    caption = [];
    radius = [];
    center = [];
    size = [];
  }

  abbrev pub no_bar : Bar fl
  no_bar = record { percent = of_ℕ 0; width = []; color = []; label = []; value = [] }

  unfoldable pub build_host_panel : System fl → HostPanel
  build_host_panel s = record {
    is_ok = true;
    hostname = s.host_name;
    os_name = s.os_name;
    kernel = s.kernel;
    uptime = s.up_time;
    time_zone = s.time_zone;
    logged_in_users = length s.logged_in_users;
  }

  module _ (pr : Print fl) where
    open pr use {fixed}

    abbrev pub percent_text : ℕ → F → Text
    percent_text k x = fixed k x ++ codes "%"

    -- The loop over CoreAvg, from the core `i` on.
    unfoldable pub core_bars : ℕ → List ℤ → List (Bar fl)
    unfolding new_bar itoa format_uint
    core_bars i [] = []
    core_bars i (core ∷ cores) =
        new_bar fl pr (of_ℤ core) (codes "cpu" ++ format_uint i) (itoa core ++ codes "%")
        ∷ core_bars (i + 1) cores

    unfoldable pub build_cpu_panel : Cpu fl → CpuPanel fl
    unfolding core_bars new_gauge itoa format_uint
    build_cpu_panel c = record {
      is_ok = true;
      gauge =
          new_gauge fl pr (of_ℤ c.load.load_avg) (itoa c.load.load_avg ++ codes "%") (codes "CPU");
      cores = core_bars 0 c.load.core_avg;
      sockets = c.counts.sockets;
      model = c.info.model;
      cores_label =
          format_uint c.counts.logical
          ++ (codes " logical / " ++ (format_uint c.counts.physical_cores ++ codes " physical"));
      load1 = fixed 2 c.average.load1;
      load5 = fixed 2 c.average.load5;
      load15 = fixed 2 c.average.load15;
    }

    unfoldable pub build_memory_panel : Memory fl → GaugePanel fl
    unfolding new_gauge size
    build_memory_panel m = record {
      is_ok = true;
      present = true;
      gauge = new_gauge fl pr m.percentage_used (percent_text 0 m.percentage_used) (codes "Memory");
      used = size fl pr m.used m.unit;
      total = size fl pr m.total m.unit;
      free = size fl pr m.free m.unit;
      detail = size fl pr m.available m.unit ++ codes " available";
    }

    abbrev no_swap : GaugePanel fl
    no_swap = record {
      is_ok = true;
      present = false;
      gauge = no_gauge;
      used = [];
      total = [];
      free = [];
      detail = codes "not configured";
    }

    unfoldable pub build_swap_panel : Swap fl → GaugePanel fl
    unfolding new_gauge size
    build_swap_panel s = if le s.total (of_ℕ 0) then no_swap else record {
      is_ok = true;
      present = true;
      gauge = new_gauge fl pr s.percentage_used (percent_text 0 s.percentage_used) (codes "Swap");
      used = size fl pr s.used s.unit;
      total = size fl pr s.total s.unit;
      free = size fl pr s.free s.unit;
      detail = size fl pr s.free s.unit ++ codes " free";
    }

    unfoldable pub build_container_panel :
        Memory fl → Cpu fl → Memory fl → Cpu fl → ContainerPanel fl
    unfolding new_gauge size itoa
    build_container_panel cg_mem cg_cpu host_mem host_cpu = record {
      memory_limited = cg_mem.limited;
      cpu_limited = cg_cpu.load.limited;
      host_cores = host_cpu.counts.logical;
      memory_limit = if cg_mem.limited then size fl pr cg_mem.total cg_mem.unit else [];
      memory_host = if cg_mem.limited then size fl pr host_mem.total host_mem.unit else [];
      memory_gauge =
          if cg_mem.limited
          then new_gauge fl pr cg_mem.percentage_used (percent_text 0 cg_mem.percentage_used)
              (codes "of limit")
          else no_gauge;
      allocated_cores = if cg_cpu.load.limited then fixed 2 cg_cpu.load.allocated_cores else [];
      cpu_gauge =
          if cg_cpu.load.limited
          then new_gauge fl pr (of_ℤ cg_cpu.load.load_avg) (itoa cg_cpu.load.load_avg ++ codes "%")
              (codes "of quota")
          else no_gauge;
    }

    unfoldable pub pressure_bars : PressureMetric fl → List (Bar fl)
    unfolding new_bar
    pressure_bars m =
        new_bar fl pr m.avg10 (codes "10s") (percent_text 2 m.avg10)
        ∷ new_bar fl pr m.avg60 (codes "60s") (percent_text 2 m.avg60)
        ∷ new_bar fl pr m.avg300 (codes "300s") (percent_text 2 m.avg300)
        ∷ []

  -- Microseconds as a duration, rounded to a millisecond.
  unfoldable pub stall_total : ℕ → Text
  unfolding duration_string round_duration mul_int64 wrap64
  stall_total micros =
      duration_string (round_duration (mul_int64 (wrap64 (pos micros)) 1000) (10 ^ 6))
