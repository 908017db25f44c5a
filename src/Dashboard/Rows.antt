-- ===== src/Dashboard/Rows.antt =====
-- example/collect.go: the rows of pressure, TCP states, sensors and processes.
use systats.Dashboard.Build.{percent_text, pressure_bars, stall_total}
use systats.Dashboard.Panels.{PanelRow, PressureRow, PressurePanel, TcpPanel, TempPanel, ProcessRow}
use systats.Dashboard.Render.{
  Print, Segment, new_gauge_colored, new_bar, fmt_float, temp_scale, temp_color, color_established,
  color_listen, color_time_wait, color_close_wait, color_other, color_unknown,
}
use systats.Go.Float.{Float64}
use systats.Go.Strconv.{format_uint}
use systats.Network.Tcp.{TcpStates}
use systats.Prelude.Text.{Text, codes}
use systats.Prelude.{ℕ, true, false, ◌&&◌, List, [], ◌∷◌, ◌++◌, ◌==◌, ltb, if◌then◌else◌}
use systats.Pressure.{Pressure, ResourcePressure}
use systats.Process.{Process}
use systats.Temperature.{Temperature}

-- A bucket of buildTCPPanel.
pub record Bucket : Type 0 where
  pub label : Text
  pub count : ℕ
  pub color : Text

abbrev bucket : Text → ℕ → Text → Bucket
bucket label count color = record { label = label; count = count; color = color }

unfoldable pub buckets : TcpStates → List Bucket
buckets s =
    bucket (codes "Established") s.established color_established
    ∷ bucket (codes "Listen") s.listen color_listen
    ∷ bucket (codes "Time wait") s.time_wait color_time_wait
    ∷ bucket (codes "Close wait") s.close_wait color_close_wait
    ∷ bucket (codes "Syn sent") s.syn_sent color_other
    ∷ bucket (codes "Syn recv") s.syn_recv color_other
    ∷ bucket (codes "Fin wait 1") s.fin_wait1 color_other
    ∷ bucket (codes "Fin wait 2") s.fin_wait2 color_other
    ∷ bucket (codes "Closing") s.closing color_other
    ∷ bucket (codes "Last ack") s.last_ack color_other
    ∷ bucket (codes "Close") s.close color_other
    ∷ bucket (codes "New syn recv") s.new_syn_recv color_other
    ∷ bucket (codes "Unknown") s.unknown color_unknown
    ∷ []

-- The rows of the buckets that are not empty.
unfoldable pub bucket_rows : List Bucket → List PanelRow
unfolding format_uint
bucket_rows [] = []
bucket_rows (b ∷ bs) =
    let rest = bucket_rows bs in
    if b.count == 0 then rest else record { label = b.label; value = format_uint b.count } ∷ rest

module _ (fl : Float64) where
  open fl use {F, of_ℕ, mul, div, le}

  module _ (pr : Print fl) where
    open pr use {fixed}

    unfoldable pub pressure_row : Text → ResourcePressure fl → PressureRow fl
    unfolding pressure_bars stall_total
    pressure_row name rp = record {
      name = name;
      full_available = rp.full_available;
      some_bars = pressure_bars fl pr rp.some_stall;
      some_total = stall_total fl rp.some_stall.total;
      full_bars = if rp.full_available then pressure_bars fl pr rp.full_stall else [];
    }

    unfoldable pub build_pressure_panel : Pressure fl → PressurePanel fl
    unfolding pressure_row
    build_pressure_panel p =
        if p.available
        then record {
          available = true;
          note = [];
          limited = p.limited;
          resources =
              pressure_row (codes "CPU") p.cpu
              ∷ pressure_row (codes "Memory") p.memory
              ∷ pressure_row (codes "I/O") p.io
              ∷ [];
        }
        else record {
          available = false;
          note = codes "kernel does not expose /proc/pressure - needs 4.20+ with CONFIG_PSI=y";
          limited = false;
          resources = [];
        }

    unfoldable pub bucket_percent : ℕ → ℕ → F
    bucket_percent total count =
        if ltb 0 total then div (mul (of_ℕ 100) (of_ℕ count)) (of_ℕ total) else of_ℕ 0

    unfoldable pub segments : ℕ → List Bucket → List (Segment fl)
    unfolding bucket_percent fmt_float
    segments total [] = []
    segments total (b ∷ bs) =
        let rest = segments total bs in
        if b.count == 0
        then rest
        else record {
          label = b.label;
          percent = bucket_percent total b.count;
          width = fmt_float fl pr (bucket_percent total b.count);
          color = b.color;
        }
          ∷ rest

    unfoldable pub build_tcp_panel : TcpStates → TcpPanel fl
    unfolding segments bucket_rows buckets
    build_tcp_panel s = record {
      is_ok = true;
      total = s.total;
      segments = segments s.total (buckets s);
      rows = bucket_rows (buckets s);
    }

    unfoldable pub build_temp_panels : List (Temperature fl) → List (TempPanel fl)
    unfolding temp_scale new_gauge_colored temp_color
    build_temp_panels [] = []
    build_temp_panels (t ∷ ts) =
        let (pct, limits) = temp_scale fl pr t in
        record {
          chip = t.name;
          label = t.label;
          celsius = fixed 1 t.celsius;
          gauge =
              new_gauge_colored fl pr pct (fixed 0 t.celsius ++ codes "°") t.label
                (temp_color fl pr t);
          limits = limits;
          critical = t.critical_available && le t.critical t.celsius;
        }
        ∷ build_temp_panels ts

    unfoldable pub build_process_rows : List (Process fl) → List (ProcessRow fl)
    unfolding new_bar format_uint
    build_process_rows [] = []
    build_process_rows (p ∷ ps) =
        record {
          pid = p.pid;
          name = p.name;
          user = p.user;
          state = p.state_name;
          threads = p.threads;
          cpu = percent_text fl pr 1 p.cpu_usage;
          cpu_bar = new_bar fl pr p.cpu_usage (codes "cpu") [];
          mem = percent_text fl pr 1 p.mem_usage;
          mem_bar = new_bar fl pr p.mem_usage (codes "mem") [];
          exec_path = p.exec_path;
          open_fds = if p.fds_accessible then format_uint p.open_fds else codes "n/a";
        }
        ∷ build_process_rows ps
