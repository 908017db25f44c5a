-- ===== src/Tests/Texts.antt =====
-- Texts: the kernel's files, printed and read back.
use systats.Cgroup.KeyValue.{IsCounter, stat_file, last_value, lookup-parse_key_value_stat}
use systats.Cgroup.{parse_key_value_stat}
use systats.Diskio.{DiskIo, named}
use systats.Go.Float.{exact}
use systats.Go.Outcome.{ok}
use systats.Go.Strings.{fields, lines, is_space, newline}
use systats.Memory.Host.{
  MeminfoRow, IsFigure, meminfo_file, read_figures, meminfo_lines-meminfo_file,
}
use systats.Memory.{no_meminfo, meminfo_lines}
use systats.Netproto.Pairs.{IsBlock, snmp_file, merged, parse_proc_net_snmp-snmp_file}
use systats.Netproto.{Protocols, parse_proc_net_snmp}
use systats.Prelude.Int.{pos, negsuc}
use systats.Prelude.Text.{Text, codes, eqb}
use systats.Prelude.{ℕ, ◌≡◌, refl, true, false, none, some, List, [], ◌∷◌, ◌++◌, arith, All}
use systats.Pressure.Lines.{IsMetric, psi_line, metric_of, parse_pressure_full}
use systats.Pressure.{parse_pressure}
use systats.Process.Stat.Comm.{stat_line, parse_proc_stat-stat_line}
use systats.Process.Stat.{parse_proc_stat, stat_of_fields}
use systats.Stats.{Dict, lookup, put}
use systats.Tests.World.{meminfo_row}

abbrev counters : Dict ℕ
counters = (codes "usage_usec", 900) ∷ (codes "user_usec", 600) ∷ (codes "usage_usec", 950) ∷ []

counters-IsCounter : All IsCounter counters
unfolding is_space
counters-IsCounter = ground arith

lookup-parse_key_value_stat_example :
    lookup (codes "usage_usec") (parse_key_value_stat (stat_file counters))
    ≡ last_value (codes "usage_usec") counters none
lookup-parse_key_value_stat_example =
    lookup-parse_key_value_stat (codes "usage_usec") counters counters-IsCounter

last_of_two : last_value (codes "usage_usec") counters none ≡ some 950
unfolding eqb
last_of_two = refl

abbrev figures : List MeminfoRow
figures =
    meminfo_row (codes "MemTotal:") 9 16000 true
    ∷ meminfo_row (codes "MemFree:") 11 4000 true
    ∷ meminfo_row (codes "HugePages_Total:") 6 0 false
    ∷ meminfo_row (codes "Cached:") 12 3000 true
    ∷ []

figures-IsFigure : All IsFigure figures
unfolding is_space
figures-IsFigure = ground arith

meminfo_lines-meminfo_file_example :
    meminfo_lines (lines (meminfo_file figures)) no_meminfo ≡ ok (read_figures figures no_meminfo)
meminfo_lines-meminfo_file_example = meminfo_lines-meminfo_file figures no_meminfo figures-IsFigure

figures_read :
    read_figures figures no_meminfo
    ≡ record { total = 16000; free = 4000; available = 0; buffers = 0; cached = 3000 }
unfolding eqb
figures_read = refl

abbrev diskstats : Text
diskstats =
    codes "7 0 loop0 1 2 3 4 5 6 7 8 9 10 11" ++ (10 ∷ codes "8 1 sda1 10 2 30 4") ++ (10 ∷ [])

abbrev sda1 : DiskIo
sda1 = record (named (codes "sda1") 8 1 5) {
  reads_completed = 10;
  bytes_read = 1024;
  writes_completed = 30;
  bytes_written = 2048;
}

idle_IsMetric : IsMetric exact (codes "0.00") (codes "0.00") (codes "0.00") 0
unfolding is_space
idle_IsMetric = ground arith

busy_IsMetric : IsMetric exact (codes "1.50") (codes "2.25") (codes "0.10") 123456
unfolding is_space
busy_IsMetric = ground arith

parse_pressure_full_example :
    parse_pressure exact (
      psi_line (codes "some") (codes "1.50") (codes "2.25") (codes "0.10") 123456
      ++ (newline
          ∷ (psi_line (codes "full") (codes "0.00") (codes "0.00") (codes "0.00") 0
              ++ (newline ∷ []))))
    ≡ record {
      some_stall = metric_of exact (codes "1.50") (codes "2.25") (codes "0.10") 123456;
      full_stall = metric_of exact (codes "0.00") (codes "0.00") (codes "0.00") 0;
      full_available = true;
    }
parse_pressure_full_example =
    parse_pressure_full exact (codes "1.50") (codes "2.25") (codes "0.10") (codes "0.00")
      (codes "0.00") (codes "0.00") 123456 0 busy_IsMetric idle_IsMetric

abbrev behind_comm : Text
behind_comm = codes "S 1 1 1 0 -1 4194560 1 0 0 0 25 50 0 0 20 0 4 0 7700 0"

parse_proc_stat-stat_line_example :
    parse_proc_stat (stat_line (codes "42") (codes "a) (b") behind_comm)
    ≡ stat_of_fields (codes "a) (b") (fields behind_comm)
parse_proc_stat-stat_line_example =
    parse_proc_stat-stat_line (codes "42") (codes "a) (b") behind_comm (omega arith) (omega arith)

fields_read :
    stat_of_fields (codes "a) (b") (fields behind_comm)
    ≡ ok (record {
      comm = codes "a) (b";
      state = codes "S";
      ppid = pos 1;
      utime = 25;
      stime = 50;
      num_threads = pos 4;
      starttime = 7700;
    })
unfolding stat_of_fields fields
fields_read = refl

abbrev protocols : Protocols
protocols =
    (codes "Tcp", (codes "MaxConn", negsuc 0) ∷ (codes "InErrs", pos 5) ∷ [])
    ∷ (codes "Udp", (codes "InErrs", pos 7) ∷ [])
    ∷ []

protocols-IsBlock : All IsBlock protocols
unfolding is_space
protocols-IsBlock =
    ((ground arith, (λ e. cc), ground arith), ((ground arith, (λ e. cc), ground arith), tt))

parse_proc_net_snmp-snmp_file_example :
    parse_proc_net_snmp (snmp_file protocols) [] ≡ merged protocols []
parse_proc_net_snmp-snmp_file_example = parse_proc_net_snmp-snmp_file protocols [] protocols-IsBlock

protocols_merged : merged protocols [] ≡ protocols
unfolding lookup put eqb
protocols_merged = refl
