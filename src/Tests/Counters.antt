-- ===== src/Tests/Counters.antt =====
-- Counters: CPU rows, sockets by state, disk rates, and the memory figures.
use systats.Cgroup.Self.{Finds, parse_self_cgroup_v1-Finds}
use systats.Cgroup.{parse_self_cgroup_v1}
use systats.Cpu.Stat.Counts.{length-core_avg}
use systats.Cpu.Stat.Percent.{AreLater, Percents, stat_rounds-Percents}
use systats.Cpu.Stat.{
  StatRow, Utilisation, no_utilisation, stat_rounds, stat_round, passed, usage, int_of_word,
}
use systats.Cpu.Topology.{parse_cpu_topology}
use systats.Diskio.Rates.{IsSample, IsForward, WentBack, exact_rates, rates_since_cases}
use systats.Diskio.{DiskIo, named, rates_since, no_rates}
use systats.Go.Float.{exact}
use systats.Go.Outcome.{ok}
use systats.Go.Strings.{lines}
use systats.Memory.Host.{summarise_wraps}
use systats.Memory.{Meminfo, summarise}
use systats.Network.Tcp.Totals.{sum, get_tcp_connection_states-sum}
use systats.Network.Tcp.{TcpStates, read_tcp_socket_records, get_tcp_connection_states}
use systats.Prelude.Int.{pos}
use systats.Prelude.Text.{Text, codes, eqb}
use systats.Prelude.{
  ℕ, ◌+◌, ◌*◌, ◌<◌, ◌≤◌, ◌≡◌, ◌⊎◌, refl, true, false, List, [], ◌∷◌, ◌++◌, arith, ltb, length,
  if◌then◌else◌,
}
use systats.Swap.Figures.{used_kib_lem}
use systats.Swap.{SwapKib, used_kib}
use systats.Go.Words.{word}
use systats.Tests.World.{world, config}

abbrev row : ℕ → ℕ → ℕ → StatRow
row user system idle = record { user = user; system = system; idle = idle }

-- The aggregate and two CPUs, and the same a moment later.
abbrev earlier : List StatRow
earlier = row 30 10 100 ∷ row 10 5 50 ∷ row 20 5 50 ∷ []

abbrev later : List StatRow
later = row 60 20 160 ∷ row 30 5 80 ∷ row 30 15 80 ∷ []

abbrev measured : Utilisation
measured = record { load_avg = pos 40; core_avg = pos 40 ∷ pos 40 ∷ [] }

rounds_measured : stat_rounds true earlier later no_utilisation ≡ ok measured
unfolding stat_rounds stat_round passed usage int_of_word
rounds_measured = refl

are_later : AreLater earlier later
are_later = ground arith

stat_rounds-Percents_example : Percents measured
stat_rounds-Percents_example =
    stat_rounds-Percents true earlier later no_utilisation are_later (omega arith) rounds_measured

length-core_avg_example :
    length measured.core_avg ≡ (if ltb 0 (passed (row 30 10 100) (row 60 20 160)) then 0 else 1) + 2
length-core_avg_example =
    length-core_avg (row 30 10 100) (row 60 20 160) (row 10 5 50 ∷ row 20 5 50 ∷ [])
      (row 30 5 80 ∷ row 30 15 80 ∷ []) rounds_measured

-- Two equal samples of an aggregate and one CPU give two per-core figures.
one_figure_more :
    stat_rounds true (row 3 1 4 ∷ row 3 1 4 ∷ []) (row 3 1 4 ∷ row 3 1 4 ∷ []) no_utilisation
    ≡ ok (record { load_avg = pos 0; core_avg = pos 0 ∷ pos 0 ∷ [] })
unfolding stat_rounds stat_round passed usage
one_figure_more = refl

abbrev newline_text : Text
newline_text = 10 ∷ []

abbrev self_cgroup : Text
self_cgroup =
    codes "4:cpuset:/a" ++ newline_text ++ codes "3:cpu,cpuacct:/b" ++ newline_text ++ codes "0::/c"

parse_self_cgroup_v1-Finds_example :
    Finds (codes "cpu") (lines self_cgroup) (parse_self_cgroup_v1 self_cgroup (codes "cpu"))
parse_self_cgroup_v1-Finds_example = parse_self_cgroup_v1-Finds self_cgroup (codes "cpu")

-- The list "cpuset" is no match for "cpu".
found_whole : parse_self_cgroup_v1 self_cgroup (codes "cpu") ≡ ok (codes "/b", codes "cpu,cpuacct")
unfolding parse_self_cgroup_v1 eqb
found_whole = refl

abbrev cpuinfo : Text
cpuinfo =
    codes "processor : 0"
    ++ newline_text
    ++ codes "physical id : 0"
    ++ newline_text
    ++ codes "core id : 0"
    ++ newline_text
    ++ codes "processor : 1"
    ++ newline_text
    ++ codes "physical id : 0"
    ++ newline_text
    ++ codes "core id : 0"

-- Two threads of one core on one socket.
one_core : parse_cpu_topology cpuinfo ≡ record { logical = 2; physical_cores = 1; sockets = 1 }
unfolding parse_cpu_topology
one_core = refl

abbrev sample : ℕ → DiskIo
sample n = record (named (codes "sda") 8 0 0) {
  reads_completed = n;
  writes_completed = 2 * n;
  bytes_read = 512 * n;
  bytes_written = 1024 * n;
  io_time_ms = 10 * n;
}

sample-IsSample : IsSample (sample 30)
sample-IsSample = ground arith

rates_since_cases_example :
    ((exact.le (exact.of_ℕ 2) (exact.of_ℕ 0) ≡ true)
      × (rates_since exact (sample 30) (sample 10) (exact.of_ℕ 2) ≡ no_rates exact (codes "sda")))
    ⊎ (WentBack (sample 10) (sample 30)
        × (rates_since exact (sample 30) (sample 10) (exact.of_ℕ 2) ≡ no_rates exact (codes "sda")))
    ⊎ (IsForward (sample 10) (sample 30)
        × (exact.le (exact.of_ℕ 2) (exact.of_ℕ 0) ≡ false)
        × (rates_since exact (sample 30) (sample 10) (exact.of_ℕ 2)
            ≡ exact_rates exact (sample 30) (sample 10) (exact.of_ℕ 2)))
rates_since_cases_example =
    rates_since_cases exact (sample 30) (sample 10) (exact.of_ℕ 2) sample-IsSample

abbrev host : Meminfo
host = record { total = 1000; free = 300; available = 600; buffers = 50; cached = 250 }

abbrev torn : Meminfo
torn = record { total = 1000; free = 800; available = 600; buffers = 50; cached = 250 }

summarise_wraps_example :
    ((summarise exact torn).used + (800 + 50 + 250) ≡ 1000 + word)
    × (1000 < (summarise exact torn).used)
summarise_wraps_example = summarise_wraps exact torn (omega arith) (omega arith) (omega arith)

abbrev swapped : SwapKib
swapped = record { total_kib = 2000; free_kib = 1500 }

used_kib_lem_example :
    ((1500 ≤ 2000) × (used_kib swapped + 1500 ≡ 2000))
    ⊎ ((swapped.total_kib ≡ 0) × (used_kib swapped ≡ 0))
    ⊎ ((0 < 2000) × (2000 < 1500) × (2000 < used_kib swapped))
used_kib_lem_example = used_kib_lem swapped (omega arith) (omega arith)

-- One listening socket over IPv4 and one established over IPv6.
abbrev sockets : List (Text × Text)
sockets =
    (
      codes "/proc/net/tcp",
      codes "sl local_address rem_address st"
          ++ newline_text
          ++ codes "0: 0100007F:1F90 00000000:0000 0A 0:0 00:0 00 0 0 4242",
    )
    ∷ (
      codes "/proc/net/tcp6",
      codes "sl local_address rem_address st"
          ++ newline_text
          ++ codes "0: 00:1F90 00:0000 01 0:0 00:0 00 0 0 4243",
    )
    ∷ []

get_tcp_connection_states-sum_example :
    (t : TcpStates) × (get_tcp_connection_states (world sockets) config ≡ ok t)
    × (sum t ≡ t.total)
    × (t.total ≡ length (read_tcp_socket_records (world sockets) config))
get_tcp_connection_states-sum_example = get_tcp_connection_states-sum (world sockets) config

two_sockets : length (read_tcp_socket_records (world sockets) config) ≡ 2
unfolding read_tcp_socket_records world systats.Fileops.read_file_with_error eqb
two_sockets = refl
