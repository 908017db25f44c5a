-- ===== src/Api/Boundary.antt =====
-- systats.go: what withRecover keeps from the callers of the public methods.
use systats.Api.{
  Surroundings, get_memory, get_swap, get_cpu, get_cpu_with_context, get_system,
  get_system_with_context, get_networks, get_top_processes, get_top_processes_with_context,
  get_process, get_process_with_context, get_disks, get_disk_io, can_connect_external,
  can_connect_external_with_context, get_tcp_connection_states, get_pressure, get_temperatures,
  get_protocol_stats, get_containers, get_containers_with_context, get_container,
  get_container_with_context,
}
use systats.Config.{SyStats, SizeUnit, SortOrder}
use systats.Go.Float.{Float64}
use systats.Go.Outcome.{Outcome, panic, Panic}
use systats.Prelude.Int.{ℤ}
use systats.Prelude.Text.{Text}
use systats.Prelude.{◌≢◌}

-- No public method that can fail ends in this panic: those on memory, swap, disks, counters,
-- pressure, sensors and protocols, and those that take a context, in both forms.
abbrev pub NoMethodPanics :
    (fl : Float64)
    → Surroundings fl
    → SyStats
    → Panic
    → SizeUnit
    → ℤ
    → ℤ
    → SortOrder
    → Text
    → Type 0
NoMethodPanics fl w systats p unit count pid sort name =
    (get_memory fl w systats unit ≢ panic p)
    × (get_swap fl w systats unit ≢ panic p)
    × (get_networks fl w systats ≢ panic p)
    × (get_disks fl w systats ≢ panic p)
    × (get_disk_io fl w systats ≢ panic p)
    × (get_tcp_connection_states fl w systats ≢ panic p)
    × (get_pressure fl w systats ≢ panic p)
    × (get_temperatures fl w systats ≢ panic p)
    × (get_protocol_stats fl w systats ≢ panic p)
    × (get_cpu_with_context fl w systats ≢ panic p)
    × (get_cpu fl w systats ≢ panic p)
    × (get_system_with_context fl w systats ≢ panic p)
    × (get_system fl w systats ≢ panic p)
    × (get_top_processes_with_context fl w systats count sort ≢ panic p)
    × (get_top_processes fl w systats count sort ≢ panic p)
    × (get_process_with_context fl w systats pid ≢ panic p)
    × (get_process fl w systats pid ≢ panic p)
    × (can_connect_external_with_context fl w systats name ≢ panic p)
    × (can_connect_external fl w systats name ≢ panic p)
    × (get_containers_with_context fl w systats unit ≢ panic p)
    × (get_containers fl w systats unit ≢ panic p)
    × (get_container_with_context fl w systats unit name ≢ panic p)
    × (get_container fl w systats unit name ≢ panic p)
