-- ===== src/Container/Rates.antt =====
-- container.go: the rates between two samples of a container.
pub mod Groups
use systats.Container.Blockio.{block_io_totals, device_of}
use systats.Container.Netdev.{totals}
use systats.Container.Types.{
  ContainerInterface, ContainerBlockIo, ContainerCpu, Container, ContainerRates,
}
use systats.Go.Float.{Float64}
use systats.Go.Words.{sub64}
use systats.Prelude.Text.{Text, eqb}
use systats.Prelude.{ℕ, Bool, not, ◌&&◌, ◌||◌, List, [], leb, if◌then◌else◌}

unfoldable pub network_forward : ContainerInterface → ContainerInterface → Bool
network_forward now before =
    leb before.rx_bytes now.rx_bytes
    && leb before.tx_bytes now.tx_bytes
    && leb before.rx_packets now.rx_packets
    && leb before.tx_packets now.tx_packets

unfoldable pub io_forward : ContainerBlockIo → ContainerBlockIo → Bool
io_forward now before =
    leb before.read_bytes now.read_bytes
    && leb before.write_bytes now.write_bytes
    && leb before.reads now.reads
    && leb before.writes now.writes

module _ (fl : Float64) where
  open fl use {F, of_ℕ, sub, div, le}

  abbrev pub no_container_rates : Text → ContainerRates fl
  no_container_rates id = record {
    id = id;
    rx_bytes_per_sec = of_ℕ 0;
    tx_bytes_per_sec = of_ℕ 0;
    rx_packets_per_sec = of_ℕ 0;
    tx_packets_per_sec = of_ℕ 0;
    read_bytes_per_sec = of_ℕ 0;
    write_bytes_per_sec = of_ℕ 0;
    reads_per_sec = of_ℕ 0;
    writes_per_sec = of_ℕ 0;
    cpu_throttled_per_sec = of_ℕ 0;
    cpu_throttled_sec_per_sec = of_ℕ 0;
  }

  abbrev pub rate : ℕ → ℕ → F → F
  rate now before elapsed_seconds = div (of_ℕ (sub64 now before)) elapsed_seconds

  unfoldable pub add_network_rates :
      ContainerInterface → ContainerInterface → F → ContainerRates fl → ContainerRates fl
  unfolding network_forward
  add_network_rates now before elapsed_seconds rates =
      if network_forward now before
      then record rates {
        rx_bytes_per_sec = rate now.rx_bytes before.rx_bytes elapsed_seconds;
        tx_bytes_per_sec = rate now.tx_bytes before.tx_bytes elapsed_seconds;
        rx_packets_per_sec = rate now.rx_packets before.rx_packets elapsed_seconds;
        tx_packets_per_sec = rate now.tx_packets before.tx_packets elapsed_seconds;
      }
      else rates

  unfoldable pub add_io_rates :
      ContainerBlockIo → ContainerBlockIo → F → ContainerRates fl → ContainerRates fl
  unfolding io_forward
  add_io_rates now before elapsed_seconds rates =
      if io_forward now before
      then record rates {
        read_bytes_per_sec = rate now.read_bytes before.read_bytes elapsed_seconds;
        write_bytes_per_sec = rate now.write_bytes before.write_bytes elapsed_seconds;
        reads_per_sec = rate now.reads before.reads elapsed_seconds;
        writes_per_sec = rate now.writes before.writes elapsed_seconds;
      }
      else rates

  unfoldable pub throttle_forward : ContainerCpu fl → ContainerCpu fl → Bool
  throttle_forward now before =
      leb before.throttled_periods now.throttled_periods
      && le before.throttled_seconds now.throttled_seconds

  unfoldable pub add_throttle_rates :
      ContainerCpu fl → ContainerCpu fl → F → ContainerRates fl → ContainerRates fl
  unfolding throttle_forward
  add_throttle_rates now before elapsed_seconds rates =
      if throttle_forward now before
      then record rates {
        cpu_throttled_per_sec = rate now.throttled_periods before.throttled_periods elapsed_seconds;
        cpu_throttled_sec_per_sec =
            div (sub now.throttled_seconds before.throttled_seconds) elapsed_seconds;
      }
      else rates

  unfoldable pub container_rates_since : Container fl → Container fl → F → ContainerRates fl
  unfolding add_network_rates add_io_rates add_throttle_rates totals block_io_totals eqb
  container_rates_since c prev elapsed_seconds =
      if le elapsed_seconds (of_ℕ 0) || not (eqb c.id prev.id)
      then no_container_rates c.id
      else add_throttle_rates c.cpu prev.cpu elapsed_seconds (
          add_io_rates (block_io_totals c.block_io (device_of [] 0 0))
            (block_io_totals prev.block_io (device_of [] 0 0)) elapsed_seconds
            (add_network_rates (totals c.network) (totals prev.network) elapsed_seconds
              (no_container_rates c.id)))
