-- ===== src/Dashboard/Samples.antt =====
-- example/collect.go: the rows of disks, devices and interfaces, and their rates between two samples.
use systats.Config.{SizeUnit, sleep_ctx}
use systats.Dashboard.Panels.{NetworkPanel, DiskPanel, DiskIoPanel}
use systats.Dashboard.Render.{Print, new_bar, size, bytes_human, rate}
use systats.Dashboard.Build.{percent_text}
use systats.Dashboard.Sort.{sort_by}
use systats.Disk.{Disk, convert}
use systats.Diskio.{DiskIo, rates_since}
use systats.Go.Float.{Float64}
use systats.Go.Outcome.{Outcome, ok, ◌>>=◌, ◌>>◌}
use systats.Go.Strconv.{format_uint}
use systats.Network.{Network, NetworkUsage}
use systats.Prelude.Int.{ℤ}
use systats.Prelude.Text.{Text, codes, eqb, text_ltb}
use systats.Prelude.{
  ℕ, ◌-◌, Bool, ◌||◌, Option, none, some, List, [], ◌∷◌, ◌++◌, ltb, if◌then◌else◌,
}
use systats.Stats.{Dict, lookup, put}

module _ (fl : Float64) (pr : Print fl) where
  open fl use {F, of_ℕ, mul, div, lt, le}
  open pr use {fixed}

  abbrev disk_pct : Disk fl → F
  disk_pct d =
      if lt (of_ℕ 0) d.usage.size then div (mul (of_ℕ 100) d.usage.used) d.usage.size else of_ℕ 0

  -- The row of a disk, by the disk in the unit that is shown. A disk that cannot be converted has
  -- none.
  unfoldable pub disk_rows : F → Outcome (Disk fl) → List (DiskPanel fl)
  unfolding new_bar size format_uint
  disk_rows pct (ok d) =
      record {
        device = d.file_system;
        mounted_on = d.mounted_on;
        fs_type = d.fs_type;
        used_pct = pct;
        bar = new_bar fl pr pct d.mounted_on d.usage.usage;
        used = size fl pr d.usage.used d.usage.unit;
        size = size fl pr d.usage.size d.usage.unit;
        available = size fl pr d.usage.available d.usage.unit;
        inode_pct = d.inodes.usage;
        inode_usage = format_uint d.inodes.used ++ (codes " / " ++ format_uint d.inodes.inodes);
      }
      ∷ []
  disk_rows pct _ = []

  unfoldable pub all_disk_rows : SizeUnit → List (Disk fl) → List (DiskPanel fl)
  unfolding disk_rows convert
  all_disk_rows unit [] = []
  all_disk_rows unit (d ∷ ds) = disk_rows (disk_pct d) (convert fl d unit) ++ all_disk_rows unit ds

  unfoldable pub build_disk_panels : List (Disk fl) → SizeUnit → List (DiskPanel fl)
  unfolding all_disk_rows sort_by
  build_disk_panels disks unit =
      sort_by (λ (a b : DiskPanel fl). lt b.used_pct a.used_pct) (all_disk_rows unit disks)

  -- The samples by device; a later one replaces an earlier.
  unfoldable pub by_device : List DiskIo → Dict DiskIo → Dict DiskIo
  unfolding put
  by_device [] prev = prev
  by_device (d ∷ ds) prev = by_device ds (put d.device d prev)

  -- The row of a device, where the first sample has it.
  unfoldable pub io_rows : F → DiskIo → Option DiskIo → List (DiskIoPanel fl)
  unfolding rates_since rate new_bar
  io_rows elapsed d none = []
  io_rows elapsed d (some p) =
      let r = rates_since fl d p elapsed in
      record {
        device = d.device;
        read_rate = rate fl pr r.read_bytes_per_sec;
        write_rate = rate fl pr r.write_bytes_per_sec;
        iops =
            fixed 0 r.reads_per_sec
            ++ (codes " r/s, " ++ (fixed 0 r.writes_per_sec ++ codes " w/s"));
        util = new_bar fl pr r.util_percent d.device (percent_text fl pr 1 r.util_percent);
        in_flight = d.io_in_progress;
      }
      ∷ []

  unfoldable pub all_io_rows : F → Dict DiskIo → List DiskIo → List (DiskIoPanel fl)
  unfolding io_rows lookup
  all_io_rows elapsed prev [] = []
  all_io_rows elapsed prev (d ∷ ds) =
      io_rows elapsed d (lookup d.device prev) ++ all_io_rows elapsed prev ds

  -- `done` is whether the context is done before the interval is over.
  unfoldable pub sample_disk_io :
      Outcome (List DiskIo) → Outcome (List DiskIo) → Bool → ℤ → F → Outcome (List (DiskIoPanel fl))
  unfolding sleep_ctx by_device all_io_rows sort_by
  sample_disk_io first second done interval elapsed = do
    before ← first
    sleep_ctx done interval >> (do
      after ← second
      ok (
          sort_by (λ (a b : DiskIoPanel fl). text_ltb a.device b.device)
            (all_io_rows elapsed (by_device before []) after)))

  -- A counter that went back gives 0.
  unfoldable pub delta_per_sec : ℕ → ℕ → F → F
  delta_per_sec now old seconds =
      if ltb now old || le seconds (of_ℕ 0) then of_ℕ 0 else div (of_ℕ (now - old)) seconds

  unfoldable pub by_interface : List Network → Dict NetworkUsage → Dict NetworkUsage
  unfolding put
  by_interface [] prev = prev
  by_interface (n ∷ ns) prev = by_interface ns (put n.interface n.usage prev)

  abbrev rate_text : Option ℕ → ℕ → F → Text
  unfolding delta_per_sec rate
  rate_text none now elapsed = codes "-"
  rate_text (some old) now elapsed =
      if lt (of_ℕ 0) elapsed then rate fl pr (delta_per_sec now old elapsed) else codes "-"

  abbrev rx_of : Option NetworkUsage → Option ℕ
  rx_of none = none
  rx_of (some u) = some u.rx_bytes

  abbrev tx_of : Option NetworkUsage → Option ℕ
  tx_of none = none
  tx_of (some u) = some u.tx_bytes

  unfoldable pub network_row : F → Option NetworkUsage → Network → NetworkPanel
  unfolding rate_text bytes_human format_uint eqb
  network_row elapsed old n = record {
    interface = n.interface;
    state = n.usage.state;
    up = eqb n.usage.state (codes "up");
    ip = n.ip;
    ipv6 = n.ipv6;
    mac = n.mac_address;
    rx_total = bytes_human fl pr (of_ℕ n.usage.rx_bytes);
    tx_total = bytes_human fl pr (of_ℕ n.usage.tx_bytes);
    packets =
        format_uint n.usage.rx_packets
        ++ (codes " rx / " ++ (format_uint n.usage.tx_packets ++ codes " tx"));
    rx_rate = rate_text (rx_of old) n.usage.rx_bytes elapsed;
    tx_rate = rate_text (tx_of old) n.usage.tx_bytes elapsed;
  }

  unfoldable pub network_rows : F → Dict NetworkUsage → List Network → List NetworkPanel
  unfolding network_row lookup
  network_rows elapsed prev [] = []
  network_rows elapsed prev (n ∷ ns) =
      network_row elapsed (lookup n.interface prev) n ∷ network_rows elapsed prev ns

  unfoldable pub sample_networks :
      Outcome (List Network) → Outcome (List Network) → Bool → ℤ → F → Outcome (List NetworkPanel)
  unfolding sleep_ctx by_interface network_rows sort_by
  sample_networks first second done interval elapsed = do
    before ← first
    sleep_ctx done interval >> (do
      after ← second
      ok (
          sort_by (λ (a b : NetworkPanel). text_ltb a.interface b.interface)
            (network_rows elapsed (by_interface before []) after)))
