-- ===== src/Diskio/Lines.antt =====
-- diskio.go: the samples of /proc/diskstats against its lines.
use systats.Diskio.{DiskIo, is_ignored_disk_device}
use systats.Go.Outcome.{◌>>=◌}
use systats.Prelude.Text.{Text}
use systats.Prelude.{ℕ, ◌≤◌, ◌≡◌, false, List, leb, length}

-- The same device and flags as before.
record IsSame (d d' : DiskIo) : Type 0 where
  device : d'.device ≡ d.device
  discard : d'.has_discard_stats ≡ d.has_discard_stats
  flush : d'.has_flush_stats ≡ d.has_flush_stats

-- The sample of one line: its name, and the statistics that its length promises.
pub record IsOfLine (n : ℕ) (name : Text) (d : DiskIo) : Type 0 where
  pub device : d.device ≡ name
  pub discard : d.has_discard_stats ≡ leb 18 n
  pub flush : d.has_flush_stats ≡ leb 20 n

-- A sample is one of a device that is not ignored, and its line has at least seven fields.
pub record IsListed (d : DiskIo) : Type 0 where
  pub not_ignored : is_ignored_disk_device d.device ≡ false
  pub line : List Text
  pub wide : 7 ≤ length line
  pub of_line : IsOfLine (length line) d.device d
