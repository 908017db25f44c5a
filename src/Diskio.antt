-- ===== src/Diskio.antt =====
-- diskio.go: /proc/diskstats, and rates between two samples.
pub mod Rates
pub mod Lines
use systats.Config.{SyStats}
use systats.Fileops.{read_file_with_error}
use systats.Go.Float.{Float64}
use systats.Go.Os.{Os}
use systats.Go.Outcome.{Outcome, ok, ◌>>=◌, index}
use systats.Go.Strings.{fields, lines, has_prefix}
use systats.Go.Words.{sub64, mul64}
use systats.Prelude.Text.{Text, codes, eqb}
use systats.Prelude.{
  ℕ, ◌*◌, Bool, true, false, ◌&&◌, ◌||◌, List, [], ◌∷◌, ◌++◌, ltb, leb, if◌then◌else◌, length, drop,
  get_elem?,
}
use systats.Strops.{to_uint64}

abbrev pub disk_sector_size_bytes : ℕ
disk_sector_size_bytes = 512

pub record DiskIo : Type 0 where
  pub device : Text
  pub major : ℕ
  pub minor : ℕ
  pub reads_completed : ℕ
  pub reads_merged : ℕ
  pub bytes_read : ℕ
  pub read_time_ms : ℕ
  pub writes_completed : ℕ
  pub writes_merged : ℕ
  pub bytes_written : ℕ
  pub write_time_ms : ℕ
  pub io_in_progress : ℕ
  pub io_time_ms : ℕ
  pub weighted_io_time_ms : ℕ
  pub discards_completed : ℕ
  pub discards_merged : ℕ
  pub bytes_discarded : ℕ
  pub discard_time_ms : ℕ
  pub has_discard_stats : Bool
  pub flushes_completed : ℕ
  pub flush_time_ms : ℕ
  pub has_flush_stats : Bool
  pub time : ℕ

-- A sample with its identity, and every counter 0.
abbrev pub named : Text → ℕ → ℕ → ℕ → DiskIo
named device major minor now = record {
  device = device;
  major = major;
  minor = minor;
  reads_completed = 0;
  reads_merged = 0;
  bytes_read = 0;
  read_time_ms = 0;
  writes_completed = 0;
  writes_merged = 0;
  bytes_written = 0;
  write_time_ms = 0;
  io_in_progress = 0;
  io_time_ms = 0;
  weighted_io_time_ms = 0;
  discards_completed = 0;
  discards_merged = 0;
  bytes_discarded = 0;
  discard_time_ms = 0;
  has_discard_stats = false;
  flushes_completed = 0;
  flush_time_ms = 0;
  has_flush_stats = false;
  time = now;
}

unfoldable pub all_digits : Text → Bool
all_digits [] = true
all_digits (c ∷ s) = leb b'0' c && leb c b'9' && all_digits s

-- The rest of the name behind the prefix is one or more digits.
numbered : Text → Text → Bool
unfolding has_prefix all_digits
numbered prefix name =
    has_prefix name prefix
    && ltb (length prefix) (length name)
    && all_digits (drop (length prefix) name)

-- ^(loop|ram|zram|fd|sr)\d+$
unfoldable pub is_ignored_disk_device : Text → Bool
unfolding numbered
is_ignored_disk_device name =
    numbered (codes "loop") name
    || numbered (codes "ram") name
    || numbered (codes "zram") name
    || numbered (codes "fd") name
    || numbered (codes "sr") name

-- strops.ToUint64(f[i])
unfoldable pub counter : List Text → ℕ → Outcome ℕ
counter f i = do w ← index (get_elem? f i); to_uint64 w

-- strops.ToUint64(f[i]) * diskSectorSizeBytes
unfoldable pub sectors : List Text → ℕ → Outcome ℕ
sectors f i = do n ← counter f i; ok (mul64 n disk_sector_size_bytes)

unfoldable pub legacy_stats : List Text → DiskIo → Outcome DiskIo
legacy_stats f d = do
  reads_completed ← counter f 3
  bytes_read ← sectors f 4
  writes_completed ← counter f 5
  bytes_written ← sectors f 6
  ok (record d {
    reads_completed = reads_completed;
    bytes_read = bytes_read;
    writes_completed = writes_completed;
    bytes_written = bytes_written;
  })

unfoldable pub full_stats : List Text → DiskIo → Outcome DiskIo
full_stats f d = do
  reads_completed ← counter f 3
  reads_merged ← counter f 4
  bytes_read ← sectors f 5
  read_time_ms ← counter f 6
  writes_completed ← counter f 7
  writes_merged ← counter f 8
  bytes_written ← sectors f 9
  write_time_ms ← counter f 10
  io_in_progress ← counter f 11
  io_time_ms ← counter f 12
  weighted_io_time_ms ← counter f 13
  ok (record d {
    reads_completed = reads_completed;
    reads_merged = reads_merged;
    bytes_read = bytes_read;
    read_time_ms = read_time_ms;
    writes_completed = writes_completed;
    writes_merged = writes_merged;
    bytes_written = bytes_written;
    write_time_ms = write_time_ms;
    io_in_progress = io_in_progress;
    io_time_ms = io_time_ms;
    weighted_io_time_ms = weighted_io_time_ms;
  })

unfoldable pub discard_stats : List Text → DiskIo → Outcome DiskIo
discard_stats f d = do
  discards_completed ← counter f 14
  discards_merged ← counter f 15
  bytes_discarded ← sectors f 16
  discard_time_ms ← counter f 17
  ok (record d {
    has_discard_stats = true;
    discards_completed = discards_completed;
    discards_merged = discards_merged;
    bytes_discarded = bytes_discarded;
    discard_time_ms = discard_time_ms;
  })

unfoldable pub flush_stats : List Text → DiskIo → Outcome DiskIo
flush_stats f d = do
  flushes_completed ← counter f 18
  flush_time_ms ← counter f 19
  ok (record d {
    has_flush_stats = true;
    flushes_completed = flushes_completed;
    flush_time_ms = flush_time_ms;
  })

unfoldable pub discard_if : Bool → List Text → DiskIo → Outcome DiskIo
discard_if long f d = if long then discard_stats f d else ok d

unfoldable pub flush_if : Bool → List Text → DiskIo → Outcome DiskIo
flush_if long f d = if long then flush_stats f d else ok d

-- One line of a device that is not ignored.
unfoldable pub disk_stats : ℕ → List Text → Text → Outcome DiskIo
disk_stats now f name = do
  major ← counter f 0
  minor ← counter f 1
  let d = named name major minor now
  (if ltb (length f) 14 then legacy_stats f d else (do
    d1 ← full_stats f d
    d2 ← discard_if (leb 18 (length f)) f d1
    flush_if (leb 20 (length f)) f d2))

-- None or one sample.
unfoldable pub disk_stats_line : ℕ → List Text → Outcome (List DiskIo)
disk_stats_line now f = if ltb (length f) 7 then ok [] else (do
  name ← index (get_elem? f 2)
  if is_ignored_disk_device name then ok [] else (do d ← disk_stats now f name; ok (d ∷ [])))

unfoldable pub disk_stats_lines : ℕ → List Text → List DiskIo → Outcome (List DiskIo)
disk_stats_lines now [] out = ok out
disk_stats_lines now (line ∷ rest) out = do
  ds ← disk_stats_line now (fields line)
  disk_stats_lines now rest (out ++ ds)

unfoldable pub parse_disk_stats : ℕ → Text → Outcome (List DiskIo)
unfolding disk_stats_lines disk_stats_line disk_stats legacy_stats full_stats discard_if flush_if
    discard_stats flush_stats counter sectors to_uint64 is_ignored_disk_device fields lines
parse_disk_stats now content = disk_stats_lines now (lines content) []

unfoldable pub get_disk_io : Os → SyStats → Outcome (List DiskIo)
unfolding parse_disk_stats
get_disk_io os systats = do
  content ← read_file_with_error os systats.disk_stats_path
  parse_disk_stats os.now content

module _ (fl : Float64) where
  open fl use {F, of_ℕ, mul, div, le}

  pub record DiskIoRates : Type 0 where
    pub device : Text
    pub reads_per_sec : F
    pub writes_per_sec : F
    pub read_bytes_per_sec : F
    pub write_bytes_per_sec : F
    pub util_percent : F

  abbrev pub no_rates : Text → DiskIoRates
  no_rates device = record {
    device = device;
    reads_per_sec = of_ℕ 0;
    writes_per_sec = of_ℕ 0;
    read_bytes_per_sec = of_ℕ 0;
    write_bytes_per_sec = of_ℕ 0;
    util_percent = of_ℕ 0;
  }

  -- float64(now - then) / elapsedSeconds
  abbrev pub rate : ℕ → ℕ → F → F
  rate now before elapsed_seconds = div (of_ℕ (sub64 now before)) elapsed_seconds

  unfoldable pub rates_since : DiskIo → DiskIo → F → DiskIoRates
  rates_since d prev elapsed_seconds =
      if le elapsed_seconds (of_ℕ 0)
      then no_rates d.device
      else if ltb d.reads_completed prev.reads_completed
          || ltb d.writes_completed prev.writes_completed
          || ltb d.bytes_read prev.bytes_read
          || ltb d.bytes_written prev.bytes_written
          || ltb d.io_time_ms prev.io_time_ms
      then no_rates d.device
      else record {
        device = d.device;
        reads_per_sec = rate d.reads_completed prev.reads_completed elapsed_seconds;
        writes_per_sec = rate d.writes_completed prev.writes_completed elapsed_seconds;
        read_bytes_per_sec = rate d.bytes_read prev.bytes_read elapsed_seconds;
        write_bytes_per_sec = rate d.bytes_written prev.bytes_written elapsed_seconds;
        util_percent =
            mul (div (of_ℕ (sub64 d.io_time_ms prev.io_time_ms)) (mul elapsed_seconds (of_ℕ 1000)))
              (of_ℕ 100);
      }
