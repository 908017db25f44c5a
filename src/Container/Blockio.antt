-- ===== src/Container/Blockio.antt =====
-- container.go: block I/O of a container, from io.stat (v2) or blkio.throttle (v1).
pub mod Throttle
use systats.Cgroup.{CgroupVersion, CgroupDirs, is_v2}
use systats.Container.Types.{ContainerBlockIo}
use systats.Fileops.{read_file, read_file_with_error}
use systats.Go.Os.{Os}
use systats.Go.Outcome.{Outcome, ok}
use systats.Go.Paths
use systats.Go.Strconv.{Parsed, parsed, parse_uint, format_uint}
use systats.Go.Strings.{fields, lines, cut}
use systats.Go.Words.{add64}
use systats.Prelude.Text.{Text, codes, eqb}
use systats.Prelude.{ℕ, Bool, Option, none, some, List, [], ◌∷◌, ◌++◌, if◌then◌else◌}
use systats.Stats.{Dict, lookup}

abbrev pub device_of : Text → ℕ → ℕ → ContainerBlockIo
device_of device major minor = record {
  device = device;
  major = major;
  minor = minor;
  read_bytes = 0;
  write_bytes = 0;
  reads = 0;
  writes = 0;
}

abbrev both_parsed : Parsed ℕ → Parsed ℕ → Option (ℕ × ℕ)
both_parsed (parsed major) (parsed minor) = some (major, minor)
both_parsed _ _ = none

-- "major:minor"
unfoldable pub parse_dev_num : Text → Option (ℕ × ℕ)
unfolding cut parse_uint
parse_dev_num s = elim (cut s b':') [
  | none ↦ none
  | some (a, b) ↦ both_parsed (parse_uint a) (parse_uint b)
]

unfoldable pub block_io_totals : List ContainerBlockIo → ContainerBlockIo → ContainerBlockIo
block_io_totals [] t = t
block_io_totals (d ∷ ds) t = block_io_totals ds (record t {
  read_bytes = add64 t.read_bytes d.read_bytes;
  write_bytes = add64 t.write_bytes d.write_bytes;
  reads = add64 t.reads d.reads;
  writes = add64 t.writes d.writes;
})

unfoldable pub set_io_stat : Text → ℕ → ContainerBlockIo → ContainerBlockIo
unfolding eqb
set_io_stat key n d =
    if eqb key (codes "rbytes")
    then record d { read_bytes = n }
    else if eqb key (codes "wbytes")
    then record d { write_bytes = n }
    else if eqb key (codes "rios")
    then record d { reads = n }
    else if eqb key (codes "wios")
    then record d { writes = n }
    else d

abbrev set_parsed_stat : Text → Parsed ℕ → ContainerBlockIo → ContainerBlockIo
set_parsed_stat key (parsed n) d = set_io_stat key n d
set_parsed_stat key _ d = d

unfoldable pub io_stat_field : Text → ContainerBlockIo → ContainerBlockIo
unfolding set_io_stat cut
io_stat_field kv d = elim (cut kv b'=') [
  | none ↦ d
  | some (key, value) ↦ set_parsed_stat key (parse_uint value) d
]

unfoldable pub io_stat_fields : List Text → ContainerBlockIo → ContainerBlockIo
io_stat_fields [] d = d
io_stat_fields (kv ∷ kvs) d = io_stat_fields kvs (io_stat_field kv d)

abbrev io_stat_device : Option (ℕ × ℕ) → List Text → List ContainerBlockIo
io_stat_device none kvs = []
io_stat_device (some (major, minor)) kvs = io_stat_fields kvs (device_of [] major minor) ∷ []

unfoldable pub io_stat_line : List Text → List ContainerBlockIo
unfolding parse_dev_num
io_stat_line (dev ∷ kv ∷ kvs) = io_stat_device (parse_dev_num dev) (kv ∷ kvs)
io_stat_line _ = []

unfoldable pub io_stat_lines : List Text → List ContainerBlockIo
unfolding io_stat_line
io_stat_lines [] = []
io_stat_lines (line ∷ rest) = io_stat_line (fields line) ++ io_stat_lines rest

unfoldable pub parse_io_stat : Text → List ContainerBlockIo
unfolding io_stat_lines io_stat_fields io_stat_field fields lines
parse_io_stat content = io_stat_lines (lines content)

-- `byDev` and `order` in one: the devices in the order of their first line, each under its text.
abbrev pub Devices : Type 0
Devices = List (Text × ContainerBlockIo)

-- `get`: the devices with `dev` among them, or none for the nil of a text that is no number pair.
unfoldable pub get_device : Text → Devices → Option (Devices × ContainerBlockIo)
unfolding lookup parse_dev_num
get_device dev devices = elim (lookup dev devices) [
  | some d ↦ some (devices, d)
  | none ↦ elim (parse_dev_num dev) [
    | none ↦ none
    | some (major, minor) ↦ let d = device_of [] major minor in some (devices ++ (dev, d) ∷ [], d)
  ]
]

-- The write through the pointer that `get` gave.
unfoldable pub store_device : Text → ContainerBlockIo → Devices → Devices
store_device dev d [] = []
store_device dev d ((k, e) ∷ devices) =
    if eqb k dev then (k, d) ∷ devices else (k, e) ∷ store_device dev d devices

-- The two uses of `apply` differ in the fields that they set.
abbrev pub Setter : Type 0
Setter = ContainerBlockIo → ℕ → ContainerBlockIo

abbrev set_operation : Text → ℕ → Setter → Setter → ContainerBlockIo → ContainerBlockIo
set_operation operation n read write d =
    if eqb operation (codes "Read")
    then read d n
    else if eqb operation (codes "Write")
    then write d n
    else d

unfoldable pub throttle_entry : Text → Text → Parsed ℕ → Setter → Setter → Devices → Devices
unfolding get_device store_device
throttle_entry dev operation (parsed n) read write devices = elim (get_device dev devices) [
  | none ↦ devices
  | some (devices', d) ↦ store_device dev (set_operation operation n read write d) devices'
]
throttle_entry dev operation _ read write devices = devices

unfoldable pub throttle_line : List Text → Setter → Setter → Devices → Devices
unfolding throttle_entry
throttle_line (dev ∷ operation ∷ value ∷ []) read write devices =
    throttle_entry dev operation (parse_uint value) read write devices
throttle_line _ read write devices = devices

unfoldable pub throttle_lines : List Text → Setter → Setter → Devices → Devices
unfolding throttle_line
throttle_lines [] read write devices = devices
throttle_lines (line ∷ rest) read write devices =
    throttle_lines rest read write (throttle_line (fields line) read write devices)

unfoldable pub devices_of : Devices → List ContainerBlockIo
devices_of [] = []
devices_of ((dev, d) ∷ devices) = d ∷ devices_of devices

unfoldable pub throttled : Text → Text → Devices
unfolding throttle_lines lines
throttled bytes_content ops_content =
    throttle_lines (lines ops_content) (λ d n. record d { reads = n })
      (λ d n. record d { writes = n })
      (throttle_lines (lines bytes_content) (λ d n. record d { read_bytes = n })
        (λ d n. record d { write_bytes = n }) [])

unfoldable pub parse_blkio_throttle : Text → Text → List ContainerBlockIo
unfolding throttled devices_of
parse_blkio_throttle bytes_content ops_content = devices_of (throttled bytes_content ops_content)

unfoldable pub read_first_existing : Os → Text → List Text → Text
unfolding read_file_with_error
read_first_existing os dir [] = []
read_first_existing os dir (n ∷ names) =
    elim (read_file_with_error os (Paths.join (dir ∷ n ∷ []))) [
      | ok content ↦ content
      | _ ↦ read_first_existing os dir names
    ]

-- fmt.Sprintf("%d:%d", major, minor)
abbrev dev_key : ContainerBlockIo → Text
dev_key d = format_uint d.major ++ (b':' ∷ format_uint d.minor)

abbrev or_key : Option Text → Text → Text
or_key (some name) key = name
or_key none key = key

unfoldable pub name_devices : Dict Text → List ContainerBlockIo → List ContainerBlockIo
unfolding format_uint
name_devices disk_names [] = []
name_devices disk_names (d ∷ ds) =
    record d { device = or_key (lookup (dev_key d) disk_names) (dev_key d) }
    ∷ name_devices disk_names ds

unfoldable pub read_container_block_io : Os → CgroupDirs → Dict Text → List ContainerBlockIo
unfolding parse_io_stat parse_blkio_throttle read_first_existing name_devices
read_container_block_io os dirs disk_names = name_devices disk_names (
    if is_v2 dirs.version
    then parse_io_stat (read_file os (Paths.join (dirs.blkio ∷ codes "io.stat" ∷ [])))
    else parse_blkio_throttle
        (read_first_existing os dirs.blkio (
          codes "blkio.throttle.io_service_bytes_recursive"
          ∷ codes "blkio.throttle.io_service_bytes"
          ∷ []))
        (read_first_existing os dirs.blkio
          (codes "blkio.throttle.io_serviced_recursive" ∷ codes "blkio.throttle.io_serviced" ∷ [])))
