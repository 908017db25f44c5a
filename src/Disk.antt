-- ===== src/Disk.antt =====
-- disk.go: mounted file systems, their usage, and the conversion of units.
pub mod Mounts
use systats.Config.{SyStats, SizeUnit, byte, kilobyte, megabyte, gigabyte}
use systats.Fileops.{read_file_with_error}
use systats.Go.Float.{Float64}
use systats.Go.Os.{Os, Statfs}
use systats.Go.Outcome.{Outcome, ok, fail, not_from_unit, not_to_unit, ◌>>=◌}
use systats.Go.Strconv.{itoa}
use systats.Go.Strings.{fields, lines}
use systats.Go.Words.{add64, sub64, mul64}
use systats.Prelude.Text.{Text, codes, eqb}
use systats.Prelude.{
  ℕ, ◌*◌, Bool, true, false, ◌||◌, Option, none, some, List, [], ◌∷◌, ◌++◌, ltb, ◌==◌,
  if◌then◌else◌,
}

pub record MountEntry : Type 0 where
  pub device : Text
  pub mount_point : Text
  pub fs_type : Text

-- The map's keys.
unfoldable pub excluded_fs_type : Text → Bool
unfolding eqb
excluded_fs_type t = eqb t (codes "tmpfs") || eqb t (codes "devtmpfs") || eqb t (codes "udev")

-- One step of the replacer `\040` → space, `\011` → tab, `\012` → newline, `\134` → backslash.
abbrev pub escaped_char : ℕ → ℕ → ℕ → Option ℕ
escaped_char a b c =
    if a == b'0'
    then (if b == b'4'
        then (if c == b'0' then some 32 else none)
        else if b == b'1'
        then (if c == b'1' then some 9 else if c == b'2' then some 10 else none)
        else none)
    else if a == b'1'
    then (if b == b'3' then (if c == b'4' then some b'\\' else none) else none)
    else none

-- The escape at the head of the text, and what follows it.
abbrev pub escape_at : Text → Option ℕ
escape_at (s ∷ a ∷ b ∷ c ∷ rest) = if s == b'\\' then escaped_char a b c else none
escape_at _ = none

-- The first argument counts the characters of an escape that are still to be skipped.
unfoldable pub unescape_from : ℕ → Text → Text
unescape_from k [] = []
unescape_from (ℕ.suc k) (c ∷ s) = unescape_from k s
unescape_from ℕ.zero (c ∷ s) = elim (escape_at (c ∷ s)) [
  | some d ↦ d ∷ unescape_from 3 s
  | none ↦ c ∷ unescape_from 0 s
]

unfoldable pub unescape_mount_field : Text → Text
unfolding unescape_from
unescape_mount_field field = unescape_from 0 field

unfoldable pub mounts_line : List Text → List MountEntry → List MountEntry
mounts_line (device ∷ mount_point ∷ fs_type ∷ rest) entries =
    entries
    ++ record {
      device = unescape_mount_field device;
      mount_point = unescape_mount_field mount_point;
      fs_type = fs_type;
    }
      ∷ []
mounts_line _ entries = entries

unfoldable pub mounts_lines : List Text → List MountEntry → List MountEntry
mounts_lines [] entries = entries
mounts_lines (line ∷ rest) entries = mounts_lines rest (mounts_line (fields line) entries)

unfoldable pub parse_mounts : Text → List MountEntry
unfolding mounts_lines mounts_line unescape_mount_field fields lines
parse_mounts content = mounts_lines (lines content) []

unfoldable pub read_mounts : Os → Text → Outcome (List MountEntry)
unfolding parse_mounts
read_mounts os path = do content ← read_file_with_error os path; ok (parse_mounts content)

module _ (fl : Float64) where
  open fl use {F, of_ℕ, mul, div, ceil, to_int}

  pub record DiskUsage : Type 0 where
    pub size : F
    pub used : F
    pub available : F
    pub usage : Text
    pub unit : SizeUnit

  pub record InodeUsage : Type 0 where
    pub inodes : ℕ
    pub available : ℕ
    pub used : ℕ
    pub usage : Text

  pub record Disk : Type 0 where
    pub file_system : Text
    pub fs_type : Text
    pub mounted_on : Text
    pub usage : DiskUsage
    pub inodes : InodeUsage
    pub time : ℕ

  unfoldable pub usage_percent : ℕ → ℕ → Text
  unfolding itoa
  usage_percent used avail =
      let denom = add64 used avail in
      if denom == 0
      then codes "0%"
      else itoa (to_int (ceil (div (mul (of_ℕ 100) (of_ℕ used)) (of_ℕ denom)))) ++ codes "%"

  unfoldable pub disk_of : ℕ → MountEntry → Statfs → Disk
  disk_of now m stat =
      let size = mul64 stat.blocks stat.bsize in
      let free = mul64 stat.bfree stat.bsize in
      let available = mul64 stat.bavail stat.bsize in
      let used = sub64 size free in
      let inodes_used = sub64 stat.files stat.ffree in
      record {
        file_system = m.device;
        fs_type = m.fs_type;
        mounted_on = m.mount_point;
        usage = record {
          size = of_ℕ size;
          used = of_ℕ used;
          available = of_ℕ available;
          usage = usage_percent used available;
          unit = byte;
        };
        inodes = record {
          inodes = stat.files;
          used = inodes_used;
          available = stat.ffree;
          usage = usage_percent inodes_used stat.ffree;
        };
        time = now;
      }

  abbrev shown : ℕ → MountEntry → Option Statfs → List Disk
  shown now m none = []
  shown now m (some stat) = if stat.blocks == 0 then [] else disk_of now m stat ∷ []

  unfoldable pub disks_of : Os → List MountEntry → List Disk → List Disk
  disks_of os [] output = output
  disks_of os (m ∷ rest) output = disks_of os rest (
      if excluded_fs_type m.fs_type
      then output
      else output ++ shown os.now m (os.statfs m.mount_point))

  unfoldable pub get_disks : Os → SyStats → Outcome (List Disk)
  unfolding disks_of disk_of usage_percent excluded_fs_type
  get_disks os systats = do mounts ← read_mounts os systats.mounts_path; ok (disks_of os mounts [])

  unfoldable pub bytes_per_unit : SizeUnit → Option F
  unfolding eqb
  bytes_per_unit unit =
      if eqb unit byte
      then some (of_ℕ 1)
      else if eqb unit kilobyte
      then some (of_ℕ 1024)
      else if eqb unit megabyte
      then some (of_ℕ (1024 * 1024))
      else if eqb unit gigabyte
      then some (of_ℕ (1024 * 1024 * 1024))
      else none

  -- `d` in the unit, and the error that is returned beside it.
  unfoldable pub convert : Disk → SizeUnit → Outcome Disk
  unfolding bytes_per_unit
  convert d unit = elim (bytes_per_unit d.usage.unit) [
    | none ↦ fail (not_from_unit d.usage.unit)
    | some from ↦ elim (bytes_per_unit unit) [
      | none ↦ fail (not_to_unit unit)
      | some to ↦
          (let factor = div from to in
            ok (record d {
              usage = record {
                size = mul d.usage.size factor;
                used = mul d.usage.used factor;
                available = mul d.usage.available factor;
                usage = d.usage.usage;
                unit = unit;
              };
            }))
    ]
  ]
