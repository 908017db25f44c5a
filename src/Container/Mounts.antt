-- ===== src/Container/Mounts.antt =====
-- container.go and container_layer.go: the storage mounted in a container, and its writable layer.
pub mod Storage
use systats.Config.{SizeUnit}
use systats.Container.Types.{ContainerMount}
use systats.Disk.{MountEntry, excluded_fs_type, read_mounts, unescape_mount_field}
use systats.Go.Float.{Float64}
use systats.Go.Os.{Os, Statfs}
use systats.Go.Outcome.{Outcome, ok}
use systats.Go.Paths
use systats.Go.Strconv.{itoa}
use systats.Go.Strings.{fields, lines, split, has_prefix, trim_prefix}
use systats.Go.Words.{sub64, mul64}
use systats.Prelude.Int.{ℤ}
use systats.Prelude.Text.{Text, codes, eqb}
use systats.Prelude.{
  ℕ, Bool, true, false, not, ◌&&◌, ◌||◌, ◌==◌, Option, none, some, List, [], ◌∷◌, ◌++◌,
  if◌then◌else◌,
}

-- Whether the text is one of the list.
unfoldable pub is_one_of : List Text → Text → Bool
is_one_of [] s = false
is_one_of (x ∷ xs) s = eqb x s || is_one_of xs s

abbrev pub pseudo_fs_types : List Text
pseudo_fs_types =
    codes "proc"
    ∷ codes "sysfs"
    ∷ codes "cgroup"
    ∷ codes "cgroup2"
    ∷ codes "devpts"
    ∷ codes "mqueue"
    ∷ codes "securityfs"
    ∷ codes "debugfs"
    ∷ codes "tracefs"
    ∷ codes "pstore"
    ∷ codes "bpf"
    ∷ codes "fusectl"
    ∷ codes "configfs"
    ∷ codes "hugetlbfs"
    ∷ codes "autofs"
    ∷ codes "binfmt_misc"
    ∷ codes "nsfs"
    ∷ codes "rpc_pipefs"
    ∷ []

abbrev pub runtime_file_mounts : List Text
runtime_file_mounts =
    codes "/etc/hosts"
    ∷ codes "/etc/hostname"
    ∷ codes "/etc/resolv.conf"
    ∷ codes "/run/.containerenv"
    ∷ codes "/.dockerenv"
    ∷ []

-- The mount point is the directory, or below it.
unfoldable pub is_under : Text → Text → Bool
unfolding has_prefix
is_under prefix mount_point = eqb mount_point prefix || has_prefix mount_point (prefix ++ codes "/")

unfoldable pub is_container_storage_mount : MountEntry → Bool
unfolding is_one_of is_under excluded_fs_type eqb
is_container_storage_mount m = not (
    is_one_of pseudo_fs_types m.fs_type
    || excluded_fs_type m.fs_type
    || is_one_of runtime_file_mounts m.mount_point
    || is_under (codes "/proc") m.mount_point
    || is_under (codes "/sys") m.mount_point
    || is_under (codes "/dev") m.mount_point)

-- The first option that names the upper directory.
unfoldable pub find_upperdir : List Text → Option Text
unfolding has_prefix trim_prefix unescape_mount_field
find_upperdir [] = none
find_upperdir (opt ∷ opts) =
    if has_prefix opt (codes "upperdir=")
    then some (unescape_mount_field (trim_prefix opt (codes "upperdir=")))
    else find_upperdir opts

unfoldable pub upperdir_of_line : List Text → Option Text
unfolding find_upperdir split
upperdir_of_line (device ∷ mount_point ∷ fs_type ∷ options ∷ rest) =
    if not (eqb mount_point (codes "/")) || not (eqb fs_type (codes "overlay"))
    then none
    else find_upperdir (split options b',')
upperdir_of_line _ = none

unfoldable pub upperdir_of_lines : List Text → Text
unfolding upperdir_of_line
upperdir_of_lines [] = []
upperdir_of_lines (line ∷ rest) = elim (upperdir_of_line (fields line)) [
  | some upper ↦ upper
  | none ↦ upperdir_of_lines rest
]

unfoldable pub overlay_upper_dir : Text → Text
unfolding upperdir_of_lines fields lines
overlay_upper_dir mounts = upperdir_of_lines (lines mounts)

module _ (fl : Float64) where
  open fl use {F, of_ℕ, div}

  abbrev unread_mount : MountEntry → SizeUnit → ContainerMount fl
  unread_mount m unit = record {
    mount_point = m.mount_point;
    device = m.device;
    fs_type = m.fs_type;
    total = of_ℕ 0;
    used = of_ℕ 0;
    available = of_ℕ 0;
    unit = unit;
    inodes = 0;
    inodes_used = 0;
    inodes_available = 0;
    accessible = false;
  }

  -- The figures of a mount that could be statted.
  unfoldable pub container_mount_of : MountEntry → SizeUnit → F → Statfs → ContainerMount fl
  container_mount_of m unit bytes_per stat =
      let size = mul64 stat.blocks stat.bsize in
      let free = mul64 stat.bfree stat.bsize in
      record (unread_mount m unit) {
        total = div (of_ℕ size) bytes_per;
        used = div (of_ℕ (sub64 size free)) bytes_per;
        available = div (of_ℕ (mul64 stat.bavail stat.bsize)) bytes_per;
        inodes = stat.files;
        inodes_used = sub64 stat.files stat.ffree;
        inodes_available = stat.ffree;
        accessible = true;
      }

  abbrev mount_shown : MountEntry → SizeUnit → F → Option Statfs → List (ContainerMount fl)
  mount_shown m unit bytes_per none = unread_mount m unit ∷ []
  mount_shown m unit bytes_per (some stat) =
      if stat.blocks == 0 then [] else container_mount_of m unit bytes_per stat ∷ []

  unfoldable pub container_mounts :
      Os → Text → SizeUnit → F → List MountEntry → List (ContainerMount fl)
  unfolding is_container_storage_mount container_mount_of
  container_mounts os pid_dir unit bytes_per [] = []
  container_mounts os pid_dir unit bytes_per (m ∷ ms) =
      (if is_container_storage_mount m
        then mount_shown m unit bytes_per
            (os.statfs (Paths.join (pid_dir ∷ codes "root" ∷ m.mount_point ∷ [])))
        else [])
      ++ container_mounts os pid_dir unit bytes_per ms

  unfoldable pub read_container_mounts : Os → Text → ℤ → SizeUnit → F → List (ContainerMount fl)
  unfolding container_mounts itoa read_mounts
  read_container_mounts os proc_path pid unit bytes_per =
      let pid_dir = Paths.join (proc_path ∷ itoa pid ∷ []) in
      elim (read_mounts os (Paths.join (pid_dir ∷ codes "mounts" ∷ []))) [
        | ok mounts ↦ container_mounts os pid_dir unit bytes_per mounts
        | _ ↦ []
      ]
