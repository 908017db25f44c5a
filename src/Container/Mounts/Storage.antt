-- ===== src/Container/Mounts/Storage.antt =====
-- container.go: the mounts that are reported of a container.
use systats.Container.Mounts.{is_one_of, pseudo_fs_types, runtime_file_mounts, is_under}
use systats.Container.Types.{ContainerMount}
use systats.Disk.{excluded_fs_type}
use systats.Go.Float.{Float64}
use systats.Go.Os.{Os}
use systats.Go.Outcome.{Outcome}
use systats.Go.Paths
use systats.Prelude.Text.{Text, codes}
use systats.Prelude.{◌≡◌, false, List, All}

-- Neither the kernel's or the runtime's own file system, nor one of its places.
pub record IsStorage (fs_type mount_point : Text) : Type 0 where
  pub no_pseudo : is_one_of pseudo_fs_types fs_type ≡ false
  pub no_excluded : excluded_fs_type fs_type ≡ false
  pub no_runtime_file : is_one_of runtime_file_mounts mount_point ≡ false
  pub no_proc : is_under (codes "/proc") mount_point ≡ false
  pub no_sys : is_under (codes "/sys") mount_point ≡ false
  pub no_dev : is_under (codes "/dev") mount_point ≡ false

module _ (fl : Float64) where
  abbrev pub AreStorage : List (ContainerMount fl) → Type 0
  AreStorage = All (λ m. IsStorage m.fs_type m.mount_point)
