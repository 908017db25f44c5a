-- ===== src/Container/Discover/Depth.antt =====
-- container_discover.go: the depth of the search for a process, and the containers found.
use systats.Cgroup.{CgroupVersion, cgroup_v1, cgroup_dirs_for, v1_controller_dir_names}
use systats.Config.{SyStats}
use systats.Container.Discover.{ContainerRef, entries, below}
use systats.Container.Patterns.{match_container_cgroup, pod_uid_from_cgroup_path}
use systats.Fileops.{read_file}
use systats.Go.Os.{Os, DirEntry}
use systats.Prelude.Text.{Text}
use systats.Prelude.{ℕ, zero, suc, ◌≡◌, true, false, some, List, [], ◌∷◌, All}
use systats.Stats.{Dict}

-- The directories of a list of entries have a property.
abbrev AllBelow : (Text → Type 0) → Text → List DirEntry → Type 0
AllBelow P dir [] = Unit
AllBelow P dir (e ∷ es) =
    (elim e.is_dir [ true ↦ P (below dir e.name) | false ↦ Unit ]) × AllBelow P dir es

-- A directory with less than that many levels of directories below it.
abbrev pub IsShallow : ℕ → Os → Text → Type 0
IsShallow zero os dir = ⊥
IsShallow (suc depth) os dir = AllBelow (IsShallow depth os) dir (entries (os.read_dir dir))

-- What is known of a container that the walk finds.
pub record IsRef (version : CgroupVersion) (root : Text) (v1_names : Dict Text) (r : ContainerRef)
    : Type 0 where
  pub matched : match_container_cgroup r.rel_path ≡ some (r.id, r.runtime)
  pub uid : r.pod_uid ≡ pod_uid_from_cgroup_path r.rel_path
  pub located : r.dirs ≡ cgroup_dirs_for version root r.rel_path v1_names

module _ (search_depth : ℕ) (os : Os) (version : CgroupVersion) (root : Text)
    (v1_names : Dict Text) where
  abbrev AreRefs : List ContainerRef → Type 0
  AreRefs = All (IsRef version root v1_names)

-- The directory names of a version.
abbrev pub v1_names_of : Os → SyStats → CgroupVersion → Dict Text
v1_names_of os systats cgroup_v1 = v1_controller_dir_names (read_file os systats.self_cgroup_path)
v1_names_of os systats _ = []
