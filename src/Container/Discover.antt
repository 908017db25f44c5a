-- ===== src/Container/Discover.antt =====
-- container_discover.go: the walk of the control group tree for containers. filepath.WalkDir goes
-- over the entries of os.ReadDir in their order.
pub mod Depth
use systats.Cgroup.{
  CgroupVersion, CgroupDirs, cgroup_v1, cgroup_v2, cgroup_dirs_for, v1_controller_dir_names,
}
use systats.Config.{SyStats}
use systats.Container.Patterns.{match_container_cgroup, pod_uid_from_cgroup_path}
use systats.Fileops.{read_file}
use systats.Go.Os.{Os, DirEntry}
use systats.Go.Paths
use systats.Go.Strconv.{Parsed, parsed, parse_int}
use systats.Go.Strings.{lines, trim_space}
use systats.Prelude.Int.{ℤ, pos}
use systats.Prelude.Text.{Text, codes}
use systats.Prelude.{
  ℕ, zero, suc, ◌-◌, Bool, true, false, Option, none, some, List, [], ◌∷◌, ◌++◌, ltb, if◌then◌else◌,
}
use systats.Stats.{Dict, lookup}

pub record ContainerRef : Type 0 where
  pub id : Text
  pub runtime : Text
  pub pod_uid : Text
  pub rel_path : Text
  pub dirs : CgroupDirs
  pub pid : ℤ

-- A positive number.
abbrev positive_pid : Parsed ℤ → Option ℤ
positive_pid (parsed (pos n)) = if ltb 0 n then some (pos n) else none
positive_pid _ = none

abbrev or_pid : Option ℤ → Option ℤ → Option ℤ
or_pid (some pid) other = some pid
or_pid none other = other

unfoldable pub first_pid_of : List Text → Option ℤ
unfolding trim_space parse_int
first_pid_of [] = none
first_pid_of (line ∷ rest) = or_pid (positive_pid (parse_int (trim_space line))) (first_pid_of rest)

abbrev pid_of_file : Option Text → Option ℤ
unfolding lines first_pid_of
pid_of_file none = none
pid_of_file (some content) = first_pid_of (lines content)

unfoldable pub first_pid : Os → Text → Option ℤ
unfolding pid_of_file
first_pid os procs_file = pid_of_file (os.read_file procs_file)

-- The entries of a directory, none where it cannot be read.
abbrev pub entries : Option (List DirEntry) → List DirEntry
entries none = []
entries (some es) = es

abbrev pub below : Text → Text → Text
below dir name = Paths.join (dir ∷ name ∷ [])

-- The first pid that `find` gives among the directories of a list.
unfoldable pub first_below : (Text → Option ℤ) → Text → List DirEntry → Option ℤ
first_below find dir [] = none
first_below find dir (e ∷ es) =
    if e.is_dir
    then or_pid (find (below dir e.name)) (first_below find dir es)
    else first_below find dir es

-- The walk of firstPidInSubtree, over at most `depth` levels of directories.
unfoldable pub first_pid_in_subtree : ℕ → Os → Text → Option ℤ
unfolding first_pid first_below
first_pid_in_subtree zero os dir = none
first_pid_in_subtree (suc depth) os dir =
    or_pid (first_pid os (below dir (codes "cgroup.procs")))
      (first_below (λ p. first_pid_in_subtree depth os p) dir (entries (os.read_dir dir)))

unfoldable pub ref_of :
    CgroupVersion → Text → Dict Text → Text → Text → Text → Option ℤ → List ContainerRef
unfolding cgroup_dirs_for pod_uid_from_cgroup_path
ref_of version root v1_names id runtime rel none = []
ref_of version root v1_names id runtime rel (some pid) =
    record {
      id = id;
      runtime = runtime;
      pod_uid = pod_uid_from_cgroup_path rel;
      rel_path = rel;
      dirs = cgroup_dirs_for version root rel v1_names;
      pid = pid;
    }
    ∷ []

-- What the walk finds in the directories of a list: `visit` is given the path and the relative path.
unfoldable pub visit_entries :
    (Text → Text → List ContainerRef) → Text → Text → List DirEntry → List ContainerRef
visit_entries visit dir rel [] = []
visit_entries visit dir rel (e ∷ es) =
    if e.is_dir
    then visit (below dir e.name) (rel ++ (b'/' ∷ e.name)) ++ visit_entries visit dir rel es
    else visit_entries visit dir rel es

-- maxContainerCgroupDepth
abbrev pub max_container_cgroup_depth : ℕ
max_container_cgroup_depth = 10

module _ (search_depth : ℕ) (os : Os) (version : CgroupVersion) (root : Text)
    (v1_names : Dict Text) where
  -- The walk below a directory that is no container; `levels` more levels are entered. A container
  -- is not descended into.
  unfoldable pub walk : ℕ → Text → Text → List ContainerRef
  unfolding visit_entries first_pid_in_subtree match_container_cgroup ref_of
  walk zero dir rel = []
  walk (suc levels) dir rel =
      visit_entries
        (λ p r. elim (match_container_cgroup r) [
          | some (id, runtime) ↦
              ref_of version root v1_names id runtime r (first_pid_in_subtree search_depth os p)
          | none ↦ walk levels p r
        ])
        dir rel (entries (os.read_dir dir))

abbrev or_no_dir : Option Text → Text
or_no_dir (some dir) = dir
or_no_dir none = []

-- The depth is how far below a container a process is looked for.
unfoldable pub discover_containers : ℕ → Os → SyStats → CgroupVersion → List ContainerRef
unfolding walk v1_controller_dir_names lookup read_file
discover_containers search_depth os systats cgroup_v1 =
    let root = systats.cgroup_root_path in
    let v1_names = v1_controller_dir_names (read_file os systats.self_cgroup_path) in
    walk search_depth os cgroup_v1 root v1_names max_container_cgroup_depth
      (below root (or_no_dir (lookup (codes "memory") v1_names))) []
discover_containers search_depth os systats version =
    walk search_depth os version systats.cgroup_root_path [] max_container_cgroup_depth
      systats.cgroup_root_path []
