-- ===== src/Cgroup.antt =====
-- cgroup.go: which cgroup layout is in use, where the process's own cgroup lies, and the
-- key/value files that cgroups share.
pub mod Self
pub mod KeyValue
use systats.Config.{SyStats}
use systats.Fileops.{is_file, read_file_with_error}
use systats.Go.Os.{Os}
use systats.Go.Outcome.{Outcome, ok, fail, panic, ◌>>=◌, bad_self_cgroup, controller_not_found}
use systats.Go.Paths
use systats.Go.Strconv.{Parsed, parsed, parse_uint}
use systats.Go.Strings.{split, split3, fields, trim_space, lines}
use systats.Prelude.{
  ℕ, Bool, true, false, not, ◌&&◌, Option, none, some, List, [], ◌∷◌, ◌++◌, ◌≡◌, refl,
  if◌then◌else◌,
}
use systats.Prelude.Text.{Text, codes, eqb}
use systats.Stats.{Dict, lookup, put}

pub data CgroupVersion : Type 0 where
  cgroup_none cgroup_v1 cgroup_v2 : CgroupVersion

abbrev pub is_v2 : CgroupVersion → Bool
is_v2 cgroup_v2 = true
is_v2 _ = false

unfoldable pub detect_cgroup_version : Os → Text → CgroupVersion
detect_cgroup_version os root =
    if is_file os (Paths.join (root ∷ codes "cgroup.controllers" ∷ []))
    then cgroup_v2
    else if is_file os (Paths.join (root ∷ codes "memory" ∷ codes "memory.limit_in_bytes" ∷ []))
    then cgroup_v1
    else cgroup_none

abbrev third_of : List Text → Outcome Text
third_of (a ∷ b ∷ c ∷ []) = if eqb a (codes "0") then ok c else fail bad_self_cgroup
third_of _ = fail bad_self_cgroup

unfoldable pub parse_self_cgroup_v2 : Text → Outcome Text
unfolding split3 trim_space
parse_self_cgroup_v2 content = third_of (split3 (trim_space content) b':')

unfoldable pub has_element : List Text → Text → Bool
has_element [] c = false
has_element (x ∷ xs) c = if eqb x c then true else has_element xs c

-- The path and the controller list, if the line's hierarchy has the controller.
unfoldable pub match_v1_line : List Text → Text → Option (Text × Text)
unfolding has_element
match_v1_line (id ∷ list ∷ path ∷ []) controller =
    if has_element (split list b',') controller then some (path, list) else none
match_v1_line _ controller = none

unfoldable pub find_v1 : List Text → Text → Outcome (Text × Text)
find_v1 [] controller = fail (controller_not_found controller)
find_v1 (line ∷ rest) controller = elim (match_v1_line (split3 (trim_space line) b':') controller) [
  | some found ↦ ok found
  | none ↦ find_v1 rest controller
]

unfoldable pub parse_self_cgroup_v1 : Text → Text → Outcome (Text × Text)
unfolding find_v1 match_v1_line split split3 trim_space lines
parse_self_cgroup_v1 content controller = find_v1 (lines content) controller

abbrev or_none {ℓ} : {A : Type ℓ} → Outcome A → Option A
or_none (ok a) = some a
or_none _ = none

-- The directory, or none for `ok == false`.
resolve_in : SyStats → CgroupVersion → Text → Text → Option Text
resolve_in systats cgroup_v2 controller self_cgroup = or_none (do
  cg_path ← parse_self_cgroup_v2 self_cgroup
  ok (Paths.join (systats.cgroup_root_path ∷ cg_path ∷ [])))
resolve_in systats cgroup_v1 controller self_cgroup =
    elim (parse_self_cgroup_v1 self_cgroup controller) [
      | ok (cg_path, controller_dir) ↦
          some (Paths.join (systats.cgroup_root_path ∷ controller_dir ∷ cg_path ∷ []))
      | _ ↦ none
    ]
resolve_in systats cgroup_none controller self_cgroup = none

unfoldable pub resolve_cgroup_controller_path : Os → SyStats → CgroupVersion → Text → Option Text
unfolding resolve_in
resolve_cgroup_controller_path os systats version controller =
    elim (read_file_with_error os systats.self_cgroup_path) [
      | ok self_cgroup ↦ resolve_in systats version controller self_cgroup
      | _ ↦ none
    ]

abbrev pub default_v1_controller_dirs : Dict Text
default_v1_controller_dirs =
    (codes "memory", codes "memory")
    ∷ (codes "cpu", codes "cpu,cpuacct")
    ∷ (codes "cpuacct", codes "cpu,cpuacct")
    ∷ (codes "pids", codes "pids")
    ∷ (codes "blkio", codes "blkio")
    ∷ (codes "freezer", codes "freezer")
    ∷ []

-- The controllers of one line that the map knows now lie in `dir`.
unfoldable pub name_controllers : Text → List Text → Dict Text → Dict Text
name_controllers dir [] names = names
name_controllers dir (c ∷ cs) names =
    name_controllers dir cs (elim (lookup c names) [ some _ ↦ put c dir names | none ↦ names ])

unfoldable pub name_line : List Text → Dict Text → Dict Text
unfolding name_controllers
name_line (id ∷ list ∷ path ∷ []) names =
    if eqb list [] then names else name_controllers list (split list b',') names
name_line _ names = names

unfoldable pub name_lines : List Text → Dict Text → Dict Text
name_lines [] names = names
name_lines (line ∷ rest) names = name_lines rest (name_line (split3 (trim_space line) b':') names)

unfoldable pub v1_controller_dir_names : Text → Dict Text
unfolding name_lines name_line
v1_controller_dir_names content = name_lines (lines content) default_v1_controller_dirs

pub record CgroupDirs : Type 0 where
  pub version : CgroupVersion
  pub memory : Text
  pub cpu : Text
  pub cpuacct : Text
  pub pids : Text
  pub blkio : Text
  pub freezer : Text

-- A missing key of a Go map of strings reads as "".
abbrev or_blank : Option Text → Text
or_blank (some s) = s
or_blank none = []

abbrev at_controller : Text → Text → Dict Text → Text → Text
at_controller root rel_path v1_names controller =
    Paths.join (root ∷ or_blank (lookup controller v1_names) ∷ rel_path ∷ [])

unfoldable pub cgroup_dirs_for : CgroupVersion → Text → Text → Dict Text → CgroupDirs
cgroup_dirs_for version root rel_path v1_names =
    let dir = Paths.join (root ∷ rel_path ∷ []) in
    let place = at_controller root rel_path v1_names in
    if is_v2 version
    then record {
      version = version;
      memory = dir;
      cpu = dir;
      cpuacct = dir;
      pids = dir;
      blkio = dir;
      freezer = dir;
    }
    else record {
      version = version;
      memory = place (codes "memory");
      cpu = place (codes "cpu");
      cpuacct = place (codes "cpuacct");
      pids = place (codes "pids");
      blkio = place (codes "blkio");
      freezer = place (codes "freezer");
    }

abbrev put_parsed : Text → Parsed ℕ → Dict ℕ → Dict ℕ
put_parsed key (parsed value) stats = put key value stats
put_parsed key _ stats = stats

unfoldable pub key_value_line : List Text → Dict ℕ → Dict ℕ
key_value_line (key ∷ value ∷ []) stats = put_parsed key (parse_uint value) stats
key_value_line _ stats = stats

unfoldable pub key_value_lines : List Text → Dict ℕ → Dict ℕ
key_value_lines [] stats = stats
key_value_lines (line ∷ rest) stats = key_value_lines rest (key_value_line (fields line) stats)

unfoldable pub parse_key_value_stat : Text → Dict ℕ
unfolding key_value_lines key_value_line put parse_uint fields lines
parse_key_value_stat content = key_value_lines (lines content) []

unfoldable pub read_key_value_stat : Os → Text → Dict ℕ
unfolding parse_key_value_stat
read_key_value_stat os file = elim (read_file_with_error os file) [
  | ok content ↦ parse_key_value_stat content
  | _ ↦ []
]
