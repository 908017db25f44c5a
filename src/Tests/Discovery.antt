-- ===== src/Tests/Discovery.antt =====
-- A tree with one container, whose process is in a group below it.
use systats.Cgroup.{cgroup_v2}
use systats.Container.Discover.{first_pid_in_subtree, discover_containers}
use systats.Go.Os.{Os, DirEntry}
use systats.Prelude.Int.{pos}
use systats.Prelude.Text.{Text, codes, eqb}
use systats.Prelude.{◌≡◌, refl, true, false, some, List, [], ◌∷◌, ◌++◌, length}
use systats.Stats.{Dict, lookup}
use systats.Tests.World.{world, config}

abbrev full_id : Text
full_id = codes "0123456789abcdef0123456789abcdef0123456789abcdef0123456789abcdef"

abbrev scope : Text
scope = codes "/sys/fs/cgroup/libpod-" ++ (full_id ++ codes ".scope")

abbrev folder : Text → DirEntry
folder name = record { name = name; is_dir = true }

abbrev file : Text → DirEntry
file name = record { name = name; is_dir = false }

abbrev folders : Dict (List DirEntry)
folders =
    (
      codes "/sys/fs/cgroup",
      file (codes "cgroup.controllers")
          ∷ folder (codes "libpod-" ++ (full_id ++ codes ".scope"))
          ∷ [],
    )
    ∷ (scope, file (codes "cgroup.procs") ∷ folder (codes "container") ∷ [])
    ∷ (scope ++ codes "/container", file (codes "cgroup.procs") ∷ [])
    ∷ []

unfoldable tree : Os
unfolding lookup
tree =
    record (world (
      (scope ++ codes "/cgroup.procs", [])
      ∷ (scope ++ codes "/container/cgroup.procs", codes "412" ++ (10 ∷ codes "413"))
      ∷ [])) { read_dir = λ path. lookup path folders }

pid_found : first_pid_in_subtree 2 tree scope ≡ some (pos 412)
unfolding first_pid_in_subtree tree world eqb systats.Go.Paths.join
pid_found = refl

one_found : length (discover_containers 2 tree config cgroup_v2) ≡ 1
unfolding discover_containers tree world eqb systats.Go.Paths.join systats.Go.Paths.base
    systats.Go.Paths.dir
one_found = refl
