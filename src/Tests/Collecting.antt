-- ===== src/Tests/Collecting.antt =====
-- Collecting: the containers of a small tree, and the page of the dashboard.
use systats.Cgroup.{detect_cgroup_version}
use systats.Config.{kilobyte}
use systats.Container.Collect.Kept.{AreKept, get_containers-AreKept}
use systats.Container.Collect.{get_containers}
use systats.Container.Reader.{named_containers}
use systats.Container.Discover.{discover_containers}
use systats.Container.Types.{Container}
use systats.Dashboard.Collect.{collect_ended}
use systats.Dashboard.Readers.{Readings}
use systats.Dashboard.Render.{Print}
use systats.Dashboard.Schedule.{collect_ended-order}
use systats.Dashboard.Task.{
  Task, by_name, in_list, AreDistinct, by_name-AreDistinct, in_list-by_name,
}
use systats.Go.Float.{exact, frac}
use systats.Go.Os.{Os, DirEntry}
use systats.Go.Outcome.{Outcome, ok, fail, no_dir, cancelled}
use systats.Go.Paths
use systats.Memory.{read_cgroup_memory_bytes, read_cgroup_memory_limit, read_cgroup_memory_usage}
use systats.Network.Tcp.{no_states}
use systats.Prelude.Int.{pos}
use systats.Prelude.Text.{Text, codes, eqb}
use systats.Prelude.{◌≡◌, refl, true, false, List, [], ◌∷◌, ◌++◌, length, arith, Bool}
use systats.Stats.{Dict, lookup}
use systats.Tests.World.{world, config}

abbrev scope : Text
scope =
    codes
      "/sys/fs/cgroup/libpod-0123456789abcdef0123456789abcdef0123456789abcdef0123456789abcdef.scope"

abbrev entry : Text → Bool → DirEntry
entry name is_dir = record { name = name; is_dir = is_dir }

abbrev folders : Dict (List DirEntry)
folders =
    (
      codes "/sys/fs/cgroup",
      entry (codes "libpod-0123456789abcdef0123456789abcdef0123456789abcdef0123456789abcdef.scope")
            true
          ∷ [],
    )
    ∷ (scope, entry (codes "cgroup.procs") false ∷ [])
    ∷ []

unfoldable tree : Os
unfolding lookup
tree =
    record (world (
      (codes "/sys/fs/cgroup/cgroup.controllers", codes "memory")
      ∷ (scope ++ codes "/cgroup.procs", codes "412")
      ∷ (scope ++ codes "/memory.current", codes "4096")
      ∷ (scope ++ codes "/memory.max", codes "max")
      ∷ (scope ++ codes "/memory.stat", codes "anon 1024")
      ∷ [])) { read_dir = λ path. lookup path folders }

abbrev collected : Outcome (List (Container exact))
collected =
    get_containers exact (λ dir. []) false 3 (fail no_dir) tree tree tree false (frac 1 0 1) config
      kilobyte

abbrev or_none : Outcome (List (Container exact)) → List (Container exact)
or_none (ok cs) = cs
or_none _ = []

one_collected : length (or_none collected) ≡ 1
unfolding get_containers tree world eqb Paths.join Paths.base Paths.dir read_cgroup_memory_bytes
    read_cgroup_memory_limit read_cgroup_memory_usage
one_collected = refl

returned : collected ≡ ok (or_none collected)
unfolding get_containers tree world eqb Paths.join Paths.base Paths.dir read_cgroup_memory_bytes
    read_cgroup_memory_limit read_cgroup_memory_usage
returned = refl

get_containers-AreKept_example :
    (false ≡ false)
    × AreKept exact
        (named_containers exact
          (fail no_dir)
          (discover_containers 3 tree config (detect_cgroup_version tree config.cgroup_root_path)))
        (or_none collected)
get_containers-AreKept_example =
    get_containers-AreKept exact (λ dir. []) false 3 (fail no_dir) tree tree tree false (frac 1 0 1)
      config kilobyte (or_none collected) returned

-- Formatting that shows nothing.
abbrev plain : Print exact
plain = record {
  is_nan = λ x. false;
  is_inf = λ x. false;
  pi = frac 314159 0 100000;
  fixed = λ k x. [];
}

-- The sockets are counted, two readings give nothing, and the others fail.
abbrev readings : Readings exact
readings = record {
  system = fail no_dir;
  cpu = fail cancelled;
  memory = fail no_dir;
  swap = fail no_dir;
  pressure = fail no_dir;
  disks = ok [];
  disk_io = ok [];
  networks = fail cancelled;
  tcp = ok (no_states 1700000000);
  temps = fail no_dir;
  processes = fail cancelled;
  containers = fail cancelled;
  cg_memory = fail no_dir;
  cg_cpu = fail cancelled;
}

-- Those that wait for a sample end last.
abbrev slow_last : List Task
slow_last =
    Task.tcp ∷ Task.temps ∷ Task.disks ∷ Task.swap ∷ Task.memory ∷ Task.cg_memory ∷ Task.system
    ∷ Task.pressure ∷ Task.processes ∷ Task.cg_cpu ∷ Task.cpu ∷ Task.networks ∷ Task.disk_io
    ∷ Task.containers ∷ []

slow_last-AreDistinct : AreDistinct slow_last
slow_last-AreDistinct = ground arith

slow_last_all : (q : Task) → in_list slow_last q ≡ true
slow_last_all Task.system = refl
slow_last_all Task.cpu = refl
slow_last_all Task.memory = refl
slow_last_all Task.swap = refl
slow_last_all Task.pressure = refl
slow_last_all Task.disks = refl
slow_last_all Task.disk_io = refl
slow_last_all Task.networks = refl
slow_last_all Task.tcp = refl
slow_last_all Task.temps = refl
slow_last_all Task.processes = refl
slow_last_all Task.containers = refl
slow_last_all Task.cg_memory = refl
slow_last_all Task.cg_cpu = refl

collect_ended-order_example :
    collect_ended exact plain kilobyte readings [] (pos 0) slow_last
    ≡ collect_ended exact plain kilobyte readings [] (pos 0) by_name
collect_ended-order_example =
    collect_ended-order exact plain kilobyte readings [] (pos 0) slow_last by_name
      slow_last-AreDistinct by_name-AreDistinct slow_last_all in_list-by_name
