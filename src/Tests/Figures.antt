-- ===== src/Tests/Figures.antt =====
-- GetMemory and GetSwap on small systems.
use systats.Cgroup.{cgroup_v2, detect_cgroup_version, resolve_cgroup_controller_path}
use systats.Config.{SyStats, kilobyte, with_recover}
use systats.Fileops.{read_file_with_error}
use systats.Go.Float.{exact}
use systats.Go.Outcome.{ok, fail, conversion, recovered}
use systats.Go.Strings.{is_space}
use systats.Memory.Host.{MeminfoRow, IsFigure, meminfo_file}
use systats.Memory.Limits.{get_memory_bad_limit}
use systats.Memory.{MemoryKib, percentage, get_memory, kib_converter, parse_meminfo, summarise}
use systats.Prelude.Text.{Text, codes, eqb, eqb_iff}
use systats.Prelude.{◌≡◌, ◌≢◌, refl, true, false, List, [], ◌∷◌, ◌++◌, arith, All}
use systats.Swap.Figures.{get_swap-meminfo_file}
use systats.Swap.{get_swap}
use systats.Unitconv.{kib_to_kb}
use systats.Tests.World.{meminfo_row, world, config}

abbrev figures : List MeminfoRow
figures =
    meminfo_row (codes "MemTotal:") 9 16000 true
    ∷ meminfo_row (codes "MemFree:") 11 4000 true
    ∷ meminfo_row (codes "SwapTotal:") 9 2048 true
    ∷ meminfo_row (codes "SwapFree:") 10 1024 true
    ∷ []

figures-IsFigure : All IsFigure figures
unfolding is_space
figures-IsFigure = ground arith

-- A container with a memory.max that is neither "max" nor a number.
abbrev files : List (Text × Text)
files =
    (codes "/proc/meminfo", meminfo_file figures)
    ∷ (codes "/proc/self/cgroup", codes "0::/app" ++ (10 ∷ []))
    ∷ (codes "/sys/fs/cgroup/cgroup.controllers", codes "cpu memory")
    ∷ (codes "/sys/fs/cgroup/app/memory.max", codes "unset" ++ (10 ∷ []))
    ∷ []

abbrev contained : SyStats
contained = record config { container_aware = true }

abbrev host : MemoryKib exact
host =
    summarise exact (record { total = 16000; free = 4000; available = 0; buffers = 0; cached = 0 })

meminfo_read : read_file_with_error (world files) contained.meminfo_path ≡ ok (meminfo_file figures)
unfolding read_file_with_error world eqb
meminfo_read = refl

get_memory_bad_limit_example :
    with_recover (get_memory exact (world files) contained kilobyte) ≡ fail (recovered conversion)
unfolding read_file_with_error world eqb kib_converter parse_meminfo detect_cgroup_version
    resolve_cgroup_controller_path systats.Go.Strconv.format_uint systats.Go.Paths.join
    systats.Cgroup.parse_self_cgroup_v2
get_memory_bad_limit_example =
    get_memory_bad_limit exact (world files) contained kilobyte (codes "/sys/fs/cgroup/app")
      (meminfo_file figures) (codes "unset" ++ (10 ∷ [])) {host = host} refl refl refl refl refl
      refl refl refl refl

differs : (s t : Text) → eqb s t ≡ false → s ≢ t
differs s t e q = cc ((eqb_iff s t).1 q)

get_swap-meminfo_file_example :
    get_swap exact (world files) contained kilobyte
    ≡ ok (record {
      percentage_used = percentage exact 1024 2048;
      free = exact.of_ℕ 1024;
      used = exact.of_ℕ 1024;
      time = 1700000000;
      total = exact.of_ℕ 2048;
      unit = kilobyte;
    })
unfolding kib_converter read_file_with_error world eqb kib_to_kb
get_swap-meminfo_file_example =
    get_swap-meminfo_file exact (world files) contained kilobyte figures 1024
      {convert = kib_to_kb exact} refl refl figures-IsFigure refl (omega arith) (omega arith)
