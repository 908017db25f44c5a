-- ===== src/Lib.antt =====
-- systats: a Go library that reads the state of a Linux system from /proc, /sys and the control
-- groups.
--
-- The program. Each file of the repository's root reads one kind of figures. A public method of
-- SyStats (systats.go) calls one reader, most of them under withRecover, which turns a panic of the
-- number conversions into an error. The readers share internal/fileops (whole files),
-- internal/strops (numbers, panicking), internal/unitconv (KiB to a unit) and cgroup.go (the
-- process's own control group). memory.go, cpu.go and pressure.go prefer the control group's
-- figures where ContainerAware is set.
--
-- The files. Each module is named for the file that it models:
--   Config    systats.go: SyStats, New, cpuSampleWindow, sleepCtx, withRecover
--   Fileops   internal/fileops/fileops.go
--   Strops    internal/strops/strops.go
--   Unitconv  internal/unitconv/unitconv.go
--   Cgroup    cgroup.go; Self on v1 lines, KeyValue on key/value files
--   Memory    memory.go; Host on /proc/meminfo, Limits on the control group's limit
--   Swap      swap.go; Figures on its figures
--   Pressure  pressure.go; Lines on its files
--   Cpu       cpu.go: Stat is /proc/stat, Topology and Info are /proc/cpuinfo and /proc/loadavg,
--             Quota the control group's quota; getCPU stands in Cpu itself
--   Disk      disk.go; Mounts on the escapes of /proc/mounts
--   Diskio    diskio.go; Rates on RatesSince, Lines on /proc/diskstats
--   Netproto  netproto.go
--   Network   network.go: interfaces; Network.Tcp the socket tables and the counts by state
--   Process   process.go: Stat, Status and Usage read one process, Rank sorts and limits, Top holds
--             the collecting loops, getTopProcesses and getProcess; the record and what is filled
--             into it stand in Process itself
--   Container container.go, container_discover.go and container_layer.go: Types are the records,
--             Patterns recognises the names of control groups and Discover walks their tree, Match
--             looks a container up, Blockio, Netdev, Stats, Mounts, Layer and Host read its figures,
--             Rates compares two samples, Reader reads one container, and Collect is
--             collectContainers, with Collect.Kept on which groups it reports; Runtime is container_runtime.go
--   Network.Sockets  network.go: the established sockets of a process; Network.Probe the port and
--             URL checks
--   Temperature  temperature.go: Inputs, Readings and Sensors on what is reported, Order on the sort
--   System    system.go: Release on os-release, Uptime, Zone and Users on the other figures,
--             Minutes on the times that who(1) prints
--   Service   service.go; Verdict on the answer
--   Exec      exec/exec.go; Bounds on the deadline and the locale of a command
--   Dashboard  example/: Render formats figures (render.go), Panels holds the records, Build, Rows,
--             Samples and Cards are the builders of collect.go, Sort its sorts, Task and Readers the
--             goroutines it starts, Zero what they may leave unset, Collect is collect, Schedule the
--             order in which they end, Main main.go and template.go
--   Api       systats.go: the public methods; Boundary on their panics
-- Go is the language and its standard library, as far as the program uses it: Outcome (a call
-- returns, fails or panics), Strings, Strconv, Paths, Time, Words (uint64), and the two parameters Os
-- and Float. Prelude has the shared helpers, Stats the maps, as association lists with one entry for
-- a key. Tests runs the theorems and definitions on small systems.
--
-- How state and calls correspond. A Go function is the function of the same name in snake case. A
-- function that writes through a pointer (`applyCgroupMemory(&m, ...)`) takes the value and returns
-- the new one. `(T, error)` is Outcome; a run-time panic (a failed conversion, an index or a slice
-- bound out of range) is its third case, which goes through every caller up to withRecover. The
-- file system and the clock are the record Os, an argument; where a function samples twice, it takes
-- one Os for each sample, so that anything may change between the two. The context is a Boolean,
-- whether it was done before the timer, and for commands and requests the time that it leaves. The
-- text of an error is its constructor.
--
-- Numbers. uint64 is ℕ with `% 2 ^ 64` after each operation (Go.Words); int is ℤ. float64 is the
-- record Float64, an argument: no theorem rests on a rounding, and none on a property of the
-- floats that is not among its hypotheses. Go.Float.exact is an instance without rounding, for runs.
-- Texts are lists of code points; the files read are ASCII, where these are the bytes. Most loops go
-- over a list and need no fuel. The digits of a number are taken with its successor as the fuel,
-- which is more than their number.
--
-- sort.Slice is an insertion sort. Go leaves the order of equal elements open; here they keep theirs.
--
-- Not modelled: of the program under example, its flags, the HTTP server, the writing of files, the
-- digest on the console and the HTML template; and the program under build_test, which prints what
-- the library returns.
pub mod Prelude
pub mod Go
pub mod Strops
pub mod Fileops
pub mod Unitconv
pub mod Config
pub mod Stats
pub mod Cgroup
pub mod Memory
pub mod Swap
pub mod Pressure
pub mod Cpu
pub mod Disk
pub mod Diskio
pub mod Netproto
pub mod Network
pub mod Process
pub mod Container
pub mod Temperature
pub mod Exec
pub mod Service
pub mod System
pub mod Api
pub mod Dashboard
mod Tests
