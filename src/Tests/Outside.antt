-- ===== src/Tests/Outside.antt =====
-- Sensors, the description of the system, and what the program asks of commands and of the runtime.
use mathlib.Core.Option
use systats.Api.{Surroundings}
use systats.Container.Runtime.Listed.{last_listed, fetch_container_metadata-lookup}
use systats.Container.Runtime.{
  ApiContainer, ContainerMetadata, Response, Socket, metadata_of, name_of, fetch_container_metadata,
}
use systats.Exec.Bounds.{IsBounded, execute-bounded}
use systats.Exec.{
  background, Command, Shell, execute_with_context, execute_with_error_and_context,
  execute_with_pipe_and_context, execute_with_pipe_and_error_and_context,
}
use systats.Fileops.{read_file_with_error}
use systats.Go.Float.{exact, frac}
use systats.Go.Os.{Os, DirEntry}
use systats.Go.Outcome.{Outcome, ok, fail, no_dir}
use systats.Go.Strings.{contains, cut, has_prefix, trim_prefix, trim_space}
use systats.Prelude.Int.{ℤ, pos}
use systats.Prelude.Text.{Text, codes, eqb}
use systats.Prelude.{
  ◌≡◌, ◌⊎◌, ◌↔◌, refl, true, false, Option, none, some, List, map, [], ◌∷◌, All, if◌then◌else◌,
}
use systats.Service.Verdict.{HasAnswered, systemctl, service_status, is_service_running_lem}
use systats.Service.{is_service_running}
use systats.Stats.{Dict, lookup}
use systats.Temperature.Order.{IsOrdered}
use systats.Temperature.Sensors.{IsSensor, listed, get_temperatures-AreSensors}
use systats.Temperature.{Temperature, get_temperatures}
use systats.Tests.World.{world, config}

abbrev file : Text → DirEntry
file name = record { name = name; is_dir = false }

-- A chip with two sensors, one of which has a critical threshold, and one that cannot be read.
abbrev sensor_files : Dict Text
sensor_files =
    (codes "/sys/class/hwmon/hwmon0/name", codes "coretemp\n")
    ∷ (codes "/sys/class/hwmon/hwmon0/temp1_input", codes "45000\n")
    ∷ (codes "/sys/class/hwmon/hwmon0/temp1_label", codes "Package id 0\n")
    ∷ (codes "/sys/class/hwmon/hwmon0/temp1_crit", codes "100000\n")
    ∷ (codes "/sys/class/hwmon/hwmon0/temp2_input", codes "44000\n")
    ∷ (codes "/sys/class/hwmon/hwmon0/temp2_label", codes "Core 0\n")
    ∷ []

abbrev sensor_dirs : Dict (List DirEntry)
sensor_dirs =
    (codes "/sys/class/hwmon", file (codes "hwmon0") ∷ [])
    ∷ (
      codes "/sys/class/hwmon/hwmon0",
      file (codes "name")
          ∷ file (codes "temp1_crit")
          ∷ file (codes "temp1_input")
          ∷ file (codes "temp2_input")
          ∷ file (codes "temp3_input")
          ∷ [],
    )
    ∷ []

unfoldable chips : Os
unfolding lookup
chips = record (world sensor_files) { read_dir = λ path. lookup path sensor_dirs }

abbrev labels : Outcome (List (Temperature exact)) → List Text
labels (ok ts) = map (λ t. t.label) ts
labels _ = []

labels_in_order :
    labels (get_temperatures exact chips config) ≡ codes "Core 0" ∷ codes "Package id 0" ∷ []
unfolding get_temperatures chips read_file_with_error world cut
labels_in_order = refl

get_temperatures-AreSensors_example :
    (ts : List (Temperature exact)) × (get_temperatures exact chips config ≡ ok ts)
    × IsOrdered exact ts
    × All (IsSensor exact chips config (listed exact (chips.read_dir config.hwmon_path))) ts
get_temperatures-AreSensors_example = get_temperatures-AreSensors exact chips config

-- A shell whose systemctl fails without a word, and whose service(8) answers.
abbrev answer : Text → Text × Option Text
answer name =
    if eqb name (codes "systemctl")
    then (codes "\n", some (codes "exit status 1"))
    else (codes "  Active: active (running)\n", none)

unfoldable shell : Shell
unfolding eqb
shell = record { environ = codes "LANG=de_DE" ∷ []; output = λ c. answer c.name }

sshd_runs : is_service_running shell background (codes "sshd") ≡ (true, none)
unfolding is_service_running shell
sshd_runs = refl

is_service_running_lem_example :
    ((is_service_running shell background (codes "sshd")).0 ≡ true ↔ (
      (trim_space (systemctl shell background (codes "sshd")).0 ≡ codes "active")
      ⊎ ((¬ HasAnswered (systemctl shell background (codes "sshd")))
          × (contains (service_status shell background (codes "sshd")).0 (codes "Active: active")
              ≡ true))))
    × ((is_service_running shell background (codes "sshd")).1 ≡ none ↔ (
        HasAnswered (systemctl shell background (codes "sshd"))
        ⊎ HasAnswered (service_status shell background (codes "sshd"))))
is_service_running_lem_example = is_service_running_lem shell background (codes "sshd")

-- The same shell, but for commands without a deadline, which it refuses.
abbrev unless_unbounded : Option ℤ → Text × Option Text → Text × Option Text
unless_unbounded none a = ([], some (codes "no deadline"))
unless_unbounded (some d) a = a

unfoldable strict_shell : Shell
unfolding eqb
strict_shell = record {
  environ = codes "LANG=de_DE" ∷ [];
  output = λ c. unless_unbounded c.deadline (answer c.name);
}

shells_agree :
    (c : Command)
    → IsBounded (codes "LANG=de_DE" ∷ []) none c
    → shell.output c ≡ strict_shell.output c
unfolding shell strict_shell
shells_agree c b = rw b.stopped_at refl

execute-bounded_example :
    (execute_with_context shell background (codes "who") []
      ≡ execute_with_context strict_shell background (codes "who") [])
    × (execute_with_error_and_context shell background (codes "who") []
        ≡ execute_with_error_and_context strict_shell background (codes "who") [])
    × (execute_with_pipe_and_context shell background (codes "who")
        ≡ execute_with_pipe_and_context strict_shell background (codes "who"))
    × (execute_with_pipe_and_error_and_context shell background (codes "who")
        ≡ execute_with_pipe_and_error_and_context strict_shell background (codes "who"))
unfolding shell strict_shell
execute-bounded_example =
    execute-bounded shell strict_shell background (codes "LANG=de_DE" ∷ []) refl refl shells_agree
      (codes "who") []

abbrev web : ApiContainer
web = record {
  id = codes "ab12";
  names = codes "/web" ∷ [];
  image = codes "nginx";
  state = codes "running";
  labels = [];
}

abbrev answered : Response
answered = record { status_code = 200; status = codes "200 OK"; listed = ok (web ∷ []) }

abbrev socket : Socket
socket path time = ok answered

fetch_container_metadata-lookup_example :
    (out : Dict ContainerMetadata) × (fetch_container_metadata socket background
        (codes "/run/docker.sock")
        (pos 0)
      ≡ ok out)
    × (lookup (codes "ab12") out ≡ Option.map metadata_of (last_listed (codes "ab12") (web ∷ [])))
fetch_container_metadata-lookup_example =
    fetch_container_metadata-lookup socket background (codes "/run/docker.sock") (pos 0) answered
      (web ∷ []) (cc) refl refl refl (codes "ab12")

web_is_named :
    Option.map metadata_of (last_listed (codes "ab12") (web ∷ []))
    ≡ some
        (record { name = codes "web"; image = codes "nginx"; state = codes "running"; labels = [] })
unfolding metadata_of name_of trim_prefix has_prefix eqb
web_is_named = refl

-- The chips, the shell and the socket above, and a network that cannot be reached.
abbrev surroundings : Surroundings exact
surroundings = record {
  os1 = chips;
  os2 = chips;
  os3 = chips;
  ctx = background;
  done = false;
  ctx_done = λ pid. false;
  elapsed_seconds = frac 1 0 1;
  now = pos 1700000000;
  shell = shell;
  net = record {
    dial = λ deadline address. fail no_dir;
    new_request = λ url. fail no_dir;
    send = λ timeout url. fail no_dir;
  };
  socket = socket;
  interfaces = fail no_dir;
  walk_dir = λ dir. [];
  walk_done = false;
  search_depth = 3;
}
