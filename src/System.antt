-- ===== src/System.antt =====
-- system.go: the description of the system and its logged-in users.
pub mod Release
pub mod Uptime
pub mod Zone
pub mod Minutes
pub mod Users
use systats.Config.{SyStats}
use systats.Exec.{Context, Shell, execute_with_error_and_context}
use systats.Fileops.{read_file, read_file_with_error, find_file_with_name_like}
use systats.Go.Float.{Float64}
use systats.Go.Os.{Os}
use systats.Go.Outcome.{Outcome, ok, fail, panic, bad_uptime, ◌>>=◌}
use systats.Go.Strings.{fields, has_prefix, last_index_of, lines, split, trim_space}
use systats.Go.Time.{
  Time, second, mul_int64, neg_int64, add, round_second, duration_string, zero_time, parse_minute,
}
use systats.Prelude.Int.{ℤ, pos}
use systats.Prelude.Text.{Text, codes, eqb}
use systats.Prelude.{
  ℕ, zero, suc, Option, none, some, List, [], ◌∷◌, ◌++◌, if◌then◌else◌, get_elem?, length, take,
  drop,
}

pub record User : Type 0 where
  pub username : Text
  pub remote_host : Text
  pub logged_in_time : Time

abbrev pub quote : ℕ
quote = b'"'

abbrev pub pretty_name_key : Text
pretty_name_key = codes "PRETTY_NAME=\""

-- The text up to the last quote, where there is any before it.
abbrev quoted : Text → Option ℕ → Option Text
quoted rest none = none
quoted rest (some zero) = none
quoted rest (some (suc i)) = some (take (suc i) rest)

-- The second group of ^(PRETTY_NAME=")(.+)("), whose middle is as long as it can be.
unfoldable pub pretty_name : Text → Option Text
unfolding has_prefix last_index_of
pretty_name line =
    if has_prefix line pretty_name_key
    then (let rest = drop (length pretty_name_key) line in quoted rest (last_index_of rest quote))
    else none

abbrev pub or_before : Option Text → Text → Text
or_before none os_name = os_name
or_before (some name) os_name = name

-- The loop over the lines: the last name stands.
unfoldable pub os_of_lines : Text → List Text → Text
unfolding pretty_name
os_of_lines os_name [] = os_name
os_of_lines os_name (line ∷ rest) = os_of_lines (or_before (pretty_name line) os_name) rest

-- The file that is read: os-release, or one whose name holds "-release".
unfoldable pub release_content : Os → Text → Outcome Text
unfolding read_file_with_error find_file_with_name_like read_file
release_content os etc_path = elim (read_file_with_error os (etc_path ++ codes "/os-release")) [
  | ok content ↦ ok content
  | panic p ↦ panic p
  | fail e ↦ do
    path ← find_file_with_name_like os etc_path (codes "-release")
    ok (read_file os path)
]

unfoldable pub get_operating_system : Os → SyStats → Outcome Text
unfolding release_content os_of_lines lines
get_operating_system os systats = do
  content ← release_content os systats.etc_path
  ok (os_of_lines [] (lines content))

abbrev or_empty : Option Text → Text
or_empty none = []
or_empty (some s) = s

-- The last two parts, the last first.
abbrev zone_of_last : List Text → Text
unfolding eqb
zone_of_last [] = []
zone_of_last (city ∷ []) = city
zone_of_last (city ∷ area ∷ rest) =
    if eqb area (codes "zoneinfo") then city else area ++ (b'/' ∷ city)

abbrev reversed : List Text → List Text → List Text
reversed out [] = out
reversed out (p ∷ ps) = reversed (p ∷ out) ps

abbrev zone_of_parts : List Text → Text
unfolding zone_of_last
zone_of_parts (a ∷ b ∷ c ∷ rest) = zone_of_last (reversed [] (a ∷ b ∷ c ∷ rest))
zone_of_parts _ = []

-- The time zone by the target of /etc/localtime.
unfoldable pub time_zone_of : Text → Text
unfolding zone_of_parts split
time_zone_of local_time_path = zone_of_parts (split local_time_path b'/')

-- NAME LINE DATE TIME COMMENT
abbrev or_zero_time : Option Time → Time
unfolding zero_time
or_zero_time none = zero_time
or_zero_time (some t) = t

unfoldable pub user_of_fields : List Text → List User
unfolding or_zero_time parse_minute
user_of_fields (name ∷ line ∷ day ∷ minute ∷ host ∷ rest) =
    record {
      username = name;
      remote_host = host;
      logged_in_time = or_zero_time (parse_minute (day ++ (b' ' ∷ minute)));
    }
    ∷ []
user_of_fields _ = []

unfoldable pub users_of_lines : List Text → List User
unfolding user_of_fields fields
users_of_lines [] = []
users_of_lines (line ∷ rest) = user_of_fields (fields line) ++ users_of_lines rest

unfoldable pub parse_who_output : Text → List User
unfolding users_of_lines lines
parse_who_output output = users_of_lines (lines output)

-- The error of who(1) leaves no users.
abbrev users_of : Text × Option Text → List User
unfolding parse_who_output
users_of (output, none) = parse_who_output output
users_of (output, some message) = []

unfoldable pub process_logged_in_users : Shell → Context → List User
unfolding users_of execute_with_error_and_context
process_logged_in_users shell ctx =
    users_of (execute_with_error_and_context shell ctx (codes "who") [])

-- The third field of /proc/version.
unfoldable pub kernel_of : List Text → Text
unfolding trim_space
kernel_of (a ∷ b ∷ kernel ∷ rest) = trim_space kernel
kernel_of _ = []

module _ (fl : Float64) where
  open fl use {F, of_ℕ, to_int, parse}

  -- What processSystemBootTimes sets from /proc/uptime.
  pub record BootTimes : Type 0 where
    pub up_time : Text
    pub up_time_seconds : F
    pub last_boot_date : Time

  abbrev no_boot_times : BootTimes
  unfolding zero_time
  no_boot_times = record { up_time = []; up_time_seconds = of_ℕ 0; last_boot_date = zero_time }

  -- time.Duration(int64(s) * int64(time.Second))
  unfoldable pub uptime_of : F → ℤ
  unfolding mul_int64
  uptime_of s = mul_int64 (to_int s) second

  abbrev boot_times_of : Time → Option F → Outcome BootTimes
  unfolding uptime_of duration_string trim_space add round_second neg_int64
  boot_times_of now none = fail bad_uptime
  boot_times_of now (some s) = ok (record {
    up_time = trim_space (duration_string (uptime_of s));
    up_time_seconds = s;
    last_boot_date = round_second (add now (neg_int64 (uptime_of s)));
  })

  -- `now` is time.Now().
  unfoldable pub boot_times : Time → List Text → Outcome BootTimes
  unfolding boot_times_of no_boot_times trim_space
  boot_times now [] = ok no_boot_times
  boot_times now (first ∷ rest) = boot_times_of now (parse (trim_space first))

  pub record System : Type 0 where
    pub host_name : Text
    pub os_name : Text
    pub kernel : Text
    pub up_time : Text
    pub up_time_seconds : F
    pub last_boot_date : Time
    pub logged_in_users : List User
    pub time : ℕ
    pub time_zone : Text

  unfoldable pub get_system : Os → Shell → Context → Time → SyStats → Outcome System
  unfolding get_operating_system boot_times time_zone_of process_logged_in_users kernel_of
      trim_space fields read_file
  get_system os shell ctx now systats = do
    os_name ← get_operating_system os systats
    boot ← boot_times now (fields (read_file os systats.uptime_path))
    ok (record {
      host_name = trim_space (read_file os (systats.etc_path ++ codes "/hostname"));
      os_name = os_name;
      kernel = kernel_of (fields (read_file os systats.version_path));
      up_time = boot.up_time;
      up_time_seconds = boot.up_time_seconds;
      last_boot_date = boot.last_boot_date;
      logged_in_users = process_logged_in_users shell ctx;
      time = os.now;
      time_zone = time_zone_of (or_empty (os.read_link (systats.etc_path ++ codes "/localtime")));
    })
