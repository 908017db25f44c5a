-- ===== src/Tests/World.antt =====
-- A small system to run the program on: files by path, no directories.
use systats.Config.{SyStats, new}
use systats.Go.Os.{Os}
use systats.Prelude.Text.{Text}
use systats.Memory.Host.{MeminfoRow}
use systats.Prelude.{ℕ, Bool, false, Option, none, some}
use systats.Stats.{Dict, lookup}

abbrev pub is_known : Option Text → Option Bool
is_known none = none
is_known (some content) = some false

-- A system whose only files are those of the list.
unfoldable pub world : Dict Text → Os
unfolding lookup
world files = record {
  stat = λ path. is_known (lookup path files);
  read_file = λ path. lookup path files;
  read_dir = λ path. none;
  read_link = λ path. none;
  statfs = λ path. none;
  now = 1700000000;
  user_name = λ uid. none;
}

abbrev pub config : SyStats
config = new

-- A line of /proc/meminfo.
abbrev pub meminfo_row : Text → ℕ → ℕ → Bool → MeminfoRow
meminfo_row key padding value in_kib = record {
  key = key;
  padding = padding;
  value = value;
  in_kib = in_kib;
}
