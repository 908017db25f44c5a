-- ===== src/Go/Os.antt =====
-- Packages os and time: what the program sees of the file system and of the clock. Each call is a function of the path, and
-- `stat` and `read_file` are independent: a file may vanish between the two.
use systats.Prelude.{ℕ, Bool, Option, List}
use systats.Prelude.Text.{Text}

-- An entry of os.ReadDir: its name, and whether it is a directory.
pub record DirEntry : Type 0 where
  pub name : Text
  pub is_dir : Bool

-- unix.Statfs_t, the fields that are read
pub record Statfs : Type 0 where
  pub bsize : ℕ
  pub blocks : ℕ
  pub bfree : ℕ
  pub bavail : ℕ
  pub files : ℕ
  pub ffree : ℕ

-- `none` is an error. `stat` tells whether the path is a directory.
pub record Os : Type 0 where
  pub stat : Text → Option Bool
  pub read_file : Text → Option Text
  pub read_dir : Text → Option (List DirEntry)
  pub read_link : Text → Option Text
  pub statfs : Text → Option Statfs
  -- time.Now().Unix()
  pub now : ℕ
  -- user.LookupId(uid)
  pub user_name : Text → Option Text
