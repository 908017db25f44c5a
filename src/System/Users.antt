-- ===== src/System/Users.antt =====
-- system.go: the users that who(1) lists.
use systats.Go.Strings.Fields.{IsWord}
use systats.Go.Strings.{newline}
use systats.Go.Time.{date}
use systats.Prelude.Text.{Text}
use systats.Prelude.{ℕ, zero, suc, Option, none, some, List, [], ◌∷◌, ◌++◌}
use systats.System.{User}
use systats.System.Minutes.{Minute, IsMinute, day_text, minute_text}

-- A login: the terminal, the spaces that fill the columns, and the remote host, where there is one.
pub record Login : Type 0 where
  pub username : Text
  pub terminal : Text
  pub pad1 : ℕ
  pub pad2 : ℕ
  pub at : Minute
  pub host : Option Text

abbrev spaces : ℕ → Text
spaces zero = []
spaces (suc k) = 32 ∷ spaces k

abbrev comment : Option Text → Text
comment none = []
comment (some host) = 32 ∷ host

abbrev host_fields : Option Text → List Text
host_fields none = []
host_fields (some host) = host ∷ []

-- The line of who(1).
abbrev pub who_line : Login → Text
who_line l =
    l.username
    ++ (32
        ∷ (spaces l.pad1
            ++ (l.terminal
                ++ (32
                    ∷ (spaces l.pad2
                        ++ (day_text l.at ++ (32 ∷ (minute_text l.at ++ comment l.host))))))))

abbrev pub who_file : List Login → Text
who_file [] = []
who_file (l ∷ ls) = who_line l ++ (newline ∷ who_file ls)

abbrev IsHost : Option Text → Type 0
IsHost none = Unit
IsHost (some host) = IsWord host

pub record IsLogin (l : Login) : Type 0 where
  pub username_lem : IsWord l.username
  pub terminal_lem : IsWord l.terminal
  pub at_lem : IsMinute l.at
  pub host_lem : IsHost l.host

-- The user of a remote login, with the instant of its minute.
abbrev user_from : Text → Minute → Option Text → List User
user_from name at none = []
user_from name at (some host) =
    record {
      username = name;
      remote_host = host;
      logged_in_time = date at.year at.month at.day at.hour at.min;
    }
    ∷ []

abbrev pub remote_users : List Login → List User
remote_users [] = []
remote_users (l ∷ ls) = user_from l.username l.at l.host ++ remote_users ls
