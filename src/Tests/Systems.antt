-- ===== src/Tests/Systems.antt =====
-- The description of the system.
use systats.Fileops.{read_file_with_error}
use systats.Go.Float.{exact}
use systats.Go.Outcome.{ok}
use systats.Go.Paths.{slash}
use systats.Go.Strings.Split.{join}
use systats.Go.Strings.{newline, cut, trim_space, has_prefix}
use systats.Go.Time.{second}
use systats.Prelude.Int.{pos}
use systats.Prelude.Text.{Text, codes, eqb}
use systats.Prelude.{◌*◌, ◌≡◌, ◌≢◌, refl, none, some, List, [], ◌∷◌, arith}
use systats.System.Release.{pretty_line, get_operating_system-pretty_line}
use systats.System.Uptime.{IsUpTime, IsBootDate, boot_times-IsUpTime}
use systats.System.Users.{Login}
use systats.System.Zone.{zone_link, time_zone_of-zone_link}
use systats.System.{BootTimes, boot_times, get_operating_system, time_zone_of}
use systats.Tests.World.{world, config}

-- Two logins, one from another host.
abbrev logins : List Login
logins =
    record {
      username = codes "root";
      terminal = codes "tty1";
      pad1 = 4;
      pad2 = 8;
      at = record { year = 2024; month = 1; day = 15; hour = 9; min = 5 };
      host = none;
    }
    ∷ record {
      username = codes "ann";
      terminal = codes "pts/0";
      pad1 = 5;
      pad2 = 7;
      at = record { year = 2024; month = 2; day = 29; hour = 23; min = 59 };
      host = some (codes "(192.168.1.5)");
    }
    ∷ []

boot_times-IsUpTime_example :
    (b : BootTimes exact) × (boot_times exact (pos (1700000000 * second)) (codes "259380.25" ∷ [])
      ≡ ok b)
    × (b.up_time_seconds ≡ record { up = 25938025; down = 0; den = 100 })
    × IsUpTime 259380 b.up_time
    × IsBootDate 259380 (1700000000 * second) b.last_boot_date
unfolding cut trim_space
boot_times-IsUpTime_example =
    boot_times-IsUpTime exact (1700000000 * second) 259380 (codes "259380.25") [] _ refl refl
      (omega arith) (omega arith)

abbrev release : Text
release =
    join
      (codes "NAME=\"Ubuntu\""
        ∷ pretty_line (codes "Ubuntu 22.04.3 LTS") []
        ∷ codes "ID=ubuntu"
        ∷ [])
      newline

get_operating_system-pretty_line_example :
    get_operating_system (world ((codes "/etc//os-release", release) ∷ [])) config
    ≡ ok (codes "Ubuntu 22.04.3 LTS")
unfolding has_prefix read_file_with_error world eqb
get_operating_system-pretty_line_example =
    get_operating_system-pretty_line (world ((codes "/etc//os-release", release) ∷ [])) config
      (codes "NAME=\"Ubuntu\"" ∷ []) (codes "ID=ubuntu" ∷ []) (codes "Ubuntu 22.04.3 LTS") [] (cc)
      (omega arith) tt tt ((refl, (omega arith)), tt) ((refl, (omega arith)), tt) refl

time_zone_of-zone_link_example :
    (time_zone_of
        (zone_link (codes "" ∷ codes "usr" ∷ codes "share" ∷ []) (codes "Buenos_Aires" ∷ []))
      ≡ join (codes "Buenos_Aires" ∷ []) slash)
    × (time_zone_of (
          zone_link
            (codes "" ∷ codes "usr" ∷ codes "share" ∷ [])
            (codes "Argentina" ∷ codes "Buenos_Aires" ∷ []))
        ≡ join (codes "Argentina" ∷ codes "Buenos_Aires" ∷ []) slash)
    × (time_zone_of (
          zone_link
            (codes "" ∷ codes "usr" ∷ codes "share" ∷ [])
            (codes "America" ∷ codes "Argentina" ∷ codes "Buenos_Aires" ∷ []))
        ≡ join (codes "Argentina" ∷ codes "Buenos_Aires" ∷ []) slash)
    × (time_zone_of (
          zone_link
            (codes "" ∷ codes "usr" ∷ codes "share" ∷ [])
            (codes "America" ∷ codes "Argentina" ∷ codes "Buenos_Aires" ∷ []))
        ≢ join (codes "America" ∷ codes "Argentina" ∷ codes "Buenos_Aires" ∷ []) slash)
time_zone_of-zone_link_example =
    time_zone_of-zone_link (codes "") (codes "usr" ∷ codes "share" ∷ []) (codes "America")
      (codes "Argentina") (codes "Buenos_Aires") (omega arith) (omega arith) (omega arith)
      (omega arith) (cc)
