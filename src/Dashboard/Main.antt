-- ===== src/Dashboard/Main.antt =====
-- example/main.go and example/template.go: the unit of the figures, the address that is shown, and how
-- often the page is loaded again.
use systats.Config.{SizeUnit, byte, kilobyte, megabyte, gigabyte}
use systats.Go.Float.{Float64}
use systats.Go.Outcome.{Outcome, ok, fail, not_supported}
use systats.Go.Strings.{has_prefix, to_upper, trim_space}
use systats.Prelude.Int.{ℤ, pos, negsuc, ltb_ℤ}
use systats.Prelude.Text.{Text, codes, eqb}
use systats.Prelude.{◌^◌, Bool, true, false, ◌++◌, if◌then◌else◌}

-- A switch over the four units.
abbrev unit_named : Text → Text → Outcome SizeUnit
unfolding eqb
unit_named s name =
    if eqb name byte
    then ok byte
    else if eqb name kilobyte
    then ok kilobyte
    else if eqb name megabyte
    then ok megabyte
    else if eqb name gigabyte
    then ok gigabyte
    else fail (not_supported s)

unfoldable pub parse_unit : Text → Outcome SizeUnit
unfolding unit_named to_upper trim_space
parse_unit s = unit_named s (to_upper (trim_space s))

unfoldable pub display_addr : Text → Text
unfolding has_prefix
display_addr addr = if has_prefix addr (codes ":") then codes "localhost" ++ addr else addr

-- The seconds between two loads of the page, if it is loaded again: rounded up, and at least one.
pub record Refresh : Type 0 where
  pub refresh : Bool
  pub refresh_seconds : ℤ

module _ (fl : Float64) where
  open fl use {F, of_ℕ, div, ceil, to_int}

  abbrev seconds_of : ℤ → F
  seconds_of (pos n) = div (of_ℕ n) (of_ℕ (10 ^ 9))
  seconds_of (negsuc n) = of_ℕ 0

  abbrev at_least_one : ℤ → ℤ
  at_least_one n = if ltb_ℤ n (pos 1) then pos 1 else n

  unfoldable pub refresh_of : ℤ → Refresh
  refresh_of refresh =
      if ltb_ℤ (pos 0) refresh
      then record {
        refresh = true;
        refresh_seconds = at_least_one (to_int (ceil (seconds_of refresh)));
      }
      else record { refresh = false; refresh_seconds = pos 0 }
