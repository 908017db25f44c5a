-- ===== src/Strops.antt =====
-- internal/strops/strops.go: conversions that panic.
use systats.Prelude.{ℕ, Option, none, some}
use systats.Prelude.Text.{Text}
use systats.Go.Float.{Float64}
use systats.Go.Outcome.{Outcome, ok, panic, conversion}
use systats.Go.Strconv.{Parsed, parsed, parse_uint}

abbrev or_panic : Parsed ℕ → Outcome ℕ
or_panic (parsed n) = ok n
or_panic _ = panic conversion

unfoldable pub to_uint64 : Text → Outcome ℕ
unfolding parse_uint
to_uint64 input = or_panic (parse_uint input)

module _ (fl : Float64) where
  open fl use {F, parse}

  abbrev float_or_panic : Option F → Outcome F
  float_or_panic (some x) = ok x
  float_or_panic none = panic conversion

  unfoldable pub to_float64 : Text → Outcome F
  to_float64 input = float_or_panic (parse input)
