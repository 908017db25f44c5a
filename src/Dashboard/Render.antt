-- ===== src/Dashboard/Render.antt =====
-- example/render.go: gauges, bars and the text of figures. The formatting of a float64 is a
-- parameter.
use systats.Config.{SizeUnit}
use systats.Go.Float.{Float64}
use systats.Go.Strings.{trim_suffix}
use systats.Prelude.Text.{Text, codes}
use systats.Prelude.{ℕ, Bool, not, ◌&&◌, ◌||◌, List, [], ◌∷◌, ◌++◌, ◌==◌, if◌then◌else◌}
use systats.Temperature.{Temperature}

abbrev pub color_ok : Text
color_ok = codes "#2f9e44"

abbrev pub color_warn : Text
color_warn = codes "#e8a317"

abbrev pub color_crit : Text
color_crit = codes "#d64545"

abbrev pub color_established : Text
color_established = codes "#2f9e44"

abbrev pub color_listen : Text
color_listen = codes "#3b82c4"

abbrev pub color_time_wait : Text
color_time_wait = codes "#e8a317"

abbrev pub color_close_wait : Text
color_close_wait = codes "#d64545"

abbrev pub color_other : Text
color_other = codes "#8a8f98"

abbrev pub color_unknown : Text
color_unknown = codes "#6b4fa0"

-- The same text without the zeros at its end.
unfoldable pub trim_right_zeros : Text → Text
trim_right_zeros [] = []
trim_right_zeros (c ∷ s) = elim (trim_right_zeros s) [
  | [] ↦ if c == b'0' then [] else c ∷ []
  | d ∷ r ↦ c ∷ d ∷ r
]

module _ (fl : Float64) where
  open fl use {F, of_ℕ, add, sub, mul, div, lt, le}

  -- math.IsNaN, math.IsInf, math.Pi, and the digits of FormatFloat(x, 'f', k, 64) and of "%.kf".
  pub record Print : Type 0 where
    pub is_nan : F → Bool
    pub is_inf : F → Bool
    pub pi : F
    pub fixed : ℕ → F → Text

  pub record Gauge : Type 0 where
    pub percent : F
    pub dash : Text
    pub gap : Text
    pub circumference : Text
    pub color : Text
    pub label : Text
    pub caption : Text
    pub radius : Text
    pub center : Text
    pub size : Text

  pub record Bar : Type 0 where
    pub percent : F
    pub width : Text
    pub color : Text
    pub label : Text
    pub value : Text

  pub record Segment : Type 0 where
    pub label : Text
    pub percent : F
    pub width : Text
    pub color : Text

  abbrev pub hundred : F
  hundred = of_ℕ 100

  abbrev pub gauge_radius : F
  gauge_radius = of_ℕ 54

  abbrev pub gauge_size : F
  gauge_size = of_ℕ 140

  module _ (pr : Print) where
    open pr use {is_nan, is_inf, pi, fixed}

    unfoldable pub clamp_percent : F → F
    clamp_percent pct =
        if is_nan pct || lt pct (of_ℕ 0) then of_ℕ 0 else if lt hundred pct then hundred else pct

    unfoldable pub dash_array : F → F → F × F
    unfolding clamp_percent
    dash_array pct radius =
        let circumference = mul (mul (of_ℕ 2) pi) radius in
        let dash = div (mul circumference (clamp_percent pct)) hundred in
        (dash, sub circumference dash)

    unfoldable pub level_color : F → Text
    unfolding clamp_percent
    level_color pct =
        if le (of_ℕ 85) (clamp_percent pct)
        then color_crit
        else if le (of_ℕ 70) (clamp_percent pct)
        then color_warn
        else color_ok

    unfoldable pub temp_color : Temperature fl → Text
    unfolding level_color
    temp_color t =
        if t.critical_available && le t.critical t.celsius
        then color_crit
        else if t.high_available && le t.high t.celsius
        then color_warn
        else if not t.high_available && not t.critical_available
        then level_color t.celsius
        else color_ok

    abbrev degrees_text : F → Text
    degrees_text x = fixed 0 x ++ codes "°C"

    -- The ceiling of the scale, and the caption.
    unfoldable pub temp_limits : Temperature fl → F × Text
    temp_limits t =
        if t.critical_available && lt (of_ℕ 0) t.critical
        then (
          t.critical,
          if t.high_available && lt (of_ℕ 0) t.high
              then codes "high "
                ++ (degrees_text t.high ++ (codes ", crit " ++ degrees_text t.critical))
              else codes "crit " ++ degrees_text t.critical,
        )
        else if t.high_available && lt (of_ℕ 0) t.high
        then (t.high, codes "high " ++ degrees_text t.high)
        else (hundred, codes "no thresholds published")

    unfoldable pub temp_scale : Temperature fl → F × Text
    unfolding temp_limits
    temp_scale t =
        let (ceiling, limits) = temp_limits t in
        (div (mul hundred t.celsius) (if le ceiling (of_ℕ 0) then hundred else ceiling), limits)

    unfoldable pub fmt_float : F → Text
    unfolding trim_right_zeros trim_suffix
    fmt_float f =
        if is_nan f || is_inf f
        then codes "0"
        else trim_suffix (trim_right_zeros (fixed 2 f)) (codes ".")

    unfoldable pub new_gauge_colored : F → Text → Text → Text → Gauge
    unfolding dash_array fmt_float clamp_percent
    new_gauge_colored pct label caption color =
        let (dash, gap) = dash_array pct gauge_radius in
        record {
          percent = clamp_percent pct;
          dash = fmt_float dash;
          gap = fmt_float gap;
          circumference = fmt_float (mul (mul (of_ℕ 2) pi) gauge_radius);
          color = color;
          label = label;
          caption = caption;
          radius = fmt_float gauge_radius;
          center = fmt_float (div gauge_size (of_ℕ 2));
          size = fmt_float gauge_size;
        }

    unfoldable pub new_gauge : F → Text → Text → Gauge
    unfolding new_gauge_colored level_color
    new_gauge pct label caption = new_gauge_colored pct label caption (level_color pct)

    unfoldable pub new_bar : F → Text → Text → Bar
    unfolding fmt_float clamp_percent level_color
    new_bar pct label value = record {
      percent = clamp_percent pct;
      width = fmt_float (clamp_percent pct);
      color = level_color pct;
      label = label;
      value = value;
    }

    unfoldable pub size : F → SizeUnit → Text
    size v unit = fixed 2 v ++ (b' ' ∷ unit)

    -- The loop of bytesHuman over the units above the current one.
    unfoldable pub scale_bytes : F → Text → List Text → F × Text
    scale_bytes b unit [] = (b, unit)
    scale_bytes b unit (next ∷ units) =
        let more = scale_bytes (div b (of_ℕ 1024)) next units in
        if le (of_ℕ 1024) b then more else (b, unit)

    abbrev pub larger_units : List Text
    larger_units = codes "KB" ∷ codes "MB" ∷ codes "GB" ∷ codes "TB" ∷ codes "PB" ∷ []

    unfoldable pub bytes_human : F → Text
    unfolding scale_bytes
    bytes_human b =
        let (scaled, unit) = scale_bytes b (codes "B") larger_units in
        if le (of_ℕ 1024) b
        then fixed 2 scaled ++ (b' ' ∷ unit)
        else fixed 0 scaled ++ (b' ' ∷ unit)

    unfoldable pub rate : F → Text
    unfolding bytes_human
    rate bytes_per_sec =
        if le bytes_per_sec (of_ℕ 0) then codes "idle" else bytes_human bytes_per_sec ++ codes "/s"
