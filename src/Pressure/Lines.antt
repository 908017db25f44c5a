-- ===== src/Pressure/Lines.antt =====
-- pressure.go: parsePressure on files as the kernel writes them.
use systats.Go.Float.{Float64}
use systats.Go.Strconv.RoundTrip.{format_uint-IsWord, parse_uint-format_uint}
use systats.Go.Strconv.{max_uint64, format_uint, uint_value}
use systats.Go.Strings.Fields.{IsWord, IsSolid, fields-word-space, fields-word, IsSolid-Lacks}
use systats.Go.Strings.Split.{Lacks, split-append, cut-append}
use systats.Go.Strings.{fields, fields_from, split, lines, newline, is_space}
use systats.Prelude.Text.{Text, codes}
use systats.Prelude.{ℕ, ◌≤◌, ◌≡◌, ◌≢◌, refl, ap, ◌∙◌, true, List, [], ◌∷◌, ◌++◌, All-append, arith}
use systats.Pressure.{
  PressureMetric, ResourcePressure, no_resource, set_metric, metric_field, metric_fields,
  pressure_line, pressure_lines, parse_pressure, parse_float_or_zero,
}

-- "key=value"
abbrev pub setting : Text → Text → Text
setting key value = key ++ (b'=' ∷ value)

-- The kernel's line of one kind, with the averages as texts.
abbrev pub psi_line : Text → Text → Text → Text → ℕ → Text
psi_line kind a10 a60 a300 total =
    kind
    ++ (32
        ∷ (setting (codes "avg10") a10
            ++ (32
                ∷ (setting (codes "avg60") a60
                    ++ (32
                        ∷ (setting (codes "avg300") a300
                            ++ (32 ∷ setting (codes "total") (format_uint total))))))))

avg10-IsWord : (v : Text) → IsSolid v → IsWord (setting (codes "avg10") v)
unfolding is_space
avg10-IsWord v h = ((cc), (refl, (refl, (refl, (refl, (refl, (refl, h)))))))

avg60-IsWord : (v : Text) → IsSolid v → IsWord (setting (codes "avg60") v)
unfolding is_space
avg60-IsWord v h = ((cc), (refl, (refl, (refl, (refl, (refl, (refl, h)))))))

avg300-IsWord : (v : Text) → IsSolid v → IsWord (setting (codes "avg300") v)
unfolding is_space
avg300-IsWord v h = ((cc), (refl, (refl, (refl, (refl, (refl, (refl, (refl, h))))))))

total-IsWord : (v : Text) → IsSolid v → IsWord (setting (codes "total") v)
unfolding is_space
total-IsWord v h = ((cc), (refl, (refl, (refl, (refl, (refl, (refl, h)))))))

space : is_space 32 ≡ true
unfolding is_space
space = refl

fields-psi_line :
    (kind a10 a60 a300 : Text) (total : ℕ)
    → IsWord kind
    → IsSolid a10
    → IsSolid a60
    → IsSolid a300
    → fields (psi_line kind a10 a60 a300 total)
      ≡ kind
        ∷ setting (codes "avg10") a10
        ∷ setting (codes "avg60") a60
        ∷ setting (codes "avg300") a300
        ∷ setting (codes "total") (format_uint total)
        ∷ []
fields-psi_line kind a10 a60 a300 total k h h' h'' =
    let last = total-IsWord (format_uint total) (format_uint-IsWord total).1 in
    fields-word-space kind 32 _ k space
    ∙ ap (◌∷◌ kind) (
        fields-word-space (setting (codes "avg10") a10) 32 _ (avg10-IsWord a10 h) space
        ∙ ap (◌∷◌ (setting (codes "avg10") a10)) (
            fields-word-space (setting (codes "avg60") a60) 32 _ (avg60-IsWord a60 h') space
            ∙ ap (◌∷◌ (setting (codes "avg60") a60)) (
                fields-word-space (setting (codes "avg300") a300) 32 _ (avg300-IsWord a300 h'')
                  space
                ∙ ap (◌∷◌ (setting (codes "avg300") a300))
                    (fields-word (setting (codes "total") (format_uint total)) last))))

module _ (fl : Float64) where
  open fl use {F, parse}

  metric_field-setting :
      (key value : Text) (t : PressureMetric fl)
      → Lacks b'=' key
      → metric_field fl (setting key value) t ≡ set_metric fl key value t
  unfolding metric_field
  metric_field-setting key value t h = rw (cut-append key value b'=' h, metric_field)

  -- The figures of a line, from its texts.
  abbrev pub metric_of : Text → Text → Text → ℕ → PressureMetric fl
  metric_of a10 a60 a300 total = record {
    avg10 = parse_float_or_zero fl a10;
    avg60 = parse_float_or_zero fl a60;
    avg300 = parse_float_or_zero fl a300;
    total = total;
  }

  metric_fields-settings :
      (a10 a60 a300 : Text) (total : ℕ) (t : PressureMetric fl)
      → total ≤ max_uint64
      → metric_fields fl
          (setting (codes "avg10") a10
            ∷ setting (codes "avg60") a60
            ∷ setting (codes "avg300") a300
            ∷ setting (codes "total") (format_uint total)
            ∷ [])
          t
        ≡ metric_of a10 a60 a300 total
  unfolding metric_fields
  metric_fields-settings a10 a60 a300 total t h =
      rw
        (
          metric_field-setting (codes "avg10") a10 t (omega arith),
          metric_field-setting (codes "avg60") a60 _ (omega arith),
          metric_field-setting (codes "avg300") a300 _ (omega arith),
          metric_field-setting (codes "total") (format_uint total) _ (omega arith),
        )
        (unfold set_metric uint_value in rw (parse_uint-format_uint total h) refl)

  -- The figures of one kind, and what is needed of their texts.
  pub record IsMetric (a10 a60 a300 : Text) (total : ℕ) : Type 0 where
    pub solid10 : IsSolid a10
    pub solid60 : IsSolid a60
    pub solid300 : IsSolid a300
    pub fits : total ≤ max_uint64

  Lacks-word : (w r : Text) → IsWord w → Lacks newline r → Lacks newline (w ++ (32 ∷ r))
  Lacks-word w r h k =
      All-append (λ c. c ≢ newline) w (32 ∷ r)
        (IsSolid-Lacks newline w (unfold is_space in refl) h.1) ((omega arith), k)

  psi_line-Lacks :
      (kind a10 a60 a300 : Text) (total : ℕ)
      → IsWord kind
      → IsMetric a10 a60 a300 total
      → Lacks newline (psi_line kind a10 a60 a300 total)
  psi_line-Lacks kind a10 a60 a300 total k m = Lacks-word kind _ k (
      Lacks-word (setting (codes "avg10") a10) _ (avg10-IsWord a10 m.solid10) (
        Lacks-word (setting (codes "avg60") a60) _ (avg60-IsWord a60 m.solid60) (
          Lacks-word (setting (codes "avg300") a300) _ (avg300-IsWord a300 m.solid300) (
            IsSolid-Lacks newline (setting (codes "total") (format_uint total))
              (unfold is_space in refl)
              (total-IsWord (format_uint total) (format_uint-IsWord total).1).1))))

  some_IsWord : IsWord (codes "some")
  unfolding is_space
  some_IsWord = ((cc), (refl, (refl, (refl, (refl, tt)))))

  full_IsWord : IsWord (codes "full")
  unfolding is_space
  full_IsWord = ((cc), (refl, (refl, (refl, (refl, tt)))))

  pressure_line-some :
      (a10 a60 a300 : Text) (total : ℕ) (r : ResourcePressure fl)
      → IsMetric a10 a60 a300 total
      → pressure_line fl (fields (psi_line (codes "some") a10 a60 a300 total)) r
        ≡ record r { some_stall = metric_of a10 a60 a300 total }
  unfolding pressure_line
  pressure_line-some a10 a60 a300 total r m = rw (
    fields-psi_line (codes "some") a10 a60 a300 total some_IsWord m.solid10 m.solid60 m.solid300,
    metric_fields-settings a10 a60 a300 total r.some_stall m.fits,
  )

  pressure_line-full :
      (a10 a60 a300 : Text) (total : ℕ) (r : ResourcePressure fl)
      → IsMetric a10 a60 a300 total
      → pressure_line fl (fields (psi_line (codes "full") a10 a60 a300 total)) r
        ≡ record r { full_stall = metric_of a10 a60 a300 total; full_available = true }
  unfolding pressure_line
  pressure_line-full a10 a60 a300 total r m = rw (
    fields-psi_line (codes "full") a10 a60 a300 total full_IsWord m.solid10 m.solid60 m.solid300,
    metric_fields-settings a10 a60 a300 total r.full_stall m.fits,
  )

  lines-append : (l rest : Text) → Lacks newline l → lines (l ++ (newline ∷ rest)) ≡ l ∷ lines rest
  unfolding lines
  lines-append l rest h = split-append l rest newline h

  pressure_lines-cons :
      (l : Text) (ls : List Text) (r : ResourcePressure fl)
      → pressure_lines fl (l ∷ ls) r ≡ pressure_lines fl ls (pressure_line fl (fields l) r)
  unfolding pressure_lines
  pressure_lines-cons l ls r = refl

  no_lines : (r : ResourcePressure fl) → pressure_lines fl (lines []) r ≡ r
  unfolding pressure_lines pressure_line lines split fields fields_from
  no_lines r = refl

  -- A file with a "some" and a "full" line, whose averages hold no white space and whose totals
  -- fit 64 bits, gives the figures of both and marks the second as available; the averages are
  -- what ParseFloat makes of their texts, 0 on its error.
  pub parse_pressure_full :
      (a10 a60 a300 b10 b60 b300 : Text) (total total' : ℕ)
      → IsMetric a10 a60 a300 total
      → IsMetric b10 b60 b300 total'
      → parse_pressure fl (
          psi_line (codes "some") a10 a60 a300 total
          ++ (newline ∷ (psi_line (codes "full") b10 b60 b300 total' ++ (newline ∷ []))))
        ≡ record {
          some_stall = metric_of a10 a60 a300 total;
          full_stall = metric_of b10 b60 b300 total';
          full_available = true;
        }
  parse_pressure_full a10 a60 a300 b10 b60 b300 total total' m n =
      parse_by_lines _
      ∙ rw
          (
            lines-append (psi_line (codes "some") a10 a60 a300 total) _
                (psi_line-Lacks (codes "some") a10 a60 a300 total some_IsWord m),
            lines-append (psi_line (codes "full") b10 b60 b300 total') []
                (psi_line-Lacks (codes "full") b10 b60 b300 total' full_IsWord n),
            pressure_lines-cons,
            pressure_line-some a10 a60 a300 total (no_resource fl) m,
            pressure_lines-cons,
            pressure_line-full b10 b60 b300 total' _ n,
          )
          (no_lines _)
    where
      parse_by_lines :
          (s : Text) → parse_pressure fl s ≡ pressure_lines fl (lines s) (no_resource fl)
      parse_by_lines s = unfold parse_pressure in refl
