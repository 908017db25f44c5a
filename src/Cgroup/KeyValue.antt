-- ===== src/Cgroup/KeyValue.antt =====
-- cgroup.go: parseKeyValueStat on files as the kernel writes them.
use systats.Cgroup.{key_value_line, key_value_lines, parse_key_value_stat}
use systats.Go.Strconv.RoundTrip.{format_uint-IsWord, parse_uint-format_uint}
use systats.Go.Strconv.{max_uint64, format_uint}
use systats.Go.Strings.Fields.{IsWord, fields-word-space, fields-word, IsSolid-Lacks}
use systats.Go.Strings.Split.{Lacks, split-append}
use systats.Go.Strings.{fields, fields_from, split, lines, newline, is_space}
use systats.Prelude.{
  ℕ, ◌≤◌, ◌≡◌, ◌≢◌, refl, ap, ◌∙◌, Option, none, some, List, [], ◌∷◌, ◌++◌, arith, All, All-append,
  if◌then◌else◌,
}
use systats.Prelude.Text.{Text, eqb}
use systats.Stats.{Dict, lookup, put, lookup-put}

-- The kernel's line for a counter.
abbrev pub stat_line : Text × ℕ → Text
stat_line (key, value) = key ++ (32 ∷ format_uint value)

-- The file that lists the counters, with a newline behind each.
abbrev pub stat_file : Dict ℕ → Text
stat_file [] = []
stat_file (e ∷ es) = stat_line e ++ (newline ∷ stat_file es)

-- The value on the last line of a key, or what was known before.
abbrev pub last_value : Text → Dict ℕ → Option ℕ → Option ℕ
last_value k [] before = before
last_value k ((j, v) ∷ es) before = last_value k es (if eqb j k then some v else before)

abbrev pub IsCounter : Text × ℕ → Type 0
IsCounter (key, value) = IsWord key × (value ≤ max_uint64)

fields-stat_line :
    (key : Text) (value : ℕ)
    → IsWord key
    → fields (stat_line (key, value)) ≡ key ∷ format_uint value ∷ []
fields-stat_line key value h =
    fields-word-space key 32 (format_uint value) h (unfold is_space in refl)
    ∙ ap (◌∷◌ key) (fields-word _ (format_uint-IsWord value))

key_value-stat_line :
    (key : Text) (value : ℕ) (stats : Dict ℕ)
    → IsWord key
    → value ≤ max_uint64
    → key_value_line (fields (stat_line (key, value))) stats ≡ put key value stats
unfolding key_value_line
key_value-stat_line key value stats h k =
    rw (fields-stat_line key value h) (rw (parse_uint-format_uint value k) refl)

stat_line-Lacks : (key : Text) (value : ℕ) → IsWord key → Lacks newline (stat_line (key, value))
stat_line-Lacks key value h =
    All-append (λ c. c ≢ newline) key (32 ∷ format_uint value)
      (IsSolid-Lacks newline key (unfold is_space in refl) h.1)
      (
        (omega arith),
        IsSolid-Lacks newline (format_uint value) (unfold is_space in refl)
            (format_uint-IsWord value).1,
      )

lines-stat_file :
    (key : Text) (value : ℕ) (es : Dict ℕ)
    → IsWord key
    → lines (stat_file ((key, value) ∷ es)) ≡ stat_line (key, value) ∷ lines (stat_file es)
unfolding lines
lines-stat_file key value es h =
    split-append (stat_line (key, value)) (stat_file es) newline (stat_line-Lacks key value h)

key_value_lines-cons :
    (line : Text) (rest : List Text) (stats : Dict ℕ)
    → key_value_lines (line ∷ rest) stats
      ≡ key_value_lines rest (key_value_line (fields line) stats)
unfolding key_value_lines
key_value_lines-cons line rest stats = refl

lookup-stat_file :
    (k : Text) (es stats : Dict ℕ)
    → All IsCounter es
    → lookup k (key_value_lines (lines (stat_file es)) stats) ≡ last_value k es (lookup k stats)
lookup-stat_file k [] stats h =
    unfold key_value_lines key_value_line lines split fields fields_from in refl
lookup-stat_file k ((key, value) ∷ es) stats (h, hs) =
    rw
      (
        lines-stat_file key value es h.0,
        key_value_lines-cons,
        key_value-stat_line key value stats h.0 h.1,
      )
      (lookup-stat_file k es (put key value stats) hs
        ∙ ap (last_value k es) (lookup-put key k value stats))

-- Reading a printed list of counters, whose keys are words and whose values fit 64 bits, gives each
-- key the value of its last line, and no other key any value.
pub lookup-parse_key_value_stat :
    (k : Text) (es : Dict ℕ)
    → All IsCounter es
    → lookup k (parse_key_value_stat (stat_file es)) ≡ last_value k es none
unfolding parse_key_value_stat
lookup-parse_key_value_stat k es h = lookup-stat_file k es [] h ∙ unfold lookup in refl
