-- ===== src/Memory/Host.antt =====
-- memory.go: parseMeminfo on files as the kernel writes them.
use systats.Go.Float.{Float64}
use systats.Go.Outcome.{ok, ◌>>=◌}
use systats.Go.Strconv.RoundTrip.{format_uint-IsWord, parse_uint-format_uint}
use systats.Go.Strconv.{max_uint64, format_uint}
use systats.Go.Strings.Columns.{spaces, fields-column, spaces-Lacks, word-Lacks}
use systats.Go.Strings.Fields.{IsWord, fields-word-space, fields-word, IsSolid-Lacks}
use systats.Go.Strings.Split.{Lacks, split-append}
use systats.Go.Strings.{fields, fields_from, split, lines, newline, is_space}
use systats.Go.Words.{word}
use systats.Memory.{Meminfo, meminfo_line, meminfo_lines, summarise}
use systats.Prelude.{
  ℕ, ◌+◌, ◌≤◌, ◌<◌, ◌≡◌, ◌≢◌, refl, ap, ◌∙◌, append-nil, Bool, true, false, List, [], ◌∷◌, ◌++◌,
  arith, All, All-append, if◌then◌else◌,
}
use systats.Prelude.Text.{Text, codes, eqb, eqb_iff}
use systats.Strops.{to_uint64}

-- A line of /proc/meminfo: its key with the colon, how many spaces pad the column after the first,
-- the number, and whether the unit follows.
pub record MeminfoRow : Type 0 where
  pub key : Text
  pub padding : ℕ
  pub value : ℕ
  pub in_kib : Bool

abbrev unit_text : Bool → Text
unit_text true = 32 ∷ codes "kB"
unit_text false = []

abbrev unit_fields : Bool → List Text
unit_fields true = codes "kB" ∷ []
unit_fields false = []

abbrev pub meminfo_entry : MeminfoRow → Text
meminfo_entry r = r.key ++ (32 ∷ (spaces r.padding ++ (format_uint r.value ++ unit_text r.in_kib)))

abbrev pub meminfo_file : List MeminfoRow → Text
meminfo_file [] = []
meminfo_file (r ∷ rs) = meminfo_entry r ++ (newline ∷ meminfo_file rs)

abbrev pub IsFigure : MeminfoRow → Type 0
IsFigure r = IsWord r.key × (r.value ≤ max_uint64)

-- The figure of the last line with the key, or what was known before.
abbrev pub last_figure : Text → List MeminfoRow → ℕ → ℕ
last_figure k [] before = before
last_figure k (r ∷ rs) before = last_figure k rs (if eqb r.key k then r.value else before)

abbrev pub read_figures : List MeminfoRow → Meminfo → Meminfo
read_figures es m = record {
  total = last_figure (codes "MemTotal:") es m.total;
  free = last_figure (codes "MemFree:") es m.free;
  available = last_figure (codes "MemAvailable:") es m.available;
  buffers = last_figure (codes "Buffers:") es m.buffers;
  cached = last_figure (codes "Cached:") es m.cached;
}

unit_IsWord : IsWord (codes "kB")
unfolding is_space
unit_IsWord = ((cc), (refl, (refl, tt)))

number_fields :
    (value : ℕ) (in_kib : Bool)
    → fields (format_uint value ++ unit_text in_kib) ≡ format_uint value ∷ unit_fields in_kib
number_fields value true =
    fields-word-space (format_uint value) 32 (codes "kB") (format_uint-IsWord value)
      (unfold is_space in refl)
    ∙ ap (◌∷◌ (format_uint value)) (fields-word (codes "kB") unit_IsWord)
number_fields value false =
    ap fields (append-nil (format_uint value))
    ∙ fields-word (format_uint value) (format_uint-IsWord value)

pub fields-meminfo_entry :
    (r : MeminfoRow)
    → IsWord r.key
    → fields (meminfo_entry r) ≡ r.key ∷ format_uint r.value ∷ unit_fields r.in_kib
fields-meminfo_entry r h =
    fields-column r.key r.padding _ h ∙ ap (◌∷◌ r.key) (number_fields r.value r.in_kib)

meminfo_line-entry :
    (r : MeminfoRow) (number : Text) (rest : List Text) (m : Meminfo)
    → to_uint64 number ≡ ok r.value
    → meminfo_line (r.key ∷ number ∷ rest) m ≡ ok (read_figures (r ∷ []) m)
unfolding meminfo_line
meminfo_line-entry r number rest m h = ground (
  arith,
  eqb_iff r.key (codes "MemTotal:"),
  eqb_iff r.key (codes "MemFree:"),
  eqb_iff r.key (codes "MemAvailable:"),
  eqb_iff r.key (codes "Buffers:"),
  eqb_iff r.key (codes "Cached:"),
)

pub to_uint64-format_uint : (n : ℕ) → n ≤ max_uint64 → to_uint64 (format_uint n) ≡ ok n
unfolding to_uint64
to_uint64-format_uint n h = rw (parse_uint-format_uint n h)

number-Lacks : (value : ℕ) (in_kib : Bool) → Lacks newline (format_uint value ++ unit_text in_kib)
number-Lacks value in_kib =
    All-append (λ c. c ≢ newline) (format_uint value) (unit_text in_kib)
      (IsSolid-Lacks newline (format_uint value) (unfold is_space in refl)
        (format_uint-IsWord value).1)
      (unit-Lacks in_kib)
  where
    unit-Lacks : (in_kib : Bool) → Lacks newline (unit_text in_kib)
    unit-Lacks true = omega arith
    unit-Lacks false = tt

pub lines-meminfo_file :
    (r : MeminfoRow) (rs : List MeminfoRow)
    → IsWord r.key
    → lines (meminfo_file (r ∷ rs)) ≡ meminfo_entry r ∷ lines (meminfo_file rs)
unfolding lines
lines-meminfo_file r rs h =
    split-append (meminfo_entry r) (meminfo_file rs) newline
      (word-Lacks r.key _ h.1 (spaces-Lacks r.padding _ (number-Lacks r.value r.in_kib)))

meminfo_lines-cons :
    (line : Text) (rest : List Text) (m m' : Meminfo)
    → meminfo_line (fields line) m ≡ ok m'
    → meminfo_lines (line ∷ rest) m ≡ meminfo_lines rest m'
unfolding meminfo_lines
meminfo_lines-cons line rest m m' h = rw (h, ◌>>=◌)

-- On a file of the kernel's form, where any number of spaces pads the column and the unit may be
-- missing, of word keys and 64-bit numbers, whatever lines it holds, the loop of parseMeminfo ends
-- with the figure of the last line of each of its five keys, or the one it began with where there is
-- none.
pub meminfo_lines-meminfo_file :
    (rs : List MeminfoRow) (m : Meminfo)
    → All IsFigure rs
    → meminfo_lines (lines (meminfo_file rs)) m ≡ ok (read_figures rs m)
meminfo_lines-meminfo_file [] m h =
    unfold meminfo_lines meminfo_line lines split fields fields_from in refl
meminfo_lines-meminfo_file (r ∷ rs) m (h, hs) = rw (lines-meminfo_file r rs h.0) (
    meminfo_lines-cons (meminfo_entry r) _ m (read_figures (r ∷ []) m) (
      rw (fields-meminfo_entry r h.0)
        (meminfo_line-entry r (format_uint r.value) _ m (to_uint64-format_uint r.value h.1)))
    ∙ meminfo_lines-meminfo_file rs (read_figures (r ∷ []) m) hs)

module _ (fl : Float64) where
  -- Where free, buffers and cached together do not exceed a positive 64-bit total, `used` and these
  -- three add up to the total.
  pub summarise_exact :
      (m : Meminfo)
      → 0 < m.total
      → m.total < word
      → m.free + m.buffers + m.cached ≤ m.total
      → (summarise fl m).used + m.free + m.buffers + m.cached ≡ m.total
  unfolding summarise
  summarise_exact m p h k = ground arith

  -- Where they exceed a positive total, and their sum still fits 64 bits, the subtraction wraps:
  -- `used` is 2 ^ 64 less the excess, which is more than the total.
  pub summarise_wraps :
      (m : Meminfo)
      → 0 < m.total
      → m.total < m.free + m.buffers + m.cached
      → m.free + m.buffers + m.cached < word
      → ((summarise fl m).used + (m.free + m.buffers + m.cached) ≡ m.total + word)
        × (m.total < (summarise fl m).used)
  unfolding summarise
  summarise_wraps m p h k = ground arith
