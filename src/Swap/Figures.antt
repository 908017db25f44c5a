-- ===== src/Swap/Figures.antt =====
-- swap.go: getSwap and its used figure.
use systats.Config.{SyStats, SizeUnit}
use systats.Fileops.{read_file_with_error}
use systats.Go.Float.{Float64}
use systats.Go.Os.{Os}
use systats.Go.Outcome.{ok, ◌>>=◌}
use systats.Go.Strconv.{format_uint}
use systats.Go.Strings.{fields, fields_from, split, lines}
use systats.Go.Words.{word}
use systats.Memory.Host.{
  MeminfoRow, meminfo_file, meminfo_entry, IsFigure, last_figure, fields-meminfo_entry,
  to_uint64-format_uint, lines-meminfo_file,
}
use systats.Memory.{kib_converter, percentage}
use systats.Prelude.{ℕ, ◌+◌, ◌≤◌, ◌<◌, ◌≡◌, ◌⊎◌, refl, ◌∙◌, List, [], ◌∷◌, arith, All, lt→ltb}
use systats.Prelude.Text.{Text, codes, eqb_iff}
use systats.Strops.{to_uint64}
use systats.Swap.{SwapKib, no_swap, swap_line, swap_lines, parse_swap_meminfo, used_kib, get_swap}

abbrev pub read_figures : List MeminfoRow → SwapKib → SwapKib
read_figures es s = record {
  total_kib = last_figure (codes "SwapTotal:") es s.total_kib;
  free_kib = last_figure (codes "SwapFree:") es s.free_kib;
}

swap_line-entry :
    (r : MeminfoRow) (number : Text) (rest : List Text) (s : SwapKib)
    → to_uint64 number ≡ ok r.value
    → swap_line (r.key ∷ number ∷ rest) s ≡ ok (read_figures (r ∷ []) s)
unfolding swap_line
swap_line-entry r number rest s h =
    ground (arith, eqb_iff r.key (codes "SwapTotal:"), eqb_iff r.key (codes "SwapFree:"))

swap_lines-cons :
    (line : Text) (rest : List Text) (s s' : SwapKib)
    → swap_line (fields line) s ≡ ok s'
    → swap_lines (line ∷ rest) s ≡ swap_lines rest s'
unfolding swap_lines
swap_lines-cons line rest s s' h = rw (h, ◌>>=◌)

swap_lines-meminfo_file :
    (es : List MeminfoRow) (s : SwapKib)
    → All IsFigure es
    → swap_lines (lines (meminfo_file es)) s ≡ ok (read_figures es s)
swap_lines-meminfo_file [] s h = unfold swap_lines swap_line lines split fields fields_from in refl
swap_lines-meminfo_file (r ∷ rs) s (h, hs) = rw (lines-meminfo_file r rs h.0) (
    swap_lines-cons (meminfo_entry r) _ s (read_figures (r ∷ []) s) (
      rw (fields-meminfo_entry r h.0)
        (swap_line-entry r (format_uint r.value) _ s (to_uint64-format_uint r.value h.1)))
    ∙ swap_lines-meminfo_file rs (read_figures (r ∷ []) s) hs)

-- Free swap that does not exceed a 64-bit total leaves used and free adding up to the total; a free
-- figure above a positive total wraps, and `used` is then more than the total.
pub used_kib_lem :
    (s : SwapKib)
    → s.total_kib < word
    → s.free_kib < word
    → ((s.free_kib ≤ s.total_kib) × (used_kib s + s.free_kib ≡ s.total_kib))
      ⊎ ((s.total_kib ≡ 0) × (used_kib s ≡ 0))
      ⊎ ((0 < s.total_kib) × (s.total_kib < s.free_kib) × (s.total_kib < used_kib s))
unfolding used_kib
used_kib_lem s h k = ground arith

module _ (fl : Float64) where
  -- For a supported unit and a meminfo file of the kernel's form, its columns padded by any number of
  -- spaces and the unit present or not, of word keys and 64-bit numbers, with a positive SwapTotal of at least SwapFree, getSwap reports the last figures of the two
  -- keys, their difference as used, and its percentage.
  pub get_swap-meminfo_file :
      (os : Os) (systats : SyStats) (unit : SizeUnit) (es : List MeminfoRow) (used : ℕ)
      {convert : ℕ → fl.F}
      → kib_converter fl unit ≡ ok convert
      → read_file_with_error os systats.meminfo_path ≡ ok (meminfo_file es)
      → All IsFigure es
      → used + last_figure (codes "SwapFree:") es 0 ≡ last_figure (codes "SwapTotal:") es 0
      → 0 < last_figure (codes "SwapTotal:") es 0
      → last_figure (codes "SwapTotal:") es 0 < word
      → get_swap fl os systats unit
        ≡ ok (record {
          percentage_used = percentage fl used (last_figure (codes "SwapTotal:") es 0);
          free = convert (last_figure (codes "SwapFree:") es 0);
          used = convert used;
          time = os.now;
          total = convert (last_figure (codes "SwapTotal:") es 0);
          unit = unit;
        })
  unfolding get_swap
  get_swap-meminfo_file os systats unit es used hu hm hs sum p b =
      rw (hu, hm, parsed_file) (rw (difference, lt→ltb _ _ p) refl)
    where
      parsed_file : parse_swap_meminfo (meminfo_file es) ≡ ok (read_figures es no_swap)
      parsed_file = unfold parse_swap_meminfo in swap_lines-meminfo_file es no_swap hs

      difference : used_kib (read_figures es no_swap) ≡ used
      difference = unfold used_kib in ground arith
