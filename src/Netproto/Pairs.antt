-- ===== src/Netproto/Pairs.antt =====
-- netproto.go: files of paired lines as the kernel writes them.
use systats.Go.Strconv.Signed.{IsInt64, parse_int-itoa, itoa-IsWord}
use systats.Go.Strconv.{itoa}
use systats.Go.Strings.Fields.{IsWord, fields-word-space, fields-word, IsSolid-Lacks}
use systats.Go.Strings.Split.{Lacks, split-append}
use systats.Go.Strings.{
  fields, fields_from, split, lines, newline, is_space, has_suffix, trim_suffix,
}
use systats.Netproto.{
  Protocols, SnmpState, zip_columns, or_no_counters, snmp_columns, snmp_line, snmp_lines,
  parse_proc_net_snmp,
}
use systats.Prelude.Int.{ℤ}
use systats.Prelude.Text.{Text, codes, eqb_iff, eqb_refl}
use systats.Prelude.{
  ℕ, ◌-◌, ◌≡◌, ◌≢◌, refl, ap, ◌∙◌, true, false, List, [], ◌∷◌, ◌++◌, append-nil, arith, All,
  All-append, length, length-append, take, drop, leb,
}
use systats.Stats.{Dict, lookup, put}

-- The words, each behind a space.
abbrev pub spaced : List Text → Text
spaced [] = []
spaced (w ∷ ws) = 32 ∷ (w ++ spaced ws)

abbrev pub names : Dict ℤ → List Text
names [] = []
names ((name, v) ∷ counters) = name ∷ names counters

abbrev pub numbers : Dict ℤ → List Text
numbers [] = []
numbers ((name, v) ∷ counters) = itoa v ∷ numbers counters

-- "Proto: word word ..."
abbrev pub row : Text → List Text → Text
row proto cols = (proto ++ codes ":") ++ spaced cols

-- A header line and a value line for each protocol.
abbrev pub snmp_file : Protocols → Text
snmp_file [] = []
snmp_file ((proto, counters) ∷ blocks) =
    row proto (names counters)
    ++ (newline ∷ (row proto (numbers counters) ++ (newline ∷ snmp_file blocks)))

abbrev pub put_all : Dict ℤ → Dict ℤ → Dict ℤ
put_all [] known = known
put_all ((name, v) ∷ counters) known = put_all counters (put name v known)

-- The blocks merged into what is known, one after the other.
abbrev pub merged : Protocols → Protocols → Protocols
merged [] into = into
merged ((proto, counters) ∷ blocks) into =
    merged blocks (put proto (put_all counters (or_no_counters (lookup proto into))) into)

abbrev pub IsColumn : Text × ℤ → Type 0
IsColumn (name, v) = IsWord name × IsInt64 v

-- A protocol that is a word, with one counter at least.
abbrev pub IsBlock : Text × Dict ℤ → Type 0
IsBlock (proto, counters) = IsWord proto × (counters ≢ []) × All IsColumn counters

fields-spaced :
    (w : Text) (ws : List Text) → IsWord w → All IsWord ws → fields (w ++ spaced ws) ≡ w ∷ ws
fields-spaced w [] h hs = ap (λ s. fields s) (append-nil w) ∙ fields-word w h
fields-spaced w (x ∷ xs) h hs =
    fields-word-space w 32 (x ++ spaced xs) h (unfold is_space in refl)
    ∙ ap (◌∷◌ w) (fields-spaced x xs hs.0 hs.1)

append-ne-nil : (p : Text) (c : ℕ) → p ++ c ∷ [] ≢ []
append-ne-nil [] c e = cc
append-ne-nil (d ∷ p) c e = cc

colon-IsWord : (proto : Text) → IsWord proto → IsWord (proto ++ codes ":")
colon-IsWord proto h = (
  append-ne-nil proto b':',
  All-append (λ c. is_space c ≡ false) proto (codes ":") h.1 (unfold is_space in (refl, tt)),
)

names-AreWords : (counters : Dict ℤ) → All IsColumn counters → All IsWord (names counters)
names-AreWords [] h = tt
names-AreWords ((name, v) ∷ counters) h = (h.0.0, names-AreWords counters h.1)

numbers-AreWords : (counters : Dict ℤ) → All IsColumn counters → All IsWord (numbers counters)
numbers-AreWords [] h = tt
numbers-AreWords ((name, v) ∷ counters) h = (itoa-IsWord v, numbers-AreWords counters h.1)

drop-append : (p r : Text) → drop (length p) (p ++ r) ≡ r
drop-append [] r = refl
drop-append (c ∷ p) r = drop-append p r

take-append : (p r : Text) → take (length p) (p ++ r) ≡ p
take-append [] r = refl
take-append (c ∷ p) r = ap (◌∷◌ c) (take-append p r)

length-colon : (proto : Text) → length (proto ++ codes ":") - 1 ≡ length proto
length-colon proto = omega (arith, length-append proto (codes ":"))

long : (proto : Text) → leb 1 (length (proto ++ codes ":")) ≡ true
long proto = ground (arith, length-append proto (codes ":"))

has_suffix-colon : (proto : Text) → has_suffix (proto ++ codes ":") (codes ":") ≡ true
unfolding has_suffix
has_suffix-colon proto =
    rw (long proto, length-colon proto, drop-append proto (codes ":"), eqb_refl) refl

trim_suffix-colon : (proto : Text) → trim_suffix (proto ++ codes ":") (codes ":") ≡ proto
unfolding trim_suffix
trim_suffix-colon proto =
    rw (has_suffix-colon proto, length-colon proto) (take-append proto (codes ":"))

zip_columns-put_all :
    (counters known : Dict ℤ)
    → All IsColumn counters
    → zip_columns (names counters) (numbers counters) known ≡ put_all counters known
unfolding zip_columns
zip_columns-put_all [] known h = refl
zip_columns-put_all ((name, v) ∷ counters) known h =
    rw (parse_int-itoa v h.0.1, zip_columns) (zip_columns-put_all counters (put name v known) h.1)

-- A line of the kernel's form, whose columns are not none.
snmp_line-row :
    (proto : Text) (cols : List Text) (s : SnmpState)
    → IsWord proto
    → cols ≢ []
    → All IsWord cols
    → snmp_line (fields (row proto cols)) s ≡ snmp_columns proto cols s
unfolding snmp_line
snmp_line-row proto [] s h ne hs = absurd (ne refl)
snmp_line-row proto (c ∷ cols) s h ne hs =
    rw (fields-spaced (proto ++ codes ":") (c ∷ cols) (colon-IsWord proto h) hs, snmp_line)
      (rw (trim_suffix-colon proto, has_suffix-colon proto) refl)

spaced-Lacks : (ws : List Text) → All IsWord ws → Lacks newline (spaced ws)
spaced-Lacks [] h = tt
spaced-Lacks (w ∷ ws) h = (
  (omega arith),
  All-append (λ c. c ≢ newline) w (spaced ws)
      (IsSolid-Lacks newline w (unfold is_space in refl) h.0.1) (spaced-Lacks ws h.1),
)

lines-row :
    (proto : Text) (cols : List Text) (rest : Text)
    → IsWord proto
    → All IsWord cols
    → lines (row proto cols ++ (newline ∷ rest)) ≡ row proto cols ∷ lines rest
unfolding lines
lines-row proto cols rest h hs = split-append (row proto cols) rest newline (
    All-append (λ c. c ≢ newline) (proto ++ codes ":") (spaced cols)
      (IsSolid-Lacks newline (proto ++ codes ":") (unfold is_space in refl)
        (colon-IsWord proto h).1)
      (spaced-Lacks cols hs))

-- No header is pending.
abbrev waiting : Protocols → SnmpState
waiting into = record { pending_proto = []; pending_header = []; into = into }

header :
    (proto : Text) (cols : List Text) (into : Protocols)
    → proto ≢ []
    → snmp_columns proto cols (waiting into)
      ≡ record { pending_proto = proto; pending_header = cols; into = into }
unfolding snmp_columns
header proto cols into h = ground (arith, eqb_iff [] proto)

numbers_row :
    (proto : Text) (header cols : List Text) (into : Protocols)
    → snmp_columns proto cols
        (record { pending_proto = proto; pending_header = header; into = into })
      ≡ waiting (put proto (zip_columns header cols (or_no_counters (lookup proto into))) into)
unfolding snmp_columns
numbers_row proto header cols into = rw eqb_refl

names-ne-nil : (counters : Dict ℤ) → counters ≢ [] → names counters ≢ []
names-ne-nil [] h e = h refl
names-ne-nil ((name, v) ∷ counters) h e = cc

numbers-ne-nil : (counters : Dict ℤ) → counters ≢ [] → numbers counters ≢ []
numbers-ne-nil [] h e = h refl
numbers-ne-nil ((name, v) ∷ counters) h e = cc

snmp_lines-cons :
    (l : Text) (ls : List Text) (s : SnmpState)
    → snmp_lines (l ∷ ls) s ≡ snmp_lines ls (snmp_line (fields l) s)
unfolding snmp_lines
snmp_lines-cons l ls s = refl

snmp_lines-snmp_file :
    (blocks into : Protocols)
    → All IsBlock blocks
    → snmp_lines (lines (snmp_file blocks)) (waiting into) ≡ waiting (merged blocks into)
snmp_lines-snmp_file [] into h = unfold snmp_lines snmp_line lines split fields fields_from in refl
snmp_lines-snmp_file ((proto, counters) ∷ blocks) into (h, hs) =
    rw
      (
        lines-row proto (names counters) _ h.0 (names-AreWords counters h.2),
        lines-row proto (numbers counters) _ h.0 (numbers-AreWords counters h.2),
        snmp_lines-cons,
        snmp_line-row proto (names counters) (waiting into) h.0 (names-ne-nil counters h.1)
            (names-AreWords counters h.2),
        header proto (names counters) into h.0.0,
        snmp_lines-cons,
        snmp_line-row proto (numbers counters) _ h.0 (numbers-ne-nil counters h.1)
            (numbers-AreWords counters h.2),
        numbers_row proto (names counters) (numbers counters) into,
        zip_columns-put_all counters (or_no_counters (lookup proto into)) h.2,
      )
      (snmp_lines-snmp_file blocks _ hs)

-- On a header line and a value line for each of some protocols, where every protocol and counter is a
-- word, every value fits an int64 and no protocol is without counters, parseProcNetSNMP puts each
-- value under its protocol and counter, later ones in place of earlier ones, and changes no others.
pub parse_proc_net_snmp-snmp_file :
    (blocks into : Protocols)
    → All IsBlock blocks
    → parse_proc_net_snmp (snmp_file blocks) into ≡ merged blocks into
unfolding parse_proc_net_snmp
parse_proc_net_snmp-snmp_file blocks into h =
    ap (λ (s : SnmpState). s.into) (snmp_lines-snmp_file blocks into h)
