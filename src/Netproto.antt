-- ===== src/Netproto.antt =====
-- netproto.go: protocol counters of /proc/net/snmp and /proc/net/netstat.
pub mod Pairs
use systats.Config.{SyStats}
use systats.Fileops.{read_file_with_error}
use systats.Go.Os.{Os}
use systats.Go.Outcome.{Outcome, ok}
use systats.Go.Strconv.{Parsed, parsed, parse_int}
use systats.Go.Strings.{fields, lines, has_suffix, trim_suffix}
use systats.Prelude.Int.{ℤ}
use systats.Prelude.Text.{Text, codes, eqb}
use systats.Prelude.{ℕ, not, Option, none, some, List, [], ◌∷◌, if◌then◌else◌}
use systats.Stats.{Dict, lookup, put}

abbrev pub Protocols : Type 0
Protocols = Dict (Dict ℤ)

pub record ProtocolStats : Type 0 where
  pub protocols : Protocols
  pub time : ℕ

unfoldable pub value : ProtocolStats → Text → Text → Option ℤ
unfolding lookup
value p protocol counter = elim (lookup protocol p.protocols) [
  | none ↦ none
  | some counters ↦ lookup counter counters
]

abbrev set_parsed : Text → Parsed ℤ → Dict ℤ → Dict ℤ
set_parsed name (parsed v) counters = put name v counters
set_parsed name _ counters = counters

-- The columns that both lines have.
unfoldable pub zip_columns : List Text → List Text → Dict ℤ → Dict ℤ
zip_columns (name ∷ header) (col ∷ cols) counters =
    zip_columns header cols (set_parsed name (parse_int col) counters)
zip_columns _ _ counters = counters

-- The loop's variables.
pub record SnmpState : Type 0 where
  pub pending_proto : Text
  pub pending_header : List Text
  pub into : Protocols

abbrev or_no_counters : Option (Dict ℤ) → Dict ℤ
or_no_counters (some counters) = counters
or_no_counters none = []

unfoldable pub snmp_columns : Text → List Text → SnmpState → SnmpState
unfolding zip_columns eqb
snmp_columns proto cols s =
    if eqb s.pending_proto proto
    then record {
      pending_proto = [];
      pending_header = [];
      into =
          put proto (zip_columns s.pending_header cols (or_no_counters (lookup proto s.into)))
            s.into;
    }
    else record s { pending_proto = proto; pending_header = cols }

unfoldable pub snmp_line : List Text → SnmpState → SnmpState
unfolding snmp_columns has_suffix trim_suffix
snmp_line (head ∷ col ∷ cols) s =
    if not (has_suffix head (codes ":"))
    then s
    else snmp_columns (trim_suffix head (codes ":")) (col ∷ cols) s
snmp_line _ s = s

unfoldable pub snmp_lines : List Text → SnmpState → SnmpState
snmp_lines [] s = s
snmp_lines (line ∷ rest) s = snmp_lines rest (snmp_line (fields line) s)

unfoldable pub parse_proc_net_snmp : Text → Protocols → Protocols
unfolding snmp_lines snmp_line put lookup fields lines parse_int
parse_proc_net_snmp content into =
    (snmp_lines (lines content)
      (record { pending_proto = []; pending_header = []; into = into })).into

snmp_files : Os → List Text → Protocols → Protocols
snmp_files os [] into = into
snmp_files os (path ∷ paths) into = snmp_files os paths (elim (read_file_with_error os path) [
  | ok content ↦ parse_proc_net_snmp content into
  | _ ↦ into
])

unfoldable pub get_protocol_stats : Os → SyStats → Outcome ProtocolStats
unfolding snmp_files parse_proc_net_snmp
get_protocol_stats os systats = ok (record {
  protocols = snmp_files os (systats.net_snmp_path ∷ systats.net_netstat_path ∷ []) [];
  time = os.now;
})
