-- ===== src/System/Release.antt =====
-- system.go: the name of the operating system in os-release.
use systats.Config.{SyStats}
use systats.Fileops.{read_file_with_error}
use systats.Go.Os.{Os}
use systats.Go.Outcome.{ok}
use systats.Go.Strings.Index.{last_index_of-append}
use systats.Go.Strings.Split.{Lacks, join, split-join_middle}
use systats.Go.Strings.{has_prefix, last_index_of, lines, newline}
use systats.Prelude.Text.{Text, codes}
use systats.Prelude.{
  ℕ, suc, ◌≡◌, ◌≢◌, refl, ap, sym, ◌∙◌, true, false, some, List, [], ◌∷◌, ◌++◌, arith, All,
  append-nil, All-append, All-map, length, take, drop, take-append,
}
use systats.System.{
  quote, pretty_name_key, pretty_name, or_before, os_of_lines, release_content,
  get_operating_system,
}

-- The line of the name, with what may stand behind its closing quote.
abbrev pub pretty_line : Text → Text → Text
pretty_line name tail = pretty_name_key ++ (name ++ (quote ∷ tail))

-- A line that does not set the name.
abbrev pub IsOtherLine : Text → Type 0
IsOtherLine line = (has_prefix line pretty_name_key ≡ false) × Lacks newline line

has_prefix-append : (p s : Text) → has_prefix (p ++ s) p ≡ true
unfolding has_prefix
has_prefix-append [] [] = refl
has_prefix-append [] (c ∷ s) = refl
has_prefix-append (d ∷ p) s = ground (arith, has_prefix-append p s)

pretty_name_step :
    (line rest name : Text) (i : ℕ)
    → has_prefix line pretty_name_key ≡ true
    → drop (length pretty_name_key) line ≡ rest
    → last_index_of rest quote ≡ some (suc i)
    → take (suc i) rest ≡ name
    → pretty_name line ≡ some name
unfolding pretty_name
pretty_name_step line rest name i p d l t = rw (p, d, l, t, pretty_name) refl

pretty_name-pretty_line :
    (name tail : Text)
    → name ≢ []
    → Lacks quote tail
    → pretty_name (pretty_line name tail) ≡ some name
pretty_name-pretty_line [] tail h l = absurd (h refl)
pretty_name-pretty_line (c ∷ name) tail h l =
    let rest = (c ∷ name) ++ (quote ∷ tail) in
    pretty_name_step (pretty_line (c ∷ name) tail) rest (c ∷ name) (length name)
      (has_prefix-append pretty_name_key rest) refl (last_index_of-append (c ∷ name) tail quote l)
      (take-append (c ∷ name) (quote ∷ tail))

os_of_lines_others :
    (ls rest : List Text) (os_name : Text)
    → All IsOtherLine ls
    → os_of_lines os_name (ls ++ rest) ≡ os_of_lines os_name rest
unfolding os_of_lines pretty_name
os_of_lines_others [] rest os_name h = refl
os_of_lines_others (l ∷ ls) rest os_name h =
    rw (h.0.0, os_of_lines, pretty_name) (os_of_lines_others ls rest os_name h.1)

others_Lack : (ls : List Text) → All IsOtherLine ls → All (Lacks newline) ls
others_Lack = All-map IsOtherLine (Lacks newline) (λ l h. h.1)

os_of_lines_named :
    (name tail : Text) (after : List Text) (os_name : Text)
    → name ≢ []
    → Lacks quote tail
    → All IsOtherLine after
    → os_of_lines os_name (pretty_line name tail ∷ after) ≡ name
unfolding os_of_lines
os_of_lines_named name tail after os_name h lt ha =
    ap (λ n. os_of_lines (or_before n os_name) after) (pretty_name-pretty_line name tail h lt)
    ∙ ap (os_of_lines name) (sym (append-nil after))
    ∙ os_of_lines_others after [] name ha

pretty_line-Lacks :
    (name tail : Text)
    → Lacks newline name
    → Lacks newline tail
    → Lacks newline (pretty_line name tail)
pretty_line-Lacks name tail ln lt =
    All-append (λ c. c ≢ newline) pretty_name_key (name ++ (quote ∷ tail)) (omega arith)
      (All-append (λ c. c ≢ newline) name (quote ∷ tail) ln ((omega arith), lt))

-- Where os-release is a file whose one line PRETTY_NAME="..." has a name that is not empty, and no
-- other quote behind it, getOperatingSystem returns that name, quotes inside it and all: the other
-- lines are any that do not begin with that key, and no line holds a line feed.
pub get_operating_system-pretty_line :
    (os : Os) (systats : SyStats) (before after : List Text) (name tail : Text)
    → name ≢ []
    → Lacks newline name
    → Lacks quote tail
    → Lacks newline tail
    → All IsOtherLine before
    → All IsOtherLine after
    → read_file_with_error os (systats.etc_path ++ codes "/os-release")
      ≡ ok (join (before ++ (pretty_line name tail ∷ after)) newline)
    → get_operating_system os systats ≡ ok name
unfolding get_operating_system release_content lines os_of_lines
get_operating_system-pretty_line os systats before after name tail h ln lt lnt hb ha r =
    let line = pretty_line name tail in
    let lacks : All (Lacks newline) (before ++ (line ∷ after)) =
      All-append (Lacks newline) before (line ∷ after) (others_Lack before hb)
        (pretty_line-Lacks name tail ln lnt, others_Lack after ha) in
    rw (r, get_operating_system, release_content)
      (ap ok (
        ap (os_of_lines []) (split-join_middle before after line newline lacks)
        ∙ os_of_lines_others before (line ∷ after) [] hb
        ∙ os_of_lines_named name tail after [] h lt ha))
