-- ===== src/Container/Patterns.antt =====
-- container_discover.go: the names that the runtimes give a container's control group.
pub mod Names
use systats.Go.Paths
use systats.Go.Strings.{has_prefix, contains, replace_char, newline}
use systats.Prelude.Text.{Text, codes, eqb}
use systats.Prelude.{
  ℕ, ◌-◌, zero, suc, Bool, true, false, not, ◌&&◌, ◌||◌, ◌==◌, Option, none, some, List, [], ◌∷◌,
  ◌++◌, leb, length, take, drop, if◌then◌else◌,
}

-- [0-9a-f]
unfoldable pub is_hex : ℕ → Bool
is_hex c = (leb b'0' c && leb c b'9') || (leb b'a' c && leb c b'f')

-- `([0-9a-f]{n})` and then `suffix$`; `id` is what was read of the group.
unfoldable pub hex_then : ℕ → Text → Text → Text → Option Text
unfolding is_hex
hex_then zero id s suffix = if eqb s suffix then some id else none
hex_then (suc n) id [] suffix = none
hex_then (suc n) id (c ∷ s) suffix =
    let rest = hex_then n (id ++ c ∷ []) s suffix in if is_hex c then rest else none

-- What stands behind `prefix`.
unfoldable pub behind : Text → Text → Option Text
unfolding has_prefix
behind [] s = some s
behind (p ∷ ps) [] = none
behind (p ∷ ps) (c ∷ s) = if c == p then behind ps s else none

abbrev id_then : Text → Option Text → Option Text
id_then suffix none = none
id_then suffix (some s) = hex_then 64 [] s suffix

-- `^prefix([0-9a-f]{64})suffix$`
unfoldable pub hex_name : Text → Text → Text → Option Text
unfolding behind hex_then
hex_name prefix suffix name = id_then suffix (behind prefix name)

abbrev or_else {ℓ} : {A : Type ℓ} → Option A → Option A → Option A
or_else (some a) b = some a
or_else none b = b

-- `(.+)`: some characters, none of them a newline.
unfoldable pub some_text : Text → Option Text
unfolding contains
some_text [] = none
some_text (c ∷ s) = if contains (c ∷ s) (newline ∷ []) then none else some (c ∷ s)

-- `(.+)suffix$`
unfoldable pub text_before : Text → Text → Option Text
unfolding some_text eqb
text_before suffix s =
    if leb (length suffix) (length s) && eqb (drop (length s - length suffix) s) suffix
    then some_text (take (length s - length suffix) s)
    else none

abbrev text_then : Text → Option Text → Option Text
text_then suffix none = none
text_then suffix (some s) = text_before suffix s

-- `^prefix(.+)suffix$`
unfoldable pub text_name : Text → Text → Text → Option Text
unfolding behind text_before
text_name prefix suffix name = text_then suffix (behind prefix name)

abbrev if_parent : Text → Text → Option Text → Option Text
unfolding eqb
if_parent wanted parent found = if eqb parent wanted then found else none

abbrev of_runtime : Text → Option Text → Option (Text × Text)
of_runtime runtime none = none
of_runtime runtime (some id) = some (id, runtime)

-- `\x2d` at the head of a text
abbrev is_dash_escape : Text → Bool
unfolding has_prefix
is_dash_escape s = has_prefix s (codes "\\x2d")

-- strings.ReplaceAll(s, `\x2d`, "-"); the number is how many characters of an escape are left.
unfoldable pub unescape_dashes : ℕ → Text → Text
unfolding is_dash_escape
unescape_dashes n [] = []
unescape_dashes zero (c ∷ s) =
    if is_dash_escape (c ∷ s) then b'-' ∷ unescape_dashes 3 s else c ∷ unescape_dashes 0 s
unescape_dashes (suc n) (c ∷ s) = unescape_dashes n s

unfoldable pub unescape_systemd_unit_name : Text → Text
unfolding unescape_dashes
unescape_systemd_unit_name s = unescape_dashes 0 s

-- The patterns in their order: the first that fits gives the ID, still escaped, and the runtime.
unfoldable pub match_patterns : Text → Text → Option (Text × Text)
unfolding hex_name text_name if_parent
match_patterns name parent =
    or_else (of_runtime (codes "docker") (hex_name (codes "docker-") (codes ".scope") name)) (
      or_else
        (of_runtime (codes "docker") (if_parent (codes "docker") parent (hex_name [] [] name)))
        (or_else
          (of_runtime (codes "podman") (
            or_else (hex_name (codes "libpod-") [] name)
              (hex_name (codes "libpod-") (codes ".scope") name)))
          (or_else
            (of_runtime (codes "containerd")
              (hex_name (codes "cri-containerd-") (codes ".scope") name))
            (or_else (of_runtime (codes "cri-o") (hex_name (codes "crio-") (codes ".scope") name)) (
              or_else (of_runtime (codes "lxc") (text_name (codes "lxc.payload.") [] name)) (
                of_runtime (codes "machined") (
                  if_parent (codes "machine.slice") parent
                    (text_name (codes "machine-") (codes ".scope") name))))))))

abbrev bare_id : Text → Option Text → Option (Text × Text)
unfolding contains
bare_id rel_path none = none
bare_id rel_path (some id) =
    if contains rel_path (codes "kubepods") then some (id, codes "kubernetes") else none

unfoldable pub match_cgroup_name : Text → Text → Text → Option (Text × Text)
unfolding match_patterns unescape_systemd_unit_name bare_id hex_name
match_cgroup_name name parent rel_path = elim (match_patterns name parent) [
  | some (id, runtime) ↦ some (unescape_systemd_unit_name id, runtime)
  | none ↦ bare_id rel_path (hex_name [] [] name)
]

-- (id, runtime), or none
unfoldable pub match_container_cgroup : Text → Option (Text × Text)
unfolding match_cgroup_name
match_container_cgroup rel_path =
    match_cgroup_name (Paths.base rel_path) (Paths.base (Paths.dir rel_path)) rel_path

-- One place of the pod UID's pattern: `-` stands for [-_], anything else for a hexadecimal digit.
abbrev fits : ℕ → ℕ → Bool
unfolding is_hex
fits p c = if p == b'-' then c == b'-' || c == b'_' else is_hex c

unfoldable pub fits_all : Text → Text → Bool
unfolding fits
fits_all [] s = true
fits_all (p ∷ ps) [] = false
fits_all (p ∷ ps) (c ∷ s) = fits p c && fits_all ps s

abbrev pod_uid_shape : Text
pod_uid_shape = codes "00000000-0000-0000-0000-000000000000"

-- The group of a match that begins here.
abbrev pod_uid_at : Option Text → Option Text
unfolding fits_all
pod_uid_at none = none
pod_uid_at (some s) = if fits_all pod_uid_shape s then some (take 36 s) else none

-- The leftmost match.
unfoldable pub find_pod_uid : Text → Option Text
unfolding pod_uid_at behind
find_pod_uid [] = none
find_pod_uid (c ∷ s) = or_else (pod_uid_at (behind (codes "pod") (c ∷ s))) (find_pod_uid s)

abbrev or_no_uid : Option Text → Text
or_no_uid none = []
or_no_uid (some uid) = replace_char uid b'_' b'-'

unfoldable pub pod_uid_from_cgroup_path : Text → Text
unfolding find_pod_uid replace_char
pod_uid_from_cgroup_path rel_path = or_no_uid (find_pod_uid rel_path)
