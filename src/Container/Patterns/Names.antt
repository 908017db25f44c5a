-- ===== src/Container/Patterns/Names.antt =====
-- container_discover.go: the names that the systemd driver gives.
use systats.Container.Patterns.{
  is_hex, hex_then, hex_name, if_parent, behind, match_patterns, match_cgroup_name, unescape_dashes,
  unescape_systemd_unit_name,
}
use systats.Prelude.Text.{Text, codes, eqb}
use systats.Prelude.{
  ℕ, ◌≡◌, refl, sym, ap, ◌∙◌, true, false, none, some, [], ◌∷◌, ◌++◌, append-nil, append_assoc,
  arith, ◌==◌, All, length, if◌then◌else◌,
}

abbrev pub AreHex : Text → Type 0
AreHex = All (λ c. is_hex c ≡ true)

-- A full ID: 64 hexadecimal digits.
abbrev pub IsId : Text → Type 0
IsId id = (length id ≡ 64) × AreHex id

pub data ScopeRuntime : Type 0 where
  docker podman containerd cri_o : ScopeRuntime

abbrev pub runtime_name : ScopeRuntime → Text
runtime_name docker = codes "docker"
runtime_name podman = codes "podman"
runtime_name containerd = codes "containerd"
runtime_name cri_o = codes "cri-o"

-- The name that the systemd driver gives the group of a container.
abbrev pub scope_name : ScopeRuntime → Text → Text
scope_name docker id = codes "docker-" ++ (id ++ codes ".scope")
scope_name podman id = codes "libpod-" ++ (id ++ codes ".scope")
scope_name containerd id = codes "cri-containerd-" ++ (id ++ codes ".scope")
scope_name cri_o id = codes "crio-" ++ (id ++ codes ".scope")

hex_then-append :
    (id got rest suffix : Text)
    → AreHex id
    → hex_then (length id) got (id ++ rest) suffix
      ≡ (if eqb rest suffix then some (got ++ id) else none)
unfolding hex_then
hex_then-append [] got rest suffix h = rw append-nil
hex_then-append (c ∷ id) got rest suffix h =
    rw h.0 (hex_then-append id (got ++ c ∷ []) rest suffix h.1 ∙ rw append_assoc refl)

hex_then-id :
    (id rest suffix : Text)
    → IsId id
    → hex_then 64 [] (id ++ rest) suffix ≡ (if eqb rest suffix then some id else none)
hex_then-id id rest suffix (n, h) =
    ap (λ k. hex_then k [] (id ++ rest) suffix) (sym n) ∙ hex_then-append id [] rest suffix h

hex_backslash : (c : ℕ) → is_hex c ≡ true → (c == b'\\') ≡ false
unfolding is_hex
hex_backslash c h = ground arith

unescape-hex : (id : Text) → AreHex id → unescape_dashes 0 id ≡ id
unfolding unescape_dashes
unescape-hex [] h = refl
unescape-hex (c ∷ id) h =
    rw (hex_backslash c h.0, unescape_dashes) (ap (◌∷◌ c) (unescape-hex id h.1))

if_parent-none : (wanted parent : Text) → if_parent wanted parent none ≡ none
if_parent-none wanted parent = unfold if_parent in ground arith

match_patterns-scope_name :
    (r : ScopeRuntime) (id parent : Text)
    → IsId id
    → match_patterns (scope_name r id) parent ≡ some (id, runtime_name r)
unfolding match_patterns hex_name behind hex_then eqb
match_patterns-scope_name docker id parent h =
    rw (hex_then-id id (codes ".scope") (codes ".scope") h)
match_patterns-scope_name podman id parent h = rw (
  if_parent-none,
  hex_then-id id (codes ".scope") [] h,
  hex_then-id id (codes ".scope") (codes ".scope") h,
)
match_patterns-scope_name containerd id parent h =
    rw (if_parent-none, hex_then-id id (codes ".scope") (codes ".scope") h)
match_patterns-scope_name cri_o id parent h =
    rw (if_parent-none, hex_then-id id (codes ".scope") (codes ".scope") h)

-- A container of the systemd driver with a full ID is recognised under each of the four runtimes,
-- with its ID unchanged, whatever its parent group and path are.
pub match_cgroup_name-scope_name :
    (r : ScopeRuntime) (id parent rel_path : Text)
    → IsId id
    → match_cgroup_name (scope_name r id) parent rel_path ≡ some (id, runtime_name r)
unfolding match_cgroup_name unescape_systemd_unit_name
match_cgroup_name-scope_name r id parent rel_path h =
    rw (match_patterns-scope_name r id parent h, match_cgroup_name, unescape-hex id h.1) refl

match_patterns-conmon :
    (id parent : Text)
    → match_patterns (codes "libpod-conmon-" ++ (id ++ codes ".scope")) parent ≡ none
unfolding match_patterns hex_name behind hex_then eqb
match_patterns-conmon id parent =
    rw (if_parent-none (codes "docker") parent, if_parent-none (codes "machine.slice") parent)

-- Podman's bookkeeping group beside a container is none, whatever stands where the ID would.
pub match_cgroup_name-conmon :
    (id parent rel_path : Text)
    → match_cgroup_name (codes "libpod-conmon-" ++ (id ++ codes ".scope")) parent rel_path ≡ none
unfolding match_cgroup_name hex_name behind hex_then
match_cgroup_name-conmon id parent rel_path =
    rw (match_patterns-conmon id parent, match_cgroup_name) refl
