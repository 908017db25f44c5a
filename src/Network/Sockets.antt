-- ===== src/Network/Sockets.antt =====
-- network.go: the established TCP sockets of a process.
pub mod Count
use systats.Config.{SyStats}
use systats.Fileops.{read_file_with_error}
use systats.Go.Os.{Os, DirEntry}
use systats.Go.Outcome.{Outcome, ok}
use systats.Go.Paths
use systats.Go.Strconv.{itoa}
use systats.Go.Strings.{has_prefix, has_suffix, trim_space, to_upper}
use systats.Network.Tcp.{TcpSocketRecord, read_tcp_socket_records}
use systats.Prelude.Int.{ℤ}
use systats.Prelude.Text.{Text, codes, eqb}
use systats.Prelude.{
  ℕ, ◌+◌, ◌-◌, Bool, true, false, not, ◌&&◌, ◌||◌, Option, none, some, List, [], ◌∷◌, ◌++◌, length,
  take, drop, if◌then◌else◌,
}
use systats.Process.Stat.{proc_file_path}
use systats.Process.{list_pids}

-- Membership in the map of inodes.
unfoldable pub has_inode : List Text → Text → Bool
has_inode [] inode = false
has_inode (i ∷ inodes) inode = eqb i inode || has_inode inodes inode

-- strings.EqualFold(r.state, "01")
abbrev is_established : TcpSocketRecord → Bool
unfolding to_upper eqb
is_established r = eqb (to_upper r.state) (codes "01")

unfoldable pub inodes_of : List TcpSocketRecord → List Text
unfolding is_established
inodes_of [] = []
inodes_of (r ∷ rest) = if is_established r then r.inode ∷ inodes_of rest else inodes_of rest

unfoldable pub established_tcp_inodes : Os → SyStats → List Text
unfolding inodes_of read_tcp_socket_records
established_tcp_inodes os systats = inodes_of (read_tcp_socket_records os systats)

-- "socket:[" inode "]"
unfoldable pub socket_inode : Text → Option Text
unfolding has_prefix has_suffix
socket_inode target =
    if not (has_prefix target (codes "socket:[")) || not (has_suffix target (codes "]"))
    then none
    else some (take (length target - 1 - 8) (drop 8 target))

abbrev counts : List Text → Option Text → Bool
unfolding has_inode
counts inodes none = false
counts inodes (some inode) = has_inode inodes inode

abbrev inode_of_link : Option Text → Option Text
unfolding socket_inode
inode_of_link none = none
inode_of_link (some target) = socket_inode target

unfoldable pub count_fds : Os → Text → List Text → List DirEntry → ℕ
unfolding counts inode_of_link
count_fds os fd_dir inodes [] = 0
count_fds os fd_dir inodes (e ∷ es) =
    (if counts inodes (inode_of_link (os.read_link (fd_dir ++ (b'/' ∷ e.name)))) then 1 else 0)
    + count_fds os fd_dir inodes es

abbrev or_no_entries : Option (List DirEntry) → List DirEntry
or_no_entries none = []
or_no_entries (some es) = es

unfoldable pub count_matching_socket_fds : Os → Text → ℤ → List Text → ℕ
unfolding count_fds itoa
count_matching_socket_fds os proc_path pid inodes =
    let fd_dir = Paths.join (proc_path ∷ itoa pid ∷ codes "fd" ∷ []) in
    count_fds os fd_dir inodes (or_no_entries (os.read_dir fd_dir))

abbrev is_called : Text → Outcome Text → Bool
unfolding trim_space eqb
is_called name (ok comm) = eqb (trim_space comm) name
is_called name _ = false

unfoldable pub named_pids : Os → Text → Text → List ℤ → List ℤ
unfolding is_called proc_file_path
named_pids os proc_path name [] = []
named_pids os proc_path name (pid ∷ pids) =
    let rest = named_pids os proc_path name pids in
    if is_called name (read_file_with_error os (proc_file_path proc_path pid (codes "comm")))
    then pid ∷ rest
    else rest

unfoldable pub find_pids_by_name : Os → Text → Text → List ℤ
unfolding named_pids list_pids
find_pids_by_name os proc_path name = elim (list_pids os proc_path) [
  | ok pids ↦ named_pids os proc_path name pids
  | _ ↦ []
]

unfoldable pub count_all : Os → Text → List Text → List ℤ → ℕ
unfolding count_matching_socket_fds
count_all os proc_path inodes [] = 0
count_all os proc_path inodes (pid ∷ pids) =
    count_matching_socket_fds os proc_path pid inodes + count_all os proc_path inodes pids

unfoldable pub established_tcp_conn_count : Os → SyStats → Text → ℕ
unfolding find_pids_by_name established_tcp_inodes count_all
established_tcp_conn_count os systats process =
    elim (find_pids_by_name os systats.proc_path process) [
      | [] ↦ 0
      | pid ∷ pids ↦ elim (established_tcp_inodes os systats) [
        | [] ↦ 0
        | inode ∷ inodes ↦ count_all os systats.proc_path (inode ∷ inodes) (pid ∷ pids)
      ]
    ]
