-- ===== src/Container/Layer/Links.antt =====
-- container_layer.go: files with several links.
use systats.Container.Layer.{
  FileInfo, Visit, root_error, entry_error, irregular, no_info, regular, Inode, was_seen, inode_of,
  LayerTotal, add_file, layer_visits, layer_size, no_total,
}
use systats.Prelude.{◌<◌, ◌≡◌, refl, ap, Bool, true, false, List, [], ◌∷◌, ◌++◌, arith, lt→ltb}

seen-add_file :
    (info : FileInfo) (t : LayerTotal) (key : Inode)
    → was_seen t.seen key ≡ true
    → was_seen (add_file info t).seen key ≡ true
unfolding add_file was_seen
seen-add_file info t key h = ground arith

add_file-seen :
    (info : FileInfo) (t : LayerTotal)
    → 1 < info.links
    → was_seen (add_file info t).seen (inode_of info) ≡ true
unfolding add_file was_seen
add_file-seen info t h = ground arith

add_file-again :
    (info : FileInfo) (t : LayerTotal)
    → 1 < info.links
    → was_seen t.seen (inode_of info) ≡ true
    → add_file info t ≡ t
unfolding add_file
add_file-again info t h k = rw (lt→ltb _ _ h, k)

-- After its inode was seen, a file with several links is as if it were not there.
skip_seen :
    (mid post : List (Bool × Visit)) (info : FileInfo) (t : LayerTotal)
    → 1 < info.links
    → was_seen t.seen (inode_of info) ≡ true
    → layer_visits (mid ++ ((false, regular info) ∷ post)) t ≡ layer_visits (mid ++ post) t
unfolding layer_visits
skip_seen [] post info t h k = ap (layer_visits post) (add_file-again info t h k)
skip_seen ((done, root_error) ∷ mid) post info t h k = refl
skip_seen ((done, entry_error) ∷ mid) post info t h k = skip_seen mid post info t h k
skip_seen ((true, irregular) ∷ mid) post info t h k = refl
skip_seen ((true, no_info) ∷ mid) post info t h k = refl
skip_seen ((true, regular i) ∷ mid) post info t h k = refl
skip_seen ((false, irregular) ∷ mid) post info t h k = skip_seen mid post info t h k
skip_seen ((false, no_info) ∷ mid) post info t h k = skip_seen mid post info t h k
skip_seen ((false, regular i) ∷ mid) post info t h k =
    skip_seen mid post info (add_file i t) h (seen-add_file i t (inode_of info) k)

skip_link :
    (before mid post : List (Bool × Visit)) (info : FileInfo) (t : LayerTotal)
    → 1 < info.links
    → layer_visits (before ++ ((false, regular info) ∷ (mid ++ ((false, regular info) ∷ post)))) t
      ≡ layer_visits (before ++ ((false, regular info) ∷ (mid ++ post))) t
unfolding layer_visits
skip_link [] mid post info t h =
    skip_seen mid post info (add_file info t) h (add_file-seen info t h)
skip_link ((done, root_error) ∷ before) mid post info t h = refl
skip_link ((done, entry_error) ∷ before) mid post info t h = skip_link before mid post info t h
skip_link ((true, irregular) ∷ before) mid post info t h = refl
skip_link ((true, no_info) ∷ before) mid post info t h = refl
skip_link ((true, regular i) ∷ before) mid post info t h = refl
skip_link ((false, irregular) ∷ before) mid post info t h = skip_link before mid post info t h
skip_link ((false, no_info) ∷ before) mid post info t h = skip_link before mid post info t h
skip_link ((false, regular i) ∷ before) mid post info t h =
    skip_link before mid post info (add_file i t) h

-- A second link to a file that the walk has counted changes neither the size nor the number of files,
-- nor the error, wherever in the walk the two links stand and whatever else it visits.
pub layer_size-link :
    (before mid post : List (Bool × Visit)) (info : FileInfo)
    → 1 < info.links
    → layer_size (before ++ ((false, regular info) ∷ (mid ++ ((false, regular info) ∷ post))))
      ≡ layer_size (before ++ ((false, regular info) ∷ (mid ++ post)))
unfolding layer_size
layer_size-link before mid post info h = skip_link before mid post info no_total h
