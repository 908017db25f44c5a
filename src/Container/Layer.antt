-- ===== src/Container/Layer.antt =====
-- container_layer.go: the size of a container's writable layer. filepath.WalkDir is the sequence of
-- its calls back; the flag beside each is whether the context was done by then.
pub mod Links
use systats.Config.{SizeUnit}
use systats.Container.Mounts.{overlay_upper_dir}
use systats.Container.Types.{ContainerLayer}
use systats.Fileops.{read_file_with_error}
use systats.Go.Float.{Float64}
use systats.Go.Os.{Os}
use systats.Go.Outcome.{Outcome, ok, fail, panic, cancelled, no_dir}
use systats.Go.Paths
use systats.Go.Strconv.{itoa}
use systats.Go.Words.{add64}
use systats.Prelude.Int.{ℤ}
use systats.Prelude.Text.{Text, codes, eqb}
use systats.Prelude.{ℕ, Bool, true, false, ◌&&◌, ◌||◌, ◌==◌, List, [], ◌∷◌, ltb, if◌then◌else◌}

-- The fields of a file's information that are read.
pub record FileInfo : Type 0 where
  pub size : ℕ
  pub links : ℕ
  pub dev : ℕ
  pub ino : ℕ

-- One call: with an error, for the layer itself or for something in it; for something that is no
-- regular file; or for a regular file without or with its information.
pub data Visit : Type 0 where
  root_error entry_error irregular no_info : Visit
  regular : FileInfo → Visit

abbrev pub Inode : Type 0
Inode = ℕ × ℕ

abbrev pub same_inode : Inode → Inode → Bool
same_inode (dev, ino) (dev', ino') = dev == dev' && ino == ino'

unfoldable pub was_seen : List Inode → Inode → Bool
was_seen [] key = false
was_seen (i ∷ seen) key = same_inode i key || was_seen seen key

abbrev pub inode_of : FileInfo → Inode
inode_of info = (info.dev, info.ino)

-- The variables of the walk.
pub record LayerTotal : Type 0 where
  pub seen : List Inode
  pub size : ℕ
  pub files : ℕ

abbrev count_file : FileInfo → LayerTotal → LayerTotal
count_file info t = record t { size = add64 t.size info.size; files = add64 t.files 1 }

unfoldable pub add_file : FileInfo → LayerTotal → LayerTotal
unfolding was_seen
add_file info t =
    if ltb 1 info.links
    then (if was_seen t.seen (inode_of info)
        then t
        else count_file info (record t { seen = inode_of info ∷ t.seen }))
    else count_file info t

unfoldable pub layer_visits : List (Bool × Visit) → LayerTotal → Outcome LayerTotal
unfolding add_file
layer_visits [] t = ok t
layer_visits ((done, root_error) ∷ rest) t = fail no_dir
layer_visits ((done, entry_error) ∷ rest) t = layer_visits rest t
layer_visits ((true, irregular) ∷ rest) t = fail cancelled
layer_visits ((true, no_info) ∷ rest) t = fail cancelled
layer_visits ((true, regular info) ∷ rest) t = fail cancelled
layer_visits ((false, irregular) ∷ rest) t = layer_visits rest t
layer_visits ((false, no_info) ∷ rest) t = layer_visits rest t
layer_visits ((false, regular info) ∷ rest) t = layer_visits rest (add_file info t)

abbrev pub no_total : LayerTotal
no_total = record { seen = []; size = 0; files = 0 }

unfoldable pub layer_size : List (Bool × Visit) → Outcome LayerTotal
unfolding layer_visits
layer_size visits = layer_visits visits no_total

module _ (fl : Float64) where
  open fl use {F, of_ℕ, div}

  abbrev unmeasured : SizeUnit → Text → ContainerLayer fl
  unmeasured unit path = record {
    size = of_ℕ 0;
    unit = unit;
    files = 0;
    path = path;
    available = false;
  }

  -- An error is returned only where the context is done.
  abbrev measured : SizeUnit → F → Text → Bool → Outcome LayerTotal → Outcome (ContainerLayer fl)
  measured unit bytes_per upper done (ok t) = ok (record (unmeasured unit upper) {
    size = div (of_ℕ t.size) bytes_per;
    files = t.files;
    available = true;
  })
  measured unit bytes_per upper done (panic p) = panic p
  measured unit bytes_per upper done (fail e) =
      if done then fail cancelled else ok (unmeasured unit upper)

  abbrev layer_of :
      (Text → List (Bool × Visit)) → Bool → Text → SizeUnit → F → Text → Outcome (ContainerLayer fl)
  unfolding layer_size eqb
  layer_of walk_dir done proc_path unit bytes_per upper =
      if eqb upper []
      then ok (unmeasured unit [])
      else measured unit bytes_per upper done
          (layer_size (walk_dir (Paths.join (proc_path ∷ codes "1" ∷ codes "root" ∷ upper ∷ []))))

  unfoldable pub read_container_layer :
      (Text → List (Bool × Visit))
      → Bool
      → Os
      → Text
      → ℤ
      → SizeUnit
      → F
      → Outcome (ContainerLayer fl)
  unfolding layer_of overlay_upper_dir itoa
  read_container_layer walk_dir done os proc_path pid unit bytes_per =
      elim (read_file_with_error os (Paths.join (proc_path ∷ itoa pid ∷ codes "mounts" ∷ []))) [
        | ok mounts ↦ layer_of walk_dir done proc_path unit bytes_per (overlay_upper_dir mounts)
        | _ ↦ ok (unmeasured unit [])
      ]
