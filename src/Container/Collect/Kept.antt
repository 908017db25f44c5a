-- ===== src/Container/Collect/Kept.antt =====
-- container.go: which containers are reported, and what stays of their identity.
use systats.Cgroup.{CgroupVersion, cgroup_none, cgroup_v1, cgroup_v2, detect_cgroup_version}
use systats.Config.{SyStats, SizeUnit, sleep_ctx, sample_window}
use systats.Container.Collect.{
  keep_container, measure_layer, read_all, selected, version_of, unit_bytes, collect_containers,
  get_containers,
}
use systats.Container.Discover.{ContainerRef, discover_containers}
use systats.Container.Host.{ContainerHostInfo, read_container_host_info}
use systats.Container.Layer.{Visit}
use systats.Container.Reader.{named_containers, read_container_stats, sample_all}
use systats.Container.Runtime.{ContainerMetadata}
use systats.Container.Stats.{read_container_memory, read_container_cpu_counters}
use systats.Container.Types.{Container, ContainerLayer}
use systats.Disk.{bytes_per_unit}
use systats.Go.Float.{Float64}
use systats.Go.Os.{Os}
use systats.Go.Outcome.{Outcome, ok, fail, panic, no_cgroup, ◌>>◌, >>=-eq-ok, ok-injective}
use systats.Prelude.Int.{ℤ}
use systats.Prelude.Text.{Text}
use systats.Prelude.{
  ℕ, ◌≡◌, refl, sym, ◌∙◌, subst, Bool, true, false, Option, List, [], ◌∷◌, ◌⊎◌, inl, inr,
}
use systats.Stats.{Dict}

module _ (fl : Float64) where
  open fl use {F}

  -- A reported container is the one that was found: its identity and what the runtime said of it.
  pub record IsSame (found c : Container fl) : Type 0 where
    pub id_lem : c.id ≡ found.id
    pub short_id_lem : c.short_id ≡ found.short_id
    pub name_lem : c.name ≡ found.name
    pub image_lem : c.image ≡ found.image
    pub labels_lem : c.labels ≡ found.labels
    pub runtime_lem : c.runtime ≡ found.runtime
    pub pod_uid_lem : c.pod_uid ≡ found.pod_uid
    pub metadata_lem : c.metadata_available ≡ found.metadata_available
    pub cgroup_lem : c.cgroup_path ≡ found.cgroup_path
    pub pid_lem : c.pid ≡ found.pid

  -- Some of the found containers, in their order.
  pub data AreKept : List (ContainerRef × Container fl) → List (Container fl) → Type 0 where
    nothing : AreKept [] []
    left_out :
        {p : ContainerRef × Container fl} {ps : List (ContainerRef × Container fl)}
        {cs : List (Container fl)}
        → AreKept ps cs
        → AreKept (p ∷ ps) cs
    kept :
        {p : ContainerRef × Container fl} {c : Container fl}
        {ps : List (ContainerRef × Container fl)} {cs : List (Container fl)}
        → IsSame p.1 c
        → AreKept ps cs
        → AreKept (p ∷ ps) (c ∷ cs)

  none_kept : (ps : List (ContainerRef × Container fl)) → AreKept ps []
  none_kept [] = nothing
  none_kept (p ∷ ps) = left_out (none_kept ps)

  read_container_stats-IsSame :
      (os : Os) (systats : SyStats) (host : ContainerHostInfo) (unit : SizeUnit) (bytes_per : F)
      (ref : ContainerRef) (found c : Container fl)
      → read_container_stats fl os systats host unit bytes_per ref found ≡ ok c
      → IsSame found c
  unfolding read_container_stats
  read_container_stats-IsSame os systats host unit bytes_per ref found c h =
      let (memory, m, rest) =
        >>=-eq-ok (read_container_memory fl os ref.dirs host.memory_bytes bytes_per unit) _ h in
      let (cpu, k, last) = >>=-eq-ok (read_container_cpu_counters fl os ref.dirs) _ rest in
      subst (IsSame found) (ok-injective last) (record {
        id_lem = refl;
        short_id_lem = refl;
        name_lem = refl;
        image_lem = refl;
        labels_lem = refl;
        runtime_lem = refl;
        pod_uid_lem = refl;
        metadata_lem = refl;
        cgroup_lem = refl;
        pid_lem = refl;
      })

  IsSame-trans : (a b c : Container fl) → IsSame a b → IsSame b c → IsSame a c
  IsSame-trans a b c h k = record {
    id_lem = k.id_lem ∙ h.id_lem;
    short_id_lem = k.short_id_lem ∙ h.short_id_lem;
    name_lem = k.name_lem ∙ h.name_lem;
    image_lem = k.image_lem ∙ h.image_lem;
    labels_lem = k.labels_lem ∙ h.labels_lem;
    runtime_lem = k.runtime_lem ∙ h.runtime_lem;
    pod_uid_lem = k.pod_uid_lem ∙ h.pod_uid_lem;
    metadata_lem = k.metadata_lem ∙ h.metadata_lem;
    cgroup_lem = k.cgroup_lem ∙ h.cgroup_lem;
    pid_lem = k.pid_lem ∙ h.pid_lem;
  }

  module _ (walk_dir : Text → List (Bool × Visit)) (walk_done : Bool) where
    -- What follows the reading writes the layer and the CPU figures only.
    keep_container_cases :
        (ref : ContainerRef) (usage1 usage2 : Option F) (elapsed_seconds : F) (cores : ℕ)
        (layer : Outcome (ContainerLayer fl)) (o : Outcome (Container fl))
        (out : List (Container fl))
        → keep_container fl walk_dir walk_done ref usage1 usage2 elapsed_seconds cores layer o
          ≡ ok out
        → (out ≡ []) ⊎ ((c d : Container fl) × (o ≡ ok c) × (out ≡ d ∷ []) × IsSame c d)
    unfolding keep_container
    keep_container_cases ref u1 u2 el cores layer (fail e) out h = inl (sym (ok-injective h))
    keep_container_cases ref u1 u2 el cores layer (panic p) out h = inl (sym (ok-injective h))
    keep_container_cases ref u1 u2 el cores layer (ok c) out h =
        let (l, m, last) = >>=-eq-ok layer _ h in
        inr (
          c,
          _,
          refl,
          sym (ok-injective last),
          record {
            id_lem = refl;
            short_id_lem = refl;
            name_lem = refl;
            image_lem = refl;
            labels_lem = refl;
            runtime_lem = refl;
            pod_uid_lem = refl;
            metadata_lem = refl;
            cgroup_lem = refl;
            pid_lem = refl;
          },
        )

    read_all-AreKept :
        (os : Os) (systats : SyStats) (host : ContainerHostInfo) (unit : SizeUnit)
        (bytes_per elapsed_seconds : F) (ps : List (ContainerRef × Container fl))
        (us1 us2 : List (Option F)) (cs : List (Container fl))
        → read_all fl walk_dir walk_done os systats host unit bytes_per elapsed_seconds ps us1 us2
          ≡ ok cs
        → AreKept ps cs
    unfolding read_all
    read_all-AreKept os systats host unit bp el [] us1 us2 cs h =
        subst (AreKept []) (ok-injective h) nothing
    read_all-AreKept os systats host unit bp el (p ∷ ps) [] us2 cs h =
        subst (AreKept (p ∷ ps)) (ok-injective h) (none_kept (p ∷ ps))
    read_all-AreKept os systats host unit bp el (p ∷ ps) (u1 ∷ us1) [] cs h =
        subst (AreKept (p ∷ ps)) (ok-injective h) (none_kept (p ∷ ps))
    read_all-AreKept os systats host unit bp el ((ref, found) ∷ ps) (u1 ∷ us1) (u2 ∷ us2) cs h =
        let stats = read_container_stats fl os systats host unit bp ref found in
        let (out, m, rest) =
          >>=-eq-ok
            (keep_container fl walk_dir walk_done ref u1 u2 el host.cores
              (measure_layer fl walk_dir walk_done os systats unit bp ref) stats)
            _ h in
        let (others, k, last) =
          >>=-eq-ok (read_all fl walk_dir walk_done os systats host unit bp el ps us1 us2) _ rest in
        let later = read_all-AreKept os systats host unit bp el ps us1 us2 others k in
        subst (AreKept ((ref, found) ∷ ps)) (ok-injective last)
          (elim (keep_container_cases ref u1 u2 el host.cores _ stats out m) [
            | inl e ↦ rw e (left_out later)
            | inr (c, d, s, e, i) ↦ rw e (
                kept
                  (IsSame-trans found c d
                    (read_container_stats-IsSame os systats host unit bp ref found c s) i)
                  later)
          ])

    version_of_lem :
        (os : Os) (systats : SyStats) (v : CgroupVersion)
        → version_of fl walk_dir walk_done os systats ≡ ok v
        → detect_cgroup_version os systats.cgroup_root_path ≡ v
    unfolding version_of
    version_of_lem os systats v h = by_version (detect_cgroup_version os systats.cgroup_root_path) h
      where
        by_version :
            (found : CgroupVersion)
            → (elim found [
              | cgroup_none ↦ fail (no_cgroup systats.cgroup_root_path)
              | cgroup_v1 ↦ ok cgroup_v1
              | cgroup_v2 ↦ ok cgroup_v2
            ])
              ≡ ok v
            → found ≡ v
        by_version cgroup_none e = cc
        by_version cgroup_v1 e = ok-injective e
        by_version cgroup_v2 e = ok-injective e

    not_done :
        {A : Type 0} (done : Bool) (d : ℤ) (next : Outcome A) (a : A)
        → (sleep_ctx done d >> next) ≡ ok a
        → (done ≡ false) × (next ≡ ok a)
    unfolding sleep_ctx
    not_done true d next a h = cc
    not_done false d next a h = (refl, h)

    -- Where getContainers returns without an error, the context was not done before the sampling
    -- window was over, and the containers that it returns are some of those that the walk of the
    -- control groups found, in the order in which it found them: each with the identity that was
    -- found, and with the name, the image and the labels of the runtime, whatever happened meanwhile.
    pub get_containers-AreKept :
        (search_depth : ℕ) (known : Outcome (Dict ContainerMetadata)) (os1 os2 os3 : Os)
        (done : Bool) (elapsed_seconds : F) (systats : SyStats) (unit : SizeUnit)
        (cs : List (Container fl))
        → get_containers fl walk_dir walk_done search_depth known os1 os2 os3 done elapsed_seconds
            systats unit
          ≡ ok cs
        → (done ≡ false)
          × AreKept
              (named_containers fl known (
                discover_containers search_depth os1 systats
                  (detect_cgroup_version os1 systats.cgroup_root_path)))
              cs
    unfolding get_containers collect_containers selected
    get_containers-AreKept depth known os1 os2 os3 done el systats unit cs h =
        let (bp, b, h1) =
          >>=-eq-ok (unit_bytes fl walk_dir walk_done (bytes_per_unit fl unit) unit) _ h in
        let (v, w, h2) = >>=-eq-ok (version_of fl walk_dir walk_done os1 systats) _ h1 in
        let found = named_containers fl known (discover_containers depth os1 systats v) in
        let (host, k, h3) = >>=-eq-ok (read_container_host_info fl os1 systats) _ h2 in
        let (us1, l, h4) = >>=-eq-ok (sample_all fl os1 found) _ h3 in
        let (awake, h5) = not_done done (sample_window systats) _ cs h4 in
        let (us2, m, h6) = >>=-eq-ok (sample_all fl os2 found) _ h5 in
        (
          awake,
          subst
              (λ u.
                AreKept (named_containers fl known (discover_containers depth os1 systats u)) cs)
              (sym (version_of_lem os1 systats v w))
              (read_all-AreKept os3 systats host unit bp el found us1 us2 cs h6),
        )
