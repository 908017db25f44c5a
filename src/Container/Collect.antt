-- ===== src/Container/Collect.antt =====
-- container.go: collecting the containers. The runtime's answer, which comes over its socket, is an
-- argument.
pub mod Kept
use systats.Cgroup.{CgroupVersion, cgroup_none, cgroup_v1, cgroup_v2, detect_cgroup_version}
use systats.Config.{SyStats, SizeUnit, sleep_ctx, sample_window}
use systats.Container.Blockio.{read_container_block_io}
use systats.Container.Discover.{ContainerRef, discover_containers}
use systats.Container.Host.{ContainerHostInfo, read_container_host_info}
use systats.Container.Layer.{Visit, read_container_layer}
use systats.Container.Match.{short_container_id, match_container}
use systats.Container.Mounts.{read_container_mounts}
use systats.Container.Netdev.{no_network, read_container_network}
use systats.Container.Runtime.{ContainerMetadata}
use systats.Container.Stats.{
  no_container_cpu, read_container_memory, read_container_cpu_counters, read_container_pids,
  read_container_pressure, is_cgroup_frozen, sample_container_cpu_seconds,
  apply_container_cpu_sample,
}
use systats.Container.Types.{ContainerLayer, Container}
use systats.Disk.{bytes_per_unit}
use systats.Go.Float.{Float64}
use systats.Go.Os.{Os}
use systats.Go.Outcome.{
  Outcome, ok, fail, panic, not_supported, no_cgroup, stopped, slice_out_of_range, ◌>>=◌, ◌>>◌,
}
use systats.Prelude.Text.{Text, codes, eqb}
use systats.Prelude.{
  ℕ, Bool, true, false, Option, none, some, List, [], ◌∷◌, ◌++◌, get_elem?, if◌then◌else◌,
}
use systats.Pressure.{no_resource}
use systats.Stats.{Dict, lookup}
use systats.Container.Reader.{no_layer, named_containers, read_container_stats, sample_all}

module _ (fl : Float64) where
  open fl use {F, of_ℕ}

  abbrev or_no_usage : Option F → F
  or_no_usage (some usage) = usage
  or_no_usage none = of_ℕ 0

  abbrev both : Option F → Option F → Bool
  both (some u) (some v) = true
  both _ _ = false

  abbrev with_sample : Option F → Option F → F → ℕ → Container fl → Container fl
  unfolding apply_container_cpu_sample
  with_sample usage1 usage2 elapsed_seconds cores c = record c {
    cpu =
        apply_container_cpu_sample fl c.cpu (or_no_usage usage1) (or_no_usage usage2)
          (both usage1 usage2) elapsed_seconds cores;
  }

  -- How filepath.WalkDir goes over a layer's directory, and whether the context is done at its end.
  module _ (walk_dir : Text → List (Bool × Visit)) (walk_done : Bool) where
    -- The layer is measured where the configuration asks for it.
    abbrev pub measure_layer :
        Os → SyStats → SizeUnit → F → ContainerRef → Outcome (ContainerLayer fl)
    unfolding read_container_layer
    measure_layer os systats unit bytes_per ref =
        if systats.container_layer_size
        then read_container_layer fl walk_dir walk_done os systats.proc_path ref.pid unit bytes_per
        else ok (no_layer fl unit)

    -- A container that fails or panics while it is read is left out.
    unfoldable pub keep_container :
        ContainerRef
        → Option F
        → Option F
        → F
        → ℕ
        → Outcome (ContainerLayer fl)
        → Outcome (Container fl)
        → Outcome (List (Container fl))
    unfolding with_sample
    keep_container ref usage1 usage2 elapsed_seconds cores measured_layer (ok c) = do
      layer ← measured_layer
      ok (with_sample usage1 usage2 elapsed_seconds cores (record c { layer = layer }) ∷ [])
    keep_container ref usage1 usage2 elapsed_seconds cores measured_layer _ = ok []

    -- The last loop, over the containers and their two readings.
    unfoldable pub read_all :
        Os
        → SyStats
        → ContainerHostInfo
        → SizeUnit
        → F
        → F
        → List (ContainerRef × Container fl)
        → List (Option F)
        → List (Option F)
        → Outcome (List (Container fl))
    unfolding read_container_stats keep_container measure_layer
    read_all os systats host unit bytes_per elapsed_seconds ((ref, c) ∷ rest) (u1 ∷ us1)
          (u2 ∷ us2) =
        do
          kept ←
              keep_container ref u1 u2 elapsed_seconds host.cores
                (measure_layer os systats unit bytes_per ref)
                (read_container_stats fl os systats host unit bytes_per ref c)
          others ← read_all os systats host unit bytes_per elapsed_seconds rest us1 us2
          ok (kept ++ others)
    read_all os systats host unit bytes_per elapsed_seconds _ _ _ = ok []

    -- `containers[i : i+1]`
    abbrev only :
        Option (ContainerRef × Container fl) → Outcome (List (ContainerRef × Container fl))
    only none = panic slice_out_of_range
    only (some found) = ok (found ∷ [])

    abbrev containers_of : List (ContainerRef × Container fl) → List (Container fl)
    containers_of [] = []
    containers_of ((ref, c) ∷ rest) = c ∷ containers_of rest

    -- All containers, or where one is wanted, the one that the text stands for.
    unfoldable pub selected :
        Option Text
        → List (ContainerRef × Container fl)
        → Outcome (List (ContainerRef × Container fl))
    unfolding match_container
    selected none found = ok found
    selected (some id_or_name) found = do
      i ← match_container fl (containers_of found) id_or_name
      only (get_elem? found i)

    abbrev pub version_of : Os → SyStats → Outcome CgroupVersion
    unfolding detect_cgroup_version
    version_of os systats = elim (detect_cgroup_version os systats.cgroup_root_path) [
      | cgroup_none ↦ fail (no_cgroup systats.cgroup_root_path)
      | cgroup_v1 ↦ ok cgroup_v1
      | cgroup_v2 ↦ ok cgroup_v2
    ]

    abbrev pub unit_bytes : Option F → SizeUnit → Outcome F
    unit_bytes none unit = fail (not_supported unit)
    unit_bytes (some bytes_per) unit = ok bytes_per

    -- `os1`, `os2` and `os3` are the system while the containers are found, at the second reading of
    -- the usages, and from then on.
    unfoldable pub collect_containers :
        ℕ
        → Outcome (Dict ContainerMetadata)
        → Os
        → Os
        → Os
        → Bool
        → F
        → SyStats
        → SizeUnit
        → Option Text
        → Outcome (List (Container fl))
    unfolding bytes_per_unit version_of discover_containers named_containers selected
        read_container_host_info sample_all sleep_ctx sample_window read_all
    collect_containers search_depth known os1 os2 os3 done elapsed_seconds systats unit wanted = do
      bytes_per ← unit_bytes (bytes_per_unit fl unit) unit
      version ← version_of os1 systats
      chosen ←
          selected wanted
            (named_containers fl known (discover_containers search_depth os1 systats version))
      host ← read_container_host_info fl os1 systats
      usages1 ← sample_all fl os1 chosen
      sleep_ctx done (sample_window systats) >> (do
        usages2 ← sample_all fl os2 chosen
        read_all os3 systats host unit bytes_per elapsed_seconds chosen usages1 usages2)

    unfoldable pub get_containers :
        ℕ
        → Outcome (Dict ContainerMetadata)
        → Os
        → Os
        → Os
        → Bool
        → F
        → SyStats
        → SizeUnit
        → Outcome (List (Container fl))
    unfolding collect_containers
    get_containers search_depth known os1 os2 os3 done elapsed_seconds systats unit =
        collect_containers search_depth known os1 os2 os3 done elapsed_seconds systats unit none

    -- containers[0], where there is one
    abbrev first_container : Text → List (Container fl) → Outcome (Container fl)
    first_container id_or_name [] = fail (stopped id_or_name)
    first_container id_or_name (c ∷ cs) = ok c

    unfoldable pub get_container :
        ℕ
        → Outcome (Dict ContainerMetadata)
        → Os
        → Os
        → Os
        → Bool
        → F
        → SyStats
        → SizeUnit
        → Text
        → Outcome (Container fl)
    unfolding collect_containers
    get_container search_depth known os1 os2 os3 done elapsed_seconds systats unit id_or_name = do
      containers ←
          collect_containers search_depth known os1 os2 os3 done elapsed_seconds systats unit
            (some id_or_name)
      first_container id_or_name containers
