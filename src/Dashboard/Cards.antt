-- ===== src/Dashboard/Cards.antt =====
-- example/collect.go: the cards of the containers.
use systats.Config.{sleep_ctx}
use systats.Container.Rates.{container_rates_since}
use systats.Container.Types.{Container, ContainerMount, ContainerRates}
use systats.Dashboard.Build.{no_bar, percent_text}
use systats.Dashboard.Panels.{ContainerMountRow, ContainerCard}
use systats.Dashboard.Render.{Print, Bar, new_gauge, new_bar, size, rate}
use systats.Dashboard.Sort.{sort_by}
use systats.Go.Float.{Float64}
use systats.Go.Outcome.{Outcome, ok, ◌>>=◌, ◌>>◌}
use systats.Go.Strconv.{format_uint}
use systats.Prelude.Int.{ℤ}
use systats.Prelude.Text.{Text, codes, eqb, text_ltb}
use systats.Prelude.{
  ℕ, ◌+◌, Bool, true, not, ◌&&◌, ◌||◌, Option, none, some, List, [], ◌∷◌, ◌++◌, ltb, ◌==◌,
  if◌then◌else◌, length,
}
use systats.Stats.{Dict, lookup, put}

module _ (fl : Float64) (pr : Print fl) where
  open fl use {F, of_ℕ, mul, div, lt}
  open pr use {fixed}

  unfoldable pub mount_row : ContainerMount fl → ContainerMountRow fl
  unfolding new_bar size eqb
  mount_row mt =
      let point =
        if eqb mt.mount_point (codes "/") && eqb mt.fs_type (codes "overlay")
        then codes "/ (host disk)"
        else mt.mount_point in
      let pct = div (mul (of_ℕ 100) mt.used) mt.total in
      if mt.accessible && lt (of_ℕ 0) mt.total
      then record {
        mount_point = point;
        bar = new_bar fl pr pct mt.mount_point (percent_text fl pr 0 pct);
        usage = size fl pr mt.used mt.unit ++ (codes " of " ++ size fl pr mt.total mt.unit);
      }
      else record { mount_point = point; bar = no_bar fl; usage = codes "no access" }

  unfoldable pub mount_rows : List (ContainerMount fl) → List (ContainerMountRow fl)
  unfolding mount_row
  mount_rows [] = []
  mount_rows (mt ∷ mts) = mount_row mt ∷ mount_rows mts

  abbrev note_if : Bool → Text → List Text
  note_if b note = if b then note ∷ [] else []

  unfoldable pub card_notes : Container fl → List Text
  unfolding eqb
  card_notes c =
      note_if c.network.shares_host_network (codes "host network: rates are the host's")
      ++ (note_if (not c.network.accessible) (codes "network namespace not readable")
          ++ note_if (not (eqb c.pod_uid [])) (codes "pod " ++ c.pod_uid))

  unfoldable pub card_layer : Container fl → Text
  unfolding size format_uint eqb
  card_layer c =
      if c.layer.available
      then size fl pr c.layer.size c.layer.unit
        ++ (codes " in " ++ (format_uint c.layer.files ++ codes " files"))
      else if not (eqb c.layer.path [])
      then codes "needs root"
      else []

  abbrev network_rate : Bool → Option F → Text
  unfolding rate
  network_rate accessible none = codes "-"
  network_rate accessible (some r) = if accessible then rate fl pr r else codes "-"

  abbrev rate_of : (ContainerRates fl → F) → Option (ContainerRates fl) → Option F
  rate_of figure none = none
  rate_of figure (some rates) = some (figure rates)

  abbrev pids_bar : Container fl → Bar fl
  unfolding new_bar format_uint
  pids_bar c =
      if c.pids.limited
      then new_bar fl pr (div (mul (of_ℕ 100) (of_ℕ c.pids.current)) (of_ℕ c.pids.max))
          (codes "pids") (format_uint c.pids.current ++ (codes " / " ++ format_uint c.pids.max))
      else new_bar fl pr (of_ℕ 0) (codes "pids") (format_uint c.pids.current)

  unfoldable pub build_container_card : Container fl → Option (ContainerRates fl) → ContainerCard fl
  unfolding new_gauge size network_rate pids_bar card_layer mount_rows card_notes eqb
  build_container_card c rates = record {
    name = if eqb c.name [] then c.short_id else c.name;
    short_id = c.short_id;
    image = c.image;
    runtime = c.runtime;
    state = c.state;
    running = eqb c.state (codes "running");
    cpu_gauge =
        if c.cpu.limited
        then new_gauge fl pr c.cpu.percent_of_limit (percent_text fl pr 0 c.cpu.percent_of_limit)
            (codes "of limit")
        else new_gauge fl pr c.cpu.percent_of_host (percent_text fl pr 0 c.cpu.percent_of_host)
            (codes "of host");
    cpu =
        if c.cpu.limited
        then fixed 2 c.cpu.cores_used
          ++ (codes " of " ++ (fixed 2 c.cpu.allocated_cores ++ codes " cores"))
        else fixed 2 c.cpu.cores_used ++ codes " cores, no limit";
    mem_gauge =
        new_gauge fl pr c.memory.percentage_used (percent_text fl pr 0 c.memory.percentage_used)
          (if c.memory.limited then codes "of limit" else codes "of host");
    memory =
        size fl pr c.memory.used c.memory.unit
        ++ (codes " of " ++ size fl pr c.memory.limit c.memory.unit);
    rx_rate = network_rate c.network.accessible (rate_of (λ r. r.rx_bytes_per_sec) rates);
    tx_rate = network_rate c.network.accessible (rate_of (λ r. r.tx_bytes_per_sec) rates);
    read = network_rate true (rate_of (λ r. r.read_bytes_per_sec) rates);
    write = network_rate true (rate_of (λ r. r.write_bytes_per_sec) rates);
    pids = pids_bar c;
    throttled =
        if ltb 0 c.cpu.periods
        then fixed 1 (div (mul (of_ℕ 100) (of_ℕ c.cpu.throttled_periods)) (of_ℕ c.cpu.periods))
          ++ codes "% of periods"
        else [];
    oom_kills = c.memory.oom_kills;
    layer = card_layer c;
    mounts = mount_rows c.mounts;
    notes = card_notes c;
  }

  unfoldable pub by_id : List (Container fl) → Dict (Container fl) → Dict (Container fl)
  unfolding put
  by_id [] prev = prev
  by_id (c ∷ cs) prev = by_id cs (put c.id c prev)

  -- The rates against the first sample, where it has the container.
  unfoldable pub rates_of : F → Container fl → Option (Container fl) → Option (ContainerRates fl)
  unfolding container_rates_since
  rates_of elapsed c none = none
  rates_of elapsed c (some p) = some (container_rates_since fl c p elapsed)

  unfoldable pub cards_of : F → Dict (Container fl) → List (Container fl) → List (ContainerCard fl)
  unfolding build_container_card rates_of lookup
  cards_of elapsed prev [] = []
  cards_of elapsed prev (c ∷ cs) =
      build_container_card c (rates_of elapsed c (lookup c.id prev)) ∷ cards_of elapsed prev cs

  unfoldable pub count_named : List (Container fl) → ℕ
  count_named [] = 0
  count_named (c ∷ cs) = (if c.metadata_available then 1 else 0) + count_named cs

  unfoldable pub containers_note : ℕ → ℕ → Text → Text
  unfolding eqb
  containers_note cards named socket_path =
      if cards == 0 || ltb 0 named
      then []
      else if eqb socket_path []
      then codes
          "No container runtime socket configured, so containers are listed by ID. Stats come from the cgroup tree either way."
      else codes "No container runtime socket answered at "
        ++ (socket_path
            ++ codes
                ", so containers are listed by ID. Stats come from the cgroup tree either way.")

  unfoldable pub sample_containers :
      Outcome (List (Container fl))
      → Outcome (List (Container fl))
      → Bool
      → ℤ
      → F
      → Text
      → Outcome (List (ContainerCard fl) × Text)
  unfolding sleep_ctx by_id cards_of count_named containers_note sort_by
  sample_containers first second done interval elapsed socket_path = do
    before ← first
    sleep_ctx done interval >> (do
      after ← second
      let cards = cards_of elapsed (by_id before []) after
      ok (
        sort_by (λ (a b : ContainerCard fl). text_ltb a.name b.name) cards,
        containers_note (length cards) (count_named after) socket_path,
      ))
