-- ===== src/Container/Rates/Groups.antt =====
-- container.go: the network rates between two samples.
use systats.Container.Blockio.{block_io_totals, device_of}
use systats.Container.Netdev.{totals, total_interfaces, no_interface}
use systats.Container.Rates.{
  network_forward, io_forward, no_container_rates, rate, add_network_rates, add_io_rates,
  add_throttle_rates, throttle_forward, container_rates_since,
}
use systats.Container.Types.{
  ContainerInterface, ContainerNetwork, ContainerBlockIo, ContainerCpu, Container, ContainerRates,
}
use systats.Go.Float.{Float64}
use systats.Go.Words.{word, sub64_exact}
use systats.Prelude.Text.{eqb_iff}
use systats.Prelude.{
  ℕ, ◌-◌, ◌≤◌, ◌<◌, ◌≡◌, ◌⊎◌, inl, inr, refl, ap, ◌∙◌, true, false, List, [], ◌∷◌, arith,
  Bool-cases,
}

-- The four totals are 64-bit words.
record IsNetworkTotal (t : ContainerInterface) : Type 0 where
  rx_bytes : t.rx_bytes < word
  tx_bytes : t.tx_bytes < word
  rx_packets : t.rx_packets < word
  tx_packets : t.tx_packets < word

total_interfaces-IsNetworkTotal :
    (is : List ContainerInterface) (t : ContainerInterface)
    → IsNetworkTotal t
    → IsNetworkTotal (total_interfaces is t)
unfolding total_interfaces
total_interfaces-IsNetworkTotal [] t h = h
total_interfaces-IsNetworkTotal (i ∷ is) t h = total_interfaces-IsNetworkTotal is _ (omega arith)

totals-IsNetworkTotal : (n : ContainerNetwork) → IsNetworkTotal (totals n)
unfolding totals
totals-IsNetworkTotal n = total_interfaces-IsNetworkTotal n.interfaces no_interface (omega arith)

module _ (fl : Float64) where
  open fl use {F, of_ℕ, div, le}

  -- The exact difference over the time.
  abbrev pub exact_rate : ℕ → ℕ → F → F
  exact_rate now before elapsed_seconds = div (of_ℕ (now - before)) elapsed_seconds

  -- No total went back, and the rates are of exact differences.
  pub record IsNetworkRated (now before : ContainerInterface) (t : F) (r : ContainerRates fl)
      : Type 0 where
    pub rx_bytes_grows : before.rx_bytes ≤ now.rx_bytes
    pub tx_bytes_grows : before.tx_bytes ≤ now.tx_bytes
    pub rx_packets_grows : before.rx_packets ≤ now.rx_packets
    pub tx_packets_grows : before.tx_packets ≤ now.tx_packets
    pub rx_bytes : r.rx_bytes_per_sec ≡ exact_rate now.rx_bytes before.rx_bytes t
    pub tx_bytes : r.tx_bytes_per_sec ≡ exact_rate now.tx_bytes before.tx_bytes t
    pub rx_packets : r.rx_packets_per_sec ≡ exact_rate now.rx_packets before.rx_packets t
    pub tx_packets : r.tx_packets_per_sec ≡ exact_rate now.tx_packets before.tx_packets t

  abbrev pub NetworkWentBack : ContainerInterface → ContainerInterface → Type 0
  NetworkWentBack now before =
      (now.rx_bytes < before.rx_bytes)
      ⊎ (now.tx_bytes < before.tx_bytes)
      ⊎ (now.rx_packets < before.rx_packets)
      ⊎ (now.tx_packets < before.tx_packets)

  abbrev pub NoNetworkRates : ContainerRates fl → Type 0
  NoNetworkRates r =
      (r.rx_bytes_per_sec ≡ of_ℕ 0)
      × (r.tx_bytes_per_sec ≡ of_ℕ 0)
      × (r.rx_packets_per_sec ≡ of_ℕ 0)
      × (r.tx_packets_per_sec ≡ of_ℕ 0)

  abbrev pub NetworkRates : ContainerInterface → ContainerInterface → F → ContainerRates fl → Type 0
  NetworkRates now before t r =
      IsNetworkRated now before t r ⊎ (NetworkWentBack now before × NoNetworkRates r)

  -- No total went back.
  record NetworkGrew (now before : ContainerInterface) : Type 0 where
    rx_bytes : before.rx_bytes ≤ now.rx_bytes
    tx_bytes : before.tx_bytes ≤ now.tx_bytes
    rx_packets : before.rx_packets ≤ now.rx_packets
    tx_packets : before.tx_packets ≤ now.tx_packets

  network_direction :
      (now before : ContainerInterface)
      → (NetworkGrew now before × (network_forward now before ≡ true))
        ⊎ (NetworkWentBack now before × (network_forward now before ≡ false))
  unfolding network_forward
  network_direction now before = ground arith

  -- A rate of a total that did not go back is of the exact difference.
  rate_exact :
      (now before : ℕ) (t : F)
      → before ≤ now
      → now < word
      → rate fl now before t ≡ exact_rate now before t
  rate_exact now before t h k = ap (λ n. div (of_ℕ n) t) (sub64_exact now before h k)

  add_network_rates_cases :
      (now before : ContainerInterface) (t : F) (r : ContainerRates fl)
      → IsNetworkTotal now
      → NoNetworkRates r
      → NetworkRates now before t (add_network_rates fl now before t r)
  unfolding add_network_rates
  add_network_rates_cases now before t r w z = elim (network_direction now before) [
    | inl (g, e) ↦ inl (
        rw e (record {
          rx_bytes_grows = g.rx_bytes;
          tx_bytes_grows = g.tx_bytes;
          rx_packets_grows = g.rx_packets;
          tx_packets_grows = g.tx_packets;
          rx_bytes = rate_exact now.rx_bytes before.rx_bytes t g.rx_bytes w.rx_bytes;
          tx_bytes = rate_exact now.tx_bytes before.tx_bytes t g.tx_bytes w.tx_bytes;
          rx_packets = rate_exact now.rx_packets before.rx_packets t g.rx_packets w.rx_packets;
          tx_packets = rate_exact now.tx_packets before.tx_packets t g.tx_packets w.tx_packets;
        }))
    | inr (b, e) ↦ inr (b, rw e z)
  ]

  -- The same four network rates.
  record IsSameNetwork (r r' : ContainerRates fl) : Type 0 where
    rx_bytes : r'.rx_bytes_per_sec ≡ r.rx_bytes_per_sec
    tx_bytes : r'.tx_bytes_per_sec ≡ r.tx_bytes_per_sec
    rx_packets : r'.rx_packets_per_sec ≡ r.rx_packets_per_sec
    tx_packets : r'.tx_packets_per_sec ≡ r.tx_packets_per_sec

  same_network :
      {now before : ContainerInterface} {t : F} {r r' : ContainerRates fl}
      → IsSameNetwork r r'
      → NetworkRates now before t r
      → NetworkRates now before t r'
  same_network s (inl g) = inl (record {
    rx_bytes_grows = g.rx_bytes_grows;
    tx_bytes_grows = g.tx_bytes_grows;
    rx_packets_grows = g.rx_packets_grows;
    tx_packets_grows = g.tx_packets_grows;
    rx_bytes = s.rx_bytes ∙ g.rx_bytes;
    tx_bytes = s.tx_bytes ∙ g.tx_bytes;
    rx_packets = s.rx_packets ∙ g.rx_packets;
    tx_packets = s.tx_packets ∙ g.tx_packets;
  })
  same_network s (inr (b, z)) =
      inr (b, (s.rx_bytes ∙ z.0, s.tx_bytes ∙ z.1, s.rx_packets ∙ z.2, s.tx_packets ∙ z.3))

  io_keeps :
      (io io' : ContainerBlockIo) (t : F) (r : ContainerRates fl)
      → IsSameNetwork r (add_io_rates fl io io' t r)
  unfolding add_io_rates
  io_keeps io io' t r = elim (Bool-cases (io_forward io io')) [
    | inl e ↦
        rw e (record { rx_bytes = refl; tx_bytes = refl; rx_packets = refl; tx_packets = refl })
    | inr e ↦
        rw e (record { rx_bytes = refl; tx_bytes = refl; rx_packets = refl; tx_packets = refl })
  ]

  throttle_keeps :
      (cpu cpu' : ContainerCpu fl) (t : F) (r : ContainerRates fl)
      → IsSameNetwork r (add_throttle_rates fl cpu cpu' t r)
  unfolding add_throttle_rates
  throttle_keeps cpu cpu' t r = elim (Bool-cases (throttle_forward fl cpu cpu')) [
    | inl e ↦
        rw e (record { rx_bytes = refl; tx_bytes = refl; rx_packets = refl; tx_packets = refl })
    | inr e ↦
        rw e (record { rx_bytes = refl; tx_bytes = refl; rx_packets = refl; tx_packets = refl })
  ]

  -- For two samples of one container between which time passed, whatever the other figures are: the
  -- four network rates are the exact differences of the totals over the time, or one of the totals
  -- went back and all four are zero.
  pub container_rates_since-NetworkRates :
      (c prev : Container fl) (t : F)
      → le t (of_ℕ 0) ≡ false
      → c.id ≡ prev.id
      → NetworkRates (totals c.network) (totals prev.network) t (container_rates_since fl c prev t)
  unfolding container_rates_since
  container_rates_since-NetworkRates c prev t h e =
      rw (h, (eqb_iff c.id prev.id).1 e)
        (same_network (throttle_keeps c.cpu prev.cpu t _) (
          same_network
            (io_keeps (block_io_totals c.block_io (device_of [] 0 0))
              (block_io_totals prev.block_io (device_of [] 0 0)) t _)
            (add_network_rates_cases (totals c.network) (totals prev.network) t
              (no_container_rates fl c.id) (totals-IsNetworkTotal c.network)
              (refl, refl, refl, refl))))
