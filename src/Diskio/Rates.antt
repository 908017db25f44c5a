-- ===== src/Diskio/Rates.antt =====
-- diskio.go: RatesSince, by the direction of the counters.
use systats.Diskio.{DiskIo, DiskIoRates, no_rates, rates_since}
use systats.Go.Float.{Float64}
use systats.Go.Words.{word, sub64_exact}
use systats.Prelude.{◌-◌, ◌≤◌, ◌<◌, ◌≡◌, ◌⊎◌, inl, inr, true, false, arith, le→ltb, Bool-cases}

-- No counter that is compared went back.
pub record IsForward (prev d : DiskIo) : Type 0 where
  pub reads_completed : prev.reads_completed ≤ d.reads_completed
  pub writes_completed : prev.writes_completed ≤ d.writes_completed
  pub bytes_read : prev.bytes_read ≤ d.bytes_read
  pub bytes_written : prev.bytes_written ≤ d.bytes_written
  pub io_time_ms : prev.io_time_ms ≤ d.io_time_ms

abbrev pub WentBack : DiskIo → DiskIo → Type 0
WentBack prev d =
    (d.reads_completed < prev.reads_completed)
    ⊎ (d.writes_completed < prev.writes_completed)
    ⊎ (d.bytes_read < prev.bytes_read)
    ⊎ (d.bytes_written < prev.bytes_written)
    ⊎ (d.io_time_ms < prev.io_time_ms)

-- The counters are 64-bit words.
pub record IsSample (d : DiskIo) : Type 0 where
  pub reads_completed : d.reads_completed < word
  pub writes_completed : d.writes_completed < word
  pub bytes_read : d.bytes_read < word
  pub bytes_written : d.bytes_written < word
  pub io_time_ms : d.io_time_ms < word

module _ (fl : Float64) where
  open fl use {F, of_ℕ, mul, div, le}

  -- The rates of exact differences.
  abbrev pub exact_rates : DiskIo → DiskIo → F → DiskIoRates fl
  exact_rates d prev elapsed_seconds = record {
    device = d.device;
    reads_per_sec = div (of_ℕ (d.reads_completed - prev.reads_completed)) elapsed_seconds;
    writes_per_sec = div (of_ℕ (d.writes_completed - prev.writes_completed)) elapsed_seconds;
    read_bytes_per_sec = div (of_ℕ (d.bytes_read - prev.bytes_read)) elapsed_seconds;
    write_bytes_per_sec = div (of_ℕ (d.bytes_written - prev.bytes_written)) elapsed_seconds;
    util_percent =
        mul (div (of_ℕ (d.io_time_ms - prev.io_time_ms)) (mul elapsed_seconds (of_ℕ 1000)))
          (of_ℕ 100);
  }

  rates_forward :
      (d prev : DiskIo) (elapsed_seconds : F)
      → IsSample d
      → IsForward prev d
      → le elapsed_seconds (of_ℕ 0) ≡ false
      → rates_since fl d prev elapsed_seconds ≡ exact_rates d prev elapsed_seconds
  unfolding rates_since
  rates_forward d prev elapsed_seconds w f e =
      rw
        (
          e,
          le→ltb _ _ f.reads_completed,
          le→ltb _ _ f.writes_completed,
          le→ltb _ _ f.bytes_read,
          le→ltb _ _ f.bytes_written,
          le→ltb _ _ f.io_time_ms,
        )
        (λ i. record {
          device = d.device;
          reads_per_sec =
              div (of_ℕ (sub64_exact _ _ f.reads_completed w.reads_completed i)) elapsed_seconds;
          writes_per_sec =
              div (of_ℕ (sub64_exact _ _ f.writes_completed w.writes_completed i)) elapsed_seconds;
          read_bytes_per_sec =
              div (of_ℕ (sub64_exact _ _ f.bytes_read w.bytes_read i)) elapsed_seconds;
          write_bytes_per_sec =
              div (of_ℕ (sub64_exact _ _ f.bytes_written w.bytes_written i)) elapsed_seconds;
          util_percent =
              mul
                (div (of_ℕ (sub64_exact _ _ f.io_time_ms w.io_time_ms i))
                  (mul elapsed_seconds (of_ℕ 1000)))
                (of_ℕ 100);
        })

  rates_back :
      (d prev : DiskIo) (elapsed_seconds : F)
      → WentBack prev d
      → rates_since fl d prev elapsed_seconds ≡ no_rates fl d.device
  unfolding rates_since
  rates_back d prev elapsed_seconds b = ground arith

  direction : (prev d : DiskIo) → IsForward prev d ⊎ WentBack prev d
  direction prev d = ground arith

  -- For a 64-bit sample there are zeros where no time passed or a counter went back; otherwise no
  -- counter went back, and the rates are the differences of the counters over the time, without
  -- wrap-around.
  pub rates_since_cases :
      (d prev : DiskIo) (elapsed_seconds : F)
      → IsSample d
      → ((le elapsed_seconds (of_ℕ 0) ≡ true)
          × (rates_since fl d prev elapsed_seconds ≡ no_rates fl d.device))
        ⊎ (WentBack prev d × (rates_since fl d prev elapsed_seconds ≡ no_rates fl d.device))
        ⊎ (IsForward prev d
            × (le elapsed_seconds (of_ℕ 0) ≡ false)
            × (rates_since fl d prev elapsed_seconds ≡ exact_rates d prev elapsed_seconds))
  rates_since_cases d prev elapsed_seconds w = elim (Bool-cases (le elapsed_seconds (of_ℕ 0))) [
    | inl e ↦ inl (e, unfold rates_since in rw e)
    | inr e ↦ elim (direction prev d) [
      | inl f ↦ inr (inr (f, e, rates_forward d prev elapsed_seconds w f e))
      | inr b ↦ inr (inl (b, rates_back d prev elapsed_seconds b))
    ]
  ]
