-- ===== src/Unitconv.antt =====
-- internal/unitconv/unitconv.go
use systats.Prelude.{ℕ}
use systats.Go.Float.{Float64}

module _ (fl : Float64) where
  open fl use {F, of_ℕ, mul, div}

  unfoldable pub kib_to_bytes : ℕ → F
  kib_to_bytes input = mul (of_ℕ input) (of_ℕ 1024)

  unfoldable pub kib_to_kb : ℕ → F
  kib_to_kb input = of_ℕ input

  unfoldable pub kib_to_mb : ℕ → F
  kib_to_mb input = div (of_ℕ input) (of_ℕ 1024)

  unfoldable pub kib_to_gb : ℕ → F
  kib_to_gb input = div (div (of_ℕ input) (of_ℕ 1024)) (of_ℕ 1024)
