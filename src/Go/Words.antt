-- ===== src/Go/Words.antt =====
-- uint64 arithmetic, with its wrap-around.
use systats.Prelude.{ℕ, ◌+◌, ◌-◌, ◌*◌, ◌%◌, ◌^◌, ◌≤◌, ◌<◌, ◌≡◌, arith}

abbrev pub word : ℕ
word = 2 ^ 64

abbrev pub add64 : ℕ → ℕ → ℕ
add64 a b = (a + b) % word

abbrev pub sub64 : ℕ → ℕ → ℕ
sub64 a b = (a + word - b) % word

abbrev pub mul64 : ℕ → ℕ → ℕ
mul64 a b = a * b % word

pub sub64_exact : (a b : ℕ) → b ≤ a → a < word → sub64 a b ≡ a - b
sub64_exact a b h k = omega arith
