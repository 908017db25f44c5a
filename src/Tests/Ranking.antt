-- ===== src/Tests/Ranking.antt =====
-- Ranking: three processes, two of them wanted.
use systats.Config.{sort_by_cpu}
use systats.Go.Float.{exact, Fraction}
use systats.Go.Outcome.{ok}
use systats.Prelude.Int.{pos}
use systats.Prelude.Text.{codes}
use systats.Prelude.{ℕ, ◌≡◌, refl, List, [], ◌∷◌, arith}
use systats.Process.Rank.Top.{IsAsymmetric, IsTop, sort_and_limit-IsTop}
use systats.Process.Rank.{ProcCandidate, sort_and_limit}

abbrev percent : ℕ → Fraction
percent n = record { up = n; down = 0; den = 10 }

abbrev candidate : ℕ → ℕ → ℕ → ProcCandidate exact
candidate pid cpu mem = record {
  pid = pos pid;
  uid = codes "0";
  cpu_usage = percent cpu;
  mem_usage = percent mem;
}

abbrev three : List (ProcCandidate exact)
three = candidate 1 10 300 ∷ candidate 20 955 1 ∷ candidate 300 40 20 ∷ []

exact_IsAsymmetric : IsAsymmetric exact
exact_IsAsymmetric x y h = ground arith

sort_and_limit-IsTop_example :
    (top : List (ProcCandidate exact)) × (sort_and_limit exact three sort_by_cpu (pos 2) ≡ ok top)
    × IsTop exact sort_by_cpu 2 three top
sort_and_limit-IsTop_example = sort_and_limit-IsTop exact exact_IsAsymmetric three sort_by_cpu 2

sort_and_limit_two :
    sort_and_limit exact three sort_by_cpu (pos 2)
    ≡ ok (candidate 20 955 1 ∷ candidate 300 40 20 ∷ [])
unfolding sort_and_limit
sort_and_limit_two = refl
