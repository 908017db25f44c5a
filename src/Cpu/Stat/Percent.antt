-- ===== src/Cpu/Stat/Percent.antt =====
-- cpu.go: the size of the usage figures.
use native.Mathlib.Nat.{div-le_of_le-mul}
use systats.Cpu.Stat.{StatRow, Utilisation, passed, usage, int_of_word, stat_round, stat_rounds}
use systats.Go.Outcome.{ok, ok-injective}
use systats.Go.Words.{word}
use systats.Prelude.Int.{ℤ, pos, negsuc}
use systats.Prelude.{
  ℕ, subst, ◌+◌, ◌*◌, ◌/◌, ◌-◌, ap, ◌<◌, ◌≤◌, ◌≡◌, inl, inr, Bool, false, List, [], ◌∷◌, arith, All,
  All-append, ltb, Bool-cases,
}

-- A later row of the same CPU: no counter went back, and a hundred times the busy time still fits
-- 64 bits.
pub record IsLater (r1 r2 : StatRow) : Type 0 where
  pub user_grows : r1.user ≤ r2.user
  pub system_grows : r1.system ≤ r2.system
  pub idle_grows : r1.idle ≤ r2.idle
  pub fits : 100 * (r2.user + r2.system) + r2.idle < word

abbrev pub AreLater : List StatRow → List StatRow → Type 0
AreLater (r1 ∷ rs1) (r2 ∷ rs2) = IsLater r1 r2 × AreLater rs1 rs2
AreLater _ _ = Unit

abbrev pub IsPercent : ℤ → Type 0
IsPercent (pos n) = n ≤ 100
IsPercent (negsuc n) = ⊥

-- The time that passed, and the busy share of it, without wrap-around.
passed_exact :
    {r1 r2 : StatRow}
    → IsLater r1 r2
    → passed r1 r2 + r1.user + r1.system + r1.idle ≡ r2.user + r2.system + r2.idle
unfolding passed
passed_exact l = omega arith

div_le_100 : (d p : ℕ) → d ≤ p → 100 * d / p ≤ 100
div_le_100 d p h = div-le_of_le-mul p (omega arith)

busy : StatRow → StatRow → ℕ
busy r1 r2 = r2.user + r2.system - r1.user - r1.system

usage-busy : {r1 r2 : StatRow} → IsLater r1 r2 → usage r1 r2 ≡ 100 * busy r1 r2 / passed r1 r2
unfolding usage busy
usage-busy {r1} {r2} l = ap (λ n. n / passed r1 r2) (omega arith)

usage-le : {r1 r2 : StatRow} → IsLater r1 r2 → usage r1 r2 ≤ 100
usage-le {r1} {r2} l =
    rw (usage-busy l)
      (div_le_100 (busy r1 r2) (passed r1 r2) (unfold busy in omega (arith, passed_exact l)))

int_of_word-IsPercent : (n : ℕ) → n ≤ 100 → IsPercent (int_of_word n)
unfolding int_of_word
int_of_word-IsPercent n h = ground arith

abbrev pub Percents : Utilisation → Type 0
Percents u = IsPercent u.load_avg × All IsPercent u.core_avg

stat_round-Percents :
    (first : Bool) {r1 r2 : StatRow} (o : Utilisation)
    → IsLater r1 r2
    → Percents o
    → Percents (stat_round first r1 r2 o)
unfolding stat_round
stat_round-Percents first {r1} {r2} o l h =
    let p = int_of_word-IsPercent (usage r1 r2) (usage-le l) in
    elim (Bool-cases (ltb 0 (passed r1 r2))) [
      | inr none_passed ↦
          rw none_passed (h.0, All-append IsPercent o.core_avg (pos 0 ∷ []) h.1 (omega arith))
      | inl some_passed ↦ elim (Bool-cases first) [
        | inl e ↦ rw (some_passed, e) (p, h.1)
        | inr e ↦ rw (some_passed, e) (h.0, All-append IsPercent o.core_avg _ h.1 (p, tt))
      ]
    ]

-- Where each row of the first sample is followed in the second by one whose counters did not go
-- back, a hundred times whose busy time fits 64 bits, and the loop starts from percentages and
-- returns, LoadAvg and every figure of CoreAvg lie between 0 and 100.
pub stat_rounds-Percents :
    (first : Bool) (rs1 rs2 : List StatRow) (o : Utilisation) {u : Utilisation}
    → AreLater rs1 rs2
    → Percents o
    → stat_rounds first rs1 rs2 o ≡ ok u
    → Percents u
unfolding stat_rounds
stat_rounds-Percents first [] rs2 o l p h = subst Percents (ok-injective h) p
stat_rounds-Percents first (r1 ∷ rs1) [] o l p h = absurd (cc)
stat_rounds-Percents first (r1 ∷ rs1) (r2 ∷ rs2) o l p h =
    stat_rounds-Percents false rs1 rs2 (stat_round first r1 r2 o) l.1
      (stat_round-Percents first o l.0 p) h
