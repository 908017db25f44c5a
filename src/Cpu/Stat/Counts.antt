-- ===== src/Cpu/Stat/Counts.antt =====
-- cpu.go: the number of per-core figures, and the rows of the two samples.
use systats.Cpu.Stat.{
  StatRow, Utilisation, no_utilisation, passed, stat_round, stat_rounds, usage, int_of_word,
}
use systats.Go.Outcome.{ok, panic, index_out_of_range}
use systats.Prelude.Int.{pos}
use systats.Prelude.{
  suc, ◌+◌, ◌<◌, ◌≤◌, ◌≡◌, refl, true, false, List, [], ◌∷◌, ◌++◌, arith, ltb, if◌then◌else◌,
  length, length-append, ◌∙◌, ap, ◌⊎◌, inl, inr, Bool,
}

length-concat {ℓ} : {A : Type ℓ} (xs : List A) (x : A) → length (xs ++ x ∷ []) ≡ suc (length xs)
length-concat xs x = omega (arith, length-append xs (x ∷ []))

length-stat_round :
    (r1 r2 : StatRow) (o : Utilisation)
    → length (stat_round false r1 r2 o).core_avg ≡ suc (length o.core_avg)
unfolding stat_round
length-stat_round r1 r2 o =
    ground (
      arith,
      length-concat o.core_avg (int_of_word (usage r1 r2)),
      length-concat o.core_avg (pos 0),
    )

length-stat_rounds :
    (rs1 rs2 : List StatRow) (o : Utilisation) {u : Utilisation}
    → stat_rounds false rs1 rs2 o ≡ ok u
    → length u.core_avg ≡ length o.core_avg + length rs1
unfolding stat_rounds
length-stat_rounds [] rs2 o h = ground arith
length-stat_rounds (r1 ∷ rs1) [] o h = cc
length-stat_rounds (r1 ∷ rs1) (r2 ∷ rs2) o h =
    omega
      (arith, length-stat_rounds rs1 rs2 (stat_round false r1 r2 o) h, length-stat_round r1 r2 o)

length-first :
    (r1 r2 : StatRow)
    → length (stat_round true r1 r2 no_utilisation).core_avg
      ≡ (if ltb 0 (passed r1 r2) then 0 else 1)
unfolding stat_round
length-first r1 r2 = ground arith

-- Of two samples whose first line is the aggregate, and whose loop returns, CoreAvg has one figure
-- for each other line of the first sample, and one more where no time passed between the
-- aggregates.
pub length-core_avg :
    (r1 r2 : StatRow) (rs1 rs2 : List StatRow) {u : Utilisation}
    → stat_rounds true (r1 ∷ rs1) (r2 ∷ rs2) no_utilisation ≡ ok u
    → length u.core_avg ≡ (if ltb 0 (passed r1 r2) then 0 else 1) + length rs1
unfolding stat_rounds
length-core_avg r1 r2 rs1 rs2 h =
    length-stat_rounds rs1 rs2 (stat_round true r1 r2 no_utilisation) h
    ∙ ap (λ n. n + length rs1) (length-first r1 r2)

-- What the loop ends in: figures where the second sample has at least as many lines as the first,
-- and a panic where it has fewer.
pub stat_rounds_cases :
    (first : Bool) (rs1 rs2 : List StatRow) (o : Utilisation)
    → ((length rs1 ≤ length rs2) × ((u : Utilisation) × (stat_rounds first rs1 rs2 o ≡ ok u)))
      ⊎ ((length rs2 < length rs1) × (stat_rounds first rs1 rs2 o ≡ panic index_out_of_range))
unfolding stat_rounds
stat_rounds_cases first [] rs2 o = inl (omega arith, (o, refl))
stat_rounds_cases first (r1 ∷ rs1) [] o = inr (omega arith, refl)
stat_rounds_cases first (r1 ∷ rs1) (r2 ∷ rs2) o =
    elim (stat_rounds_cases false rs1 rs2 (stat_round first r1 r2 o)) [
      | inl (h, r) ↦ inl (omega arith, r)
      | inr (h, r) ↦ inr (omega arith, r)
    ]
