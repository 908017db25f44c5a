-- ===== src/Process/Rank/Top.antt =====
-- process.go: sortAndLimit as a choice of the top candidates.
use mathlib.Core.List.Perm
use mathlib.Core.List.{Perm}
use systats.Config.{SortOrder}
use systats.Go.Float.{Float64}
use systats.Go.Outcome.{ok}
use systats.Prelude.Int.{pos}
use systats.Prelude.{
  ℕ, zero, suc, ◌≤◌, ◌≡◌, inl, inr, refl, ap, sym, ◌∙◌, true, false, List, [], ◌∷◌, ◌++◌, arith,
  ltb, min, length, take, drop, take-append-drop, length-take, Bool-cases,
}
use systats.Process.Rank.{ProcCandidate, rank, insert_desc, sort_desc, limit_to, sort_and_limit}

take_all {ℓ} : {A : Type ℓ} (n : ℕ) (xs : List A) → length xs ≤ n → take n xs ≡ xs
take_all zero [] h = refl
take_all (suc n) [] h = refl
take_all zero (x ∷ xs) h = elim h [ ]
take_all (suc n) (x ∷ xs) h = ap (◌∷◌ x) (take_all n xs (omega arith))

module _ (fl : Float64) where
  open fl use {F, lt}

  -- What the program relies on of `<`: no two floats are below each other.
  abbrev pub IsAsymmetric : Type 0
  IsAsymmetric = (x y : F) → lt x y ≡ true → lt y x ≡ false

  -- The head of the list, if any, does not rank above `c`.
  abbrev pub Heads : SortOrder → ProcCandidate fl → List (ProcCandidate fl) → Type 0
  Heads by c [] = Unit
  Heads by c (d ∷ ds) = lt (rank fl by c) (rank fl by d) ≡ false

  -- No element ranks below the next one.
  abbrev pub IsDescending : SortOrder → List (ProcCandidate fl) → Type 0
  IsDescending by [] = Unit
  IsDescending by (c ∷ ds) = Heads by c ds × IsDescending by ds

  insert_desc-perm :
      (by : SortOrder) (c : ProcCandidate fl) (ds : List (ProcCandidate fl))
      → Perm (insert_desc fl by c ds) (c ∷ ds)
  unfolding insert_desc
  insert_desc-perm by c [] = Perm.refl (c ∷ [])
  insert_desc-perm by c (d ∷ ds) = elim (Bool-cases (lt (rank fl by c) (rank fl by d))) [
    | inl e ↦
        rw (e, insert_desc) (Perm.trans (Perm.cons d (insert_desc-perm by c ds)) (Perm.swap c d ds))
    | inr e ↦ rw (e, insert_desc) (Perm.refl (c ∷ d ∷ ds))
  ]

  sort_desc-perm : (by : SortOrder) (cs : List (ProcCandidate fl)) → Perm (sort_desc fl by cs) cs
  unfolding sort_desc
  sort_desc-perm by [] = Perm.refl []
  sort_desc-perm by (c ∷ cs) =
      Perm.trans (insert_desc-perm by c (sort_desc fl by cs)) (Perm.cons c (sort_desc-perm by cs))

  module _ (by : SortOrder) where
    insert_desc-Heads :
        (c d : ProcCandidate fl) (ds : List (ProcCandidate fl))
        → lt (rank fl by d) (rank fl by c) ≡ false
        → Heads by d ds
        → Heads by d (insert_desc fl by c ds)
    unfolding insert_desc
    insert_desc-Heads c d [] h s = h
    insert_desc-Heads c d (e ∷ es) h s = elim (Bool-cases (lt (rank fl by c) (rank fl by e))) [
      | inl q ↦ rw (q, insert_desc) s
      | inr q ↦ rw (q, insert_desc) h
    ]

    insert_desc-IsDescending :
        IsAsymmetric
        → (c : ProcCandidate fl) (ds : List (ProcCandidate fl)) → IsDescending by ds
        → IsDescending by (insert_desc fl by c ds)
    unfolding insert_desc
    insert_desc-IsDescending asym c [] s = (tt, tt)
    insert_desc-IsDescending asym c (d ∷ ds) s =
        elim (Bool-cases (lt (rank fl by c) (rank fl by d))) [
          | inl q ↦
              rw (q, insert_desc)
                (insert_desc-Heads c d ds (asym _ _ q) s.0, insert_desc-IsDescending asym c ds s.1)
          | inr q ↦ rw (q, insert_desc) (q, s)
        ]

    sort_desc-IsDescending :
        IsAsymmetric → (cs : List (ProcCandidate fl)) → IsDescending by (sort_desc fl by cs)
    unfolding sort_desc
    sort_desc-IsDescending asym [] = tt
    sort_desc-IsDescending asym (c ∷ cs) =
        insert_desc-IsDescending asym c (sort_desc fl by cs) (sort_desc-IsDescending asym cs)

  -- `top` and the candidates that are left out, together in descending order of rank.
  pub record IsTop (by : SortOrder) (n : ℕ) (candidates top : List (ProcCandidate fl))
      : Type 0 where
    pub left_out : List (ProcCandidate fl)
    pub keeps : Perm (top ++ left_out) candidates
    pub descending : IsDescending by (top ++ left_out)
    pub short : length top ≡ min n (length candidates)

  length-insert_desc :
      (by : SortOrder) (c : ProcCandidate fl) (ds : List (ProcCandidate fl))
      → length (insert_desc fl by c ds) ≡ suc (length ds)
  unfolding insert_desc
  length-insert_desc by c [] = refl
  length-insert_desc by c (d ∷ ds) = ground (arith, length-insert_desc by c ds)

  length-sort_desc :
      (by : SortOrder) (cs : List (ProcCandidate fl)) → length (sort_desc fl by cs) ≡ length cs
  unfolding sort_desc
  length-sort_desc by [] = refl
  length-sort_desc by (c ∷ cs) =
      length-insert_desc by c (sort_desc fl by cs) ∙ ap suc (length-sort_desc by cs)

  limit_to-take : (n : ℕ) (cs : List (ProcCandidate fl)) → limit_to fl (pos n) cs ≡ ok (take n cs)
  unfolding limit_to
  limit_to-take n cs = elim (Bool-cases (ltb n (length cs))) [
    | inl e ↦ rw e
    | inr e ↦ rw e (ap ok (sym (take_all n cs (ground arith))))
  ]

  -- If no two floats are each below the other, then for a count that is not negative the result
  -- has that many candidates, or all where there are fewer; with the ones left out behind it, it
  -- is a descending arrangement of the candidates.
  pub sort_and_limit-IsTop :
      IsAsymmetric
      → (candidates : List (ProcCandidate fl)) (by : SortOrder) (n : ℕ)
      → (top : List (ProcCandidate fl)) × (sort_and_limit fl candidates by (pos n) ≡ ok top)
        × IsTop by n candidates top
  unfolding sort_and_limit
  sort_and_limit-IsTop asym candidates by n =
      let sorted = sort_desc fl by candidates in
      let whole = take-append-drop n sorted in
      (
        take n sorted,
        limit_to-take n sorted,
        record {
          left_out = drop n sorted;
          keeps = rw whole (sort_desc-perm by candidates);
          descending = rw whole (sort_desc-IsDescending by asym candidates);
          short = omega (arith, length-take n sorted, length-sort_desc by candidates);
        },
      )
