-- ===== src/Process/Rank.antt =====
-- validateSortBy and sortAndLimit.
pub mod Top
use systats.Config.{SortOrder, sort_by_cpu, sort_by_memory}
use systats.Go.Float.{Float64}
use systats.Go.Outcome.{Outcome, ok, fail, panic, slice_out_of_range, bad_sort_order}
use systats.Prelude.Int.{ℤ, pos, negsuc}
use systats.Prelude.Text.{Text, eqb}
use systats.Prelude.{ℕ, Bool, true, false, ◌||◌, List, [], ◌∷◌, ltb, if◌then◌else◌, length, take}

unfoldable pub validate_sort_by : SortOrder → Outcome (Unit {0})
unfolding eqb
validate_sort_by sort_by =
    if eqb sort_by [] || eqb sort_by sort_by_cpu || eqb sort_by sort_by_memory
    then ok tt
    else fail (bad_sort_order sort_by)

module _ (fl : Float64) where
  open fl use {F, lt}

  pub record ProcCandidate : Type 0 where
    pub pid : ℤ
    pub uid : Text
    pub cpu_usage : F
    pub mem_usage : F

  -- The field that is compared.
  unfoldable pub rank : SortOrder → ProcCandidate → F
  unfolding eqb
  rank sort_by c = if eqb sort_by sort_by_memory then c.mem_usage else c.cpu_usage

  -- sort.Slice by a descending rank. Go leaves the order of equal ranks open; here they keep theirs.
  unfoldable pub insert_desc : SortOrder → ProcCandidate → List ProcCandidate → List ProcCandidate
  unfolding rank
  insert_desc sort_by c [] = c ∷ []
  insert_desc sort_by c (d ∷ ds) =
      if lt (rank sort_by c) (rank sort_by d) then d ∷ insert_desc sort_by c ds else c ∷ d ∷ ds

  unfoldable pub sort_desc : SortOrder → List ProcCandidate → List ProcCandidate
  unfolding insert_desc
  sort_desc sort_by [] = []
  sort_desc sort_by (c ∷ cs) = insert_desc sort_by c (sort_desc sort_by cs)

  -- candidates[:count] where there are more than `count`
  unfoldable pub limit_to : ℤ → List ProcCandidate → Outcome (List ProcCandidate)
  limit_to (pos n) candidates =
      if ltb n (length candidates) then ok (take n candidates) else ok candidates
  limit_to (negsuc n) candidates = panic slice_out_of_range

  unfoldable pub sort_and_limit : List ProcCandidate → SortOrder → ℤ → Outcome (List ProcCandidate)
  unfolding sort_desc limit_to
  sort_and_limit candidates sort_by count = limit_to count (sort_desc sort_by candidates)
