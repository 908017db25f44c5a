-- ===== src/Container/Match/Found.antt =====
-- container.go: matchContainer, by what is found.
use systats.Container.Match.{is_named, find_named, find_prefix, match_container}
use systats.Container.Types.{Container}
use systats.Go.Float.{Float64}
use systats.Go.Outcome.{Outcome, ok, fail, empty_name, ambiguous, no_match}
use systats.Go.Strings.{has_prefix}
use systats.Prelude.Text.{Text, eqb, eqb_iff}
use systats.Prelude.{
  ℕ, suc, ◌+◌, ◌≤◌, ◌≡◌, ◌⊎◌, inl, inr, refl, ap, ◌∙◌, true, false, none, some, List, [], ◌∷◌,
  arith, All, get_elem?, take, if◌then◌else◌, Bool-cases,
}

module _ (fl : Float64) where
  -- How many IDs have the prefix.
  abbrev pub count_prefix : Text → List (Container fl) → ℕ
  count_prefix s [] = 0
  count_prefix s (c ∷ cs) = (if has_prefix c.id s then 1 else 0) + count_prefix s cs

  abbrev pub AllUnnamed : Text → List (Container fl) → Type 0
  AllUnnamed s = All (λ c. is_named fl s c ≡ false)

  -- The container at `i` is the first with that ID or name.
  pub record IsFirstNamed (s : Text) (cs : List (Container fl)) (i : ℕ) : Type 0 where
    pub container : Container fl
    pub at : get_elem? cs i ≡ some container
    pub named : is_named fl s container ≡ true
    pub first : AllUnnamed s (take i cs)

  -- The container at `i` is the only one whose ID has the prefix.
  pub record IsOnlyPrefixed (s : Text) (cs : List (Container fl)) (i : ℕ) : Type 0 where
    pub container : Container fl
    pub at : get_elem? cs i ≡ some container
    pub prefixed : has_prefix container.id s ≡ true
    pub only : count_prefix s cs ≡ 1

  named_cases :
      (s : Text) (i : ℕ) (cs : List (Container fl))
      → ((find_named fl s i cs ≡ none) × AllUnnamed s cs)
        ⊎ ((j : ℕ) × (find_named fl s i cs ≡ some (i + j)) × IsFirstNamed s cs j)
  unfolding find_named
  named_cases s i [] = inl (refl, tt)
  named_cases s i (c ∷ cs) = elim (Bool-cases (is_named fl s c)) [
    | inl e ↦ inr (
      0,
      rw (e, find_named) (ap some (omega arith)),
      record { container = c; at = refl; named = e; first = tt },
    )
    | inr e ↦ elim (named_cases s (i + 1) cs) [
      | inl (h, a) ↦ inl (rw (e, find_named) h, (e, a))
      | inr (j, h, f) ↦ inr (
        suc j,
        rw (e, find_named) (h ∙ ap some (omega arith)),
        record { container = f.container; at = f.at; named = f.named; first = (e, f.first) },
      )
    ]
  ]

  after_first :
      (s : Text) (i j : ℕ) (cs : List (Container fl))
      → ((count_prefix s cs ≡ 0) × (find_prefix fl s i (some j) cs ≡ ok j))
        ⊎ ((1 ≤ count_prefix s cs) × (find_prefix fl s i (some j) cs ≡ fail (ambiguous s)))
  unfolding find_prefix
  after_first s i j [] = inl (refl, refl)
  after_first s i j (c ∷ cs) = elim (Bool-cases (has_prefix c.id s)) [
    | inl e ↦ inr (rw e (omega arith), rw e)
    | inr e ↦ elim (after_first s (i + 1) j cs) [
      | inl (n, h) ↦ inl (rw e (omega arith), rw (e, find_prefix) h)
      | inr (n, h) ↦ inr (rw e (omega arith), rw (e, find_prefix) h)
    ]
  ]

  -- What looking for a prefix from index `i` on ends in.
  abbrev ByPrefix : Text → ℕ → List (Container fl) → Outcome ℕ → Type 0
  ByPrefix s i cs r =
      ((count_prefix s cs ≡ 0) × (r ≡ fail (no_match s)))
      ⊎ ((j : ℕ) × (r ≡ ok (i + j)) × IsOnlyPrefixed s cs j)
      ⊎ ((2 ≤ count_prefix s cs) × (r ≡ fail (ambiguous s)))

  prefix_cases :
      (s : Text) (i : ℕ) (cs : List (Container fl)) → ByPrefix s i cs (find_prefix fl s i none cs)
  unfolding find_prefix
  prefix_cases s i [] = inl (refl, refl)
  prefix_cases s i (c ∷ cs) = elim (Bool-cases (has_prefix c.id s)) [
    | inl e ↦ elim (after_first s (i + 1) i cs) [
      | inl (n, h) ↦ inr (
          inl (
            0,
            rw (e, find_prefix) (h ∙ ap ok (omega arith)),
            record { container = c; at = refl; prefixed = e; only = rw e (omega arith) },
          ))
      | inr (n, h) ↦ inr (inr (rw e (omega arith), rw (e, find_prefix) h))
    ]
    | inr e ↦ elim (prefix_cases s (i + 1) cs) [
      | inl (n, h) ↦ inl (rw e (omega arith), rw (e, find_prefix) h)
      | inr (inl (j, h, p)) ↦ inr (
          inl (
            suc j,
            rw (e, find_prefix) (h ∙ ap ok (omega arith)),
            record {
              container = p.container;
              at = p.at;
              prefixed = p.prefixed;
              only = rw e (omega (arith, p.only));
            },
          ))
      | inr (inr (n, h)) ↦ inr (inr (rw e (omega arith), rw (e, find_prefix) h))
    ]
  ]

  -- What looking for a prefix in the whole list ends in.
  abbrev pub IsByPrefix : Text → List (Container fl) → Outcome ℕ → Type 0
  IsByPrefix s cs r =
      ((count_prefix s cs ≡ 0) × (r ≡ fail (no_match s)))
      ⊎ ((i : ℕ) × (r ≡ ok i) × IsOnlyPrefixed s cs i)
      ⊎ ((2 ≤ count_prefix s cs) × (r ≡ fail (ambiguous s)))

  ByPrefix-IsByPrefix :
      (s : Text) (cs : List (Container fl)) (r : Outcome ℕ) → ByPrefix s 0 cs r → IsByPrefix s cs r
  ByPrefix-IsByPrefix s cs r (inl x) = inl x
  ByPrefix-IsByPrefix s cs r (inr (inl (j, h, p))) = inr (inl (j, h ∙ ap ok (omega arith), p))
  ByPrefix-IsByPrefix s cs r (inr (inr x)) = inr (inr x)

  -- What a name or ID stands for.
  abbrev pub Stands : Text → List (Container fl) → Outcome ℕ → Type 0
  Stands s cs r =
      ((s ≡ []) × (r ≡ fail empty_name))
      ⊎ ((i : ℕ) × (r ≡ ok i) × IsFirstNamed s cs i)
      ⊎ (AllUnnamed s cs × IsByPrefix s cs r)

  -- An empty text is an error. Otherwise matchContainer gives the first container with that ID or
  -- name; where there is none, the only container whose ID has that prefix; and where none or
  -- several have it, the error for each.
  pub match_container-Stands :
      (containers : List (Container fl)) (id_or_name : Text)
      → Stands id_or_name containers (match_container fl containers id_or_name)
  unfolding match_container
  match_container-Stands cs s = elim (Bool-cases (eqb s [])) [
    | inl e ↦ inl ((eqb_iff s []).0 e, rw e)
    | inr e ↦ elim (named_cases s 0 cs) [
      | inr (j, h, f) ↦ inr (inl (j, rw (e, h) (ap ok (omega arith)), f))
      | inl (h, a) ↦ inr (inr (a, rw (e, h) (ByPrefix-IsByPrefix s cs _ (prefix_cases s 0 cs))))
    ]
  ]
