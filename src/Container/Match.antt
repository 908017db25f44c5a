-- ===== src/Container/Match.antt =====
-- container.go: matchContainer finds a container by its ID, its name or a prefix of its ID.
use systats.Container.Types.{Container}
use systats.Go.Float.{Float64}
use systats.Go.Outcome.{Outcome, ok, fail, empty_name, ambiguous, no_match}
use systats.Go.Strings.{has_prefix}
use systats.Prelude.Text.{Text, eqb}
use systats.Prelude.{
  ℕ, ◌+◌, Bool, true, false, not, ◌&&◌, ◌||◌, ◌==◌, Option, none, some, List, [], ◌∷◌,
  if◌then◌else◌, length, take,
}
pub mod Found

-- id[:12] of a full ID
unfoldable pub short_container_id : Text → Text
short_container_id id = if length id == 64 then take 12 id else id

module _ (fl : Float64) where
  unfoldable pub is_named : Text → Container fl → Bool
  unfolding eqb
  is_named id_or_name c = eqb c.id id_or_name || (not (eqb c.name []) && eqb c.name id_or_name)

  -- The first loop, from index `i` on.
  unfoldable pub find_named : Text → ℕ → List (Container fl) → Option ℕ
  find_named id_or_name i [] = none
  find_named id_or_name i (c ∷ cs) =
      if is_named id_or_name c then some i else find_named id_or_name (i + 1) cs

  -- The second loop; `found` is none for -1.
  unfoldable pub find_prefix : Text → ℕ → Option ℕ → List (Container fl) → Outcome ℕ
  unfolding has_prefix
  find_prefix id_or_name i none [] = fail (no_match id_or_name)
  find_prefix id_or_name i (some j) [] = ok j
  find_prefix id_or_name i none (c ∷ cs) =
      if has_prefix c.id id_or_name
      then find_prefix id_or_name (i + 1) (some i) cs
      else find_prefix id_or_name (i + 1) none cs
  find_prefix id_or_name i (some j) (c ∷ cs) =
      if has_prefix c.id id_or_name
      then fail (ambiguous id_or_name)
      else find_prefix id_or_name (i + 1) (some j) cs

  unfoldable pub match_container : List (Container fl) → Text → Outcome ℕ
  unfolding find_named find_prefix
  match_container containers id_or_name =
      if eqb id_or_name [] then fail empty_name else elim (find_named id_or_name 0 containers) [
        | some i ↦ ok i
        | none ↦ find_prefix id_or_name 0 none containers
      ]
