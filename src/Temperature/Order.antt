-- ===== src/Temperature/Order.antt =====
-- temperature.go: the order of the readings.
use mathlib.Core.List.Perm
use mathlib.Core.List.{Perm}
use systats.Go.Float.{Float64}
use systats.Prelude.Text.{eqb, eqb_iff, text_ltb, text_ltb_asym, text_ltb_total}
use systats.Prelude.{◌≡◌, ◌⊎◌, inl, inr, true, false, List, [], ◌∷◌, All, Bool-cases}
use systats.Temperature.{Temperature, is_before, insert_reading, sort_readings}

module _ (fl : Float64) where
  -- By name, and for the same name by label.
  abbrev pub IsInOrder : Temperature fl → Temperature fl → Type 0
  IsInOrder a b =
      (text_ltb a.name b.name ≡ true) ⊎ ((a.name ≡ b.name) × (text_ltb b.label a.label ≡ false))

  abbrev Heads : Temperature fl → List (Temperature fl) → Type 0
  Heads t [] = Unit
  Heads t (u ∷ us) = IsInOrder t u

  -- Each reading is in order with the next one.
  abbrev pub IsOrdered : List (Temperature fl) → Type 0
  IsOrdered [] = Unit
  IsOrdered (t ∷ ts) = Heads t ts × IsOrdered ts

  not_before : (a b : Temperature fl) → is_before fl a b ≡ false → IsInOrder b a
  unfolding is_before
  not_before a b h = elim (Bool-cases (eqb a.name b.name)) [
    | inl e ↦ let same : a.name ≡ b.name = (eqb_iff a.name b.name).0 e in inr (cc, rw e at h)
    | inr n ↦ inl (text_ltb_total a.name b.name (rw n at h) n)
  ]

  before : (a b : Temperature fl) → is_before fl a b ≡ true → IsInOrder a b
  unfolding is_before
  before a b h = elim (Bool-cases (eqb a.name b.name)) [
    | inl e ↦ inr ((eqb_iff a.name b.name).0 e, text_ltb_asym a.label b.label (rw e at h))
    | inr n ↦ inl (rw n at h)
  ]

  insert_reading-perm :
      (t : Temperature fl) (us : List (Temperature fl)) → Perm (insert_reading fl t us) (t ∷ us)
  unfolding insert_reading
  insert_reading-perm t [] = Perm.refl (t ∷ [])
  insert_reading-perm t (u ∷ us) = elim (Bool-cases (is_before fl u t)) [
    | inl e ↦
        rw (e, insert_reading)
          (Perm.trans (Perm.cons u (insert_reading-perm t us)) (Perm.swap t u us))
    | inr e ↦ rw (e, insert_reading) (Perm.refl (t ∷ u ∷ us))
  ]

  -- Sorting loses no reading and makes none up.
  pub sort_readings-perm : (ts : List (Temperature fl)) → Perm (sort_readings fl ts) ts
  unfolding sort_readings
  sort_readings-perm [] = Perm.refl []
  sort_readings-perm (t ∷ ts) =
      Perm.trans (insert_reading-perm t (sort_readings fl ts)) (Perm.cons t (sort_readings-perm ts))

  insert_reading-Heads :
      (t u : Temperature fl) (us : List (Temperature fl))
      → IsInOrder u t
      → Heads u us
      → Heads u (insert_reading fl t us)
  unfolding insert_reading
  insert_reading-Heads t u [] h s = h
  insert_reading-Heads t u (v ∷ vs) h s = elim (Bool-cases (is_before fl v t)) [
    | inl e ↦ rw (e, insert_reading) s
    | inr e ↦ rw (e, insert_reading) h
  ]

  insert_reading-IsOrdered :
      (t : Temperature fl) (us : List (Temperature fl))
      → IsOrdered us
      → IsOrdered (insert_reading fl t us)
  unfolding insert_reading
  insert_reading-IsOrdered t [] s = (tt, tt)
  insert_reading-IsOrdered t (u ∷ us) s = elim (Bool-cases (is_before fl u t)) [
    | inl e ↦
        rw (e, insert_reading)
          (insert_reading-Heads t u us (before u t e) s.0, insert_reading-IsOrdered t us s.1)
    | inr e ↦ rw (e, insert_reading) (not_before u t e, s)
  ]

  pub sort_readings-IsOrdered : (ts : List (Temperature fl)) → IsOrdered (sort_readings fl ts)
  unfolding sort_readings
  sort_readings-IsOrdered [] = tt
  sort_readings-IsOrdered (t ∷ ts) =
      insert_reading-IsOrdered t (sort_readings fl ts) (sort_readings-IsOrdered ts)

  module _ {κ} (P : Temperature fl → Type κ) where
    insert_reading-All :
        (t : Temperature fl) (us : List (Temperature fl))
        → P t
        → All P us
        → All P (insert_reading fl t us)
    unfolding insert_reading
    insert_reading-All t [] h s = (h, tt)
    insert_reading-All t (u ∷ us) h s = elim (Bool-cases (is_before fl u t)) [
      | inl e ↦ rw (e, insert_reading) (s.0, insert_reading-All t us h s.1)
      | inr e ↦ rw (e, insert_reading) (h, s)
    ]

    pub sort_readings-All : (ts : List (Temperature fl)) → All P ts → All P (sort_readings fl ts)
    unfolding sort_readings
    sort_readings-All [] s = tt
    sort_readings-All (t ∷ ts) s =
        insert_reading-All t (sort_readings fl ts) s.0 (sort_readings-All ts s.1)
