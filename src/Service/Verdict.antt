-- ===== src/Service/Verdict.antt =====
-- service.go: what the answer rests on.
use systats.Exec.{Context, Shell, execute_with_error_and_context}
use systats.Go.Strings.Fields.{IsBlank}
use systats.Go.Strings.Blank.{trim_space-IsBlank, contains-blank}
use systats.Go.Strings.{contains, trim_space}
use systats.Prelude.Text.{Text, codes, eqb, eqb_iff}
use systats.Prelude.{
  ◌≡◌, ◌≢◌, ◌↔◌, ◌⊎◌, inl, inr, refl, true, false, Option, none, some, [], ◌∷◌, arith, Bool-cases,
  Option-cases,
}
use systats.Service.{fallback_verdict, systemctl_verdict, is_service_running}

-- A tool has answered where it printed more than white space, or ended without an error.
abbrev pub HasAnswered : Text × Option Text → Type 0
HasAnswered r = (¬ IsBlank r.0) ⊎ (r.1 ≡ none)

-- The answer is active by the two tools' outputs.
abbrev pub SaysActive : Text × Option Text → Text × Option Text → Type 0
SaysActive first second =
    (trim_space first.0 ≡ codes "active")
    ⊎ ((¬ HasAnswered first) × (contains second.0 (codes "Active: active") ≡ true))

silent : (o m : Text) → IsBlank o → ¬ HasAnswered (o, some m)
silent o m b (inl n) = n b
silent o m b (inr e) = cc

not_active : (o : Text) → IsBlank o → trim_space o ≢ codes "active"
not_active o b h = let e = (trim_space-IsBlank o).1 b in cc

printed : (o : Text) → eqb (trim_space o) [] ≡ false → ¬ IsBlank o
printed o h b = let e = (trim_space-IsBlank o).1 b in ground (arith, eqb_iff (trim_space o) [])

blank : (o : Text) → eqb (trim_space o) [] ≡ true → IsBlank o
blank o h = (trim_space-IsBlank o).0 ((eqb_iff (trim_space o) []).0 h)

module _ (o : Text) where
  ended : (second : Text × Option Text) → IsBlank o → SaysActive (o, none) second → false ≡ true
  ended second b (inl e) = absurd (not_active o b e)
  ended second b (inr (mute, h)) = absurd (mute (inr refl))

  spoke :
      (err : Option Text) (second : Text × Option Text)
      → eqb (trim_space o) [] ≡ false
      → SaysActive (o, err) second
      → eqb (trim_space o) (codes "active") ≡ true
  spoke err second n (inl e) = (eqb_iff (trim_space o) (codes "active")).1 e
  spoke err second n (inr (mute, h)) = absurd (mute (inl (printed o n)))

  only_second :
      (m : Text) (second : Text × Option Text)
      → IsBlank o
      → SaysActive (o, some m) second
      → contains second.0 (codes "Active: active") ≡ true
  only_second m second b (inl e) = absurd (not_active o b e)
  only_second m second b (inr (mute, h)) = h

  other_answer :
      (m : Text) (second : Text × Option Text)
      → (¬ HasAnswered (o, some m))
      → HasAnswered (o, some m) ⊎ HasAnswered second
      → HasAnswered second
  other_answer m second mute (inl a) = absurd (mute a)
  other_answer m second mute (inr a) = a

module _ (ctx : Context) (service : Text) where
  -- What the answer is of, where systemctl has failed in silence.
  fallback_verdict_lem :
      (message : Text) (second : Text × Option Text)
      → ((fallback_verdict ctx service message second).0 ≡ true
          ↔ (contains second.0 (codes "Active: active") ≡ true))
        × (((fallback_verdict ctx service message second).1 ≡ none) ↔ HasAnswered second)
  unfolding fallback_verdict
  fallback_verdict_lem message (o, none) = elim (Bool-cases (eqb (trim_space o) [])) [
    | inl b ↦
        let dull = contains-blank o b'A' (codes "ctive: active") (blank o b) refl in
        rw (b, fallback_verdict) (((λ h. cc), (λ h. cc)), ((λ h. inr refl), (λ h. refl)))
    | inr n ↦
        rw (n, fallback_verdict) (((λ h. h), (λ h. h)), ((λ h. inl (printed o n)), (λ h. refl)))
  ]
  fallback_verdict_lem message (o, some m) = elim (Bool-cases (eqb (trim_space o) [])) [
    | inl b ↦
        let dull = contains-blank o b'A' (codes "ctive: active") (blank o b) refl in
        elim (Option-cases ctx.err) [
          | inl e ↦
              rw (b, e, fallback_verdict)
                (((λ h. cc), (λ h. cc)), ((λ h. cc), (λ h. absurd (silent o m (blank o b) h))))
          | inr (err, e) ↦
              rw (b, e, fallback_verdict)
                (((λ h. cc), (λ h. cc)), ((λ h. cc), (λ h. absurd (silent o m (blank o b) h))))
        ]
    | inr n ↦
        rw (n, fallback_verdict) (((λ h. h), (λ h. h)), ((λ h. inl (printed o n)), (λ h. refl)))
  ]

  systemctl_verdict_lem :
      (first second : Text × Option Text)
      → ((systemctl_verdict ctx service first second).0 ≡ true ↔ SaysActive first second)
        × (((systemctl_verdict ctx service first second).1 ≡ none)
            ↔ (HasAnswered first ⊎ HasAnswered second))
  unfolding systemctl_verdict
  systemctl_verdict_lem (o, none) second = elim (Bool-cases (eqb (trim_space o) [])) [
    | inl b ↦
        rw (b, systemctl_verdict)
          (((λ h. cc), ended o second (blank o b)), ((λ h. inl (inr refl)), (λ h. refl)))
    | inr n ↦
        rw (n, systemctl_verdict)
          (
            ((λ h. inl ((eqb_iff (trim_space o) (codes "active")).0 h)), spoke o none second n),
            ((λ h. inl (inl (printed o n))), (λ h. refl)),
          )
  ]
  systemctl_verdict_lem (o, some m) second = elim (Bool-cases (eqb (trim_space o) [])) [
    | inl b ↦
        let rest = fallback_verdict_lem m second in
        let mute = silent o m (blank o b) in
        rw (b, systemctl_verdict)
          (
            ((λ h. inr (mute, rest.0.0 h)), (λ h. rest.0.1 (only_second o m second (blank o b) h))),
            ((λ h. inr (rest.1.0 h)), (λ h. rest.1.1 (other_answer o m second mute h))),
          )
    | inr n ↦
        rw (n, systemctl_verdict)
          (
            ((λ h. inl ((eqb_iff (trim_space o) (codes "active")).0 h)), spoke o (some m) second n),
            ((λ h. inl (inl (printed o n))), (λ h. refl)),
          )
  ]

-- What the two tools say.
module _ (shell : Shell) (ctx : Context) (service : Text) where
  abbrev pub systemctl : Text × Option Text
  systemctl =
      execute_with_error_and_context shell ctx (codes "systemctl")
        (codes "is-active" ∷ service ∷ [])

  abbrev pub service_status : Text × Option Text
  service_status =
      execute_with_error_and_context shell ctx (codes "service") (service ∷ codes "status" ∷ [])

  -- The service is said to be active exactly where systemctl printed "active", or failed and printed
  -- nothing but white space and service(8) printed "Active: active". An error is returned exactly
  -- where neither tool has answered: each failed, and printed nothing but white space.
  pub is_service_running_lem :
      ((is_service_running shell ctx service).0 ≡ true ↔ (
        (trim_space systemctl.0 ≡ codes "active")
        ⊎ ((¬ HasAnswered systemctl)
            × (contains service_status.0 (codes "Active: active") ≡ true))))
      × ((is_service_running shell ctx service).1 ≡ none
          ↔ (HasAnswered systemctl ⊎ HasAnswered service_status))
  unfolding is_service_running
  is_service_running_lem = systemctl_verdict_lem ctx service systemctl service_status
