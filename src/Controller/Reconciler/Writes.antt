-- ===== src/Controller/Reconciler/Writes.antt =====
-- internal/controller/runtimeenvironment/reconciler.go: the writes of `Reconcile`.
use breakfix.Prelude.{
  ℕ, ℤ, Bool, true, false, ◌||◌, [], Option, none, some, if◌then◌else◌, ◌≡◌, refl, arith, inl, inr,
  Bool-cases,
}
use breakfix.Text.{Text}
use breakfix.Errors.{Error, Result, ok, err, as_artifact}
use breakfix.Runnable.Kinds.{FailureClass}
use breakfix.Runnable.Spec.{profile_digest}
use breakfix.Controller.Environment.{
  EnvironmentPhase, EnvironmentOperation, RuntimeEnvironmentStatus, RuntimeEnvironment, phase_eq,
}
use breakfix.Controller.State.{Plan, plan_profile, plan_lifecycle, expires_at}
use breakfix.Controller.Reconciler.{
  Observation, Services, Outcome, requeue, finished, environment_binding, fail_environment, begun,
  infrastructure_failure, provider_failure,
}
use breakfix.Controller.Reconciler.Apply.{
  observed, apply_observation, apply_result, write_metadata, do_provision, run_reset, reset_overdue,
  bounded_reset,
}
use breakfix.Controller.Reconciler.Allowed.{From, AllSound, write_status-AllSound}

pub match_option :
    {A : Type 0} (P : Outcome → Type 0) (o : Option A) (f : Outcome) (g : A → Outcome)
    → P f
    → ((a : A) → o ≡ some a → P (g a))
    → P (elim o [ none ↦ f | some a ↦ g a ])
match_option P none f g p q = p
match_option P (some a) f g p q = q a refl

pub match_bool :
    (P : Outcome → Type 0) (b : Bool) (x y : Outcome)
    → (b ≡ true → P x)
    → (b ≡ false → P y)
    → P (if b then x else y)
match_bool P true x y p q = p refl
match_bool P false x y p q = q refl

pub match_result :
    {A : Type 0} (P : Outcome → Type 0) (m : Result A) (f : Error → Outcome) (g : A → Outcome)
    → ((x : Error) → P (f x))
    → ((a : A) → m ≡ ok a → P (g a))
    → P (elim m [ err x ↦ f x | ok a ↦ g a ])
match_result P (err x) f g p q = p x
match_result P (ok a) f g p q = q a refl

module _ (s : Services) where
  pub fail-AllSound :
      (class : FailureClass) (component reason : Text) (cause : Error) (e0 e : RuntimeEnvironment)
      → From s e0 e
      → AllSound s e0 (fail_environment s class component reason cause e)
  unfolding fail_environment
  fail-AllSound class component reason cause e0 e f =
      write_status-AllSound s _ e0 e (λ e'. finished) f (λ h. absurd (ground arith))
        (λ e' l p h. tt)

  begun_released :
      (p : EnvironmentPhase) → begun s p ≡ EnvironmentPhase.released → p ≡ EnvironmentPhase.released
  unfolding begun
  begun_released p h = ground arith

  pub infrastructure-AllSound :
      (component reason : Text) (cause : Error) (e0 e : RuntimeEnvironment)
      → From s e0 e
      → AllSound s e0 (infrastructure_failure s component reason cause e)
  unfolding infrastructure_failure
  infrastructure-AllSound component reason cause e0 e f =
      write_status-AllSound s _ e0 e (λ e'. requeue 5) f
        (λ h. inl (f.kept (begun_released e.status.phase h))) (λ e' l p h. tt)

  provider-AllSound :
      (cause : Error) (e0 e : RuntimeEnvironment)
      → From s e0 e
      → AllSound s e0 (provider_failure s cause e)
  unfolding provider_failure
  provider-AllSound cause e0 e f =
      match_option (AllSound s e0) (as_artifact cause) _ _
        (infrastructure-AllSound _ _ cause e0 e f) (λ a _. fail-AllSound _ _ _ cause e0 e f)

  observed_released :
      (p : Plan) (digest : Text) (o : Observation) (operation : EnvironmentOperation) (x : ℕ)
      (t : RuntimeEnvironmentStatus)
      → (observed s p digest o operation x t).phase ≡ EnvironmentPhase.released
      → t.phase ≡ EnvironmentPhase.released
  unfolding observed
  observed_released p digest o operation x t h = elim (Bool-cases o.is_ready) [
    | inl up ↦ absurd (ground arith)
    | inr down ↦ begun_released t.phase (ground arith)
  ]

  requeued :
      (b : Bool) (x y : ℤ) (e0 : RuntimeEnvironment)
      → AllSound s e0 (if b then (ok x, []) else (ok y, []))
  requeued true x y e0 = tt
  requeued false x y e0 = tt

  apply-AllSound :
      (p : Plan) (o : Observation) (operation : EnvironmentOperation) (e0 e : RuntimeEnvironment)
      → From s e0 e
      → AllSound s e0 (apply_observation s p o operation e)
  unfolding apply_observation
  apply-AllSound p o operation e0 e f =
      match_result (AllSound s e0) (profile_digest s.codec (plan_profile p)) _ _ (λ x. tt)
        (λ digest _.
          match_result (AllSound s e0)
            (expires_at e.creation_timestamp e.spec.lease (plan_lifecycle p)) _ _ (λ x. tt)
            (λ expires _.
              write_status-AllSound s (observed s p digest o operation expires) e0 e _ f
                (λ h. inl (f.kept (observed_released p digest o operation expires e.status h)))
                (λ e' l p' h. requeued o.is_ready _ _ e0)))

  apply_result-AllSound :
      (p : Plan) (o : Result Observation) (operation : EnvironmentOperation)
      (e0 e : RuntimeEnvironment)
      → From s e0 e
      → AllSound s e0 (apply_result s p o operation e)
  apply_result-AllSound p (ok o) operation e0 e f = apply-AllSound p o operation e0 e f
  apply_result-AllSound p (err x) operation e0 e f = provider-AllSound x e0 e f

  pub provision-AllSound :
      (p : Plan) (e0 e : RuntimeEnvironment) → From s e0 e → AllSound s e0 (do_provision s p e)
  unfolding do_provision
  provision-AllSound p e0 e f =
      elim (Bool-cases (
        phase_eq e.status.phase EnvironmentPhase.unset
        || phase_eq e.status.phase EnvironmentPhase.pending)) [
          | inl first ↦ rw first (
              write_status-AllSound s _ e0 e (λ e'. requeue 2) f (λ h. absurd (ground arith))
                (λ e' l p' h. tt))
          | inr later ↦ rw later (
              apply_result-AllSound p (s.provision (environment_binding s e p)) e.status.operation
                e0 e f)
        ]

  pub bounded_reset-AllSound :
      (p : Plan) (e0 e : RuntimeEnvironment) → From s e0 e → AllSound s e0 (bounded_reset s p e)
  unfolding bounded_reset run_reset
  bounded_reset-AllSound p e0 e f =
      elim (Bool-cases (reset_overdue s p e.reset_adopted_annotation)) [
        | inl late ↦ rw late (fail-AllSound _ _ _ _ e0 e f)
        | inr timely ↦ rw timely (
            apply_result-AllSound p (s.reset (environment_binding s e p))
              EnvironmentOperation.resetting e0 e f)
      ]

  pub write_metadata-AllSound :
      (e0 e : RuntimeEnvironment) (next : Outcome)
      → e.has_finalizer ≡ true
      → AllSound s e0 next
      → AllSound s e0 (write_metadata s e next)
  write_metadata-AllSound e0 e next h a =
      match_result (AllSound s e0) (s.patch e) _ _ (λ x. tt) (λ t _. (inl h, a))
