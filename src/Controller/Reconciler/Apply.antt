-- ===== src/Controller/Reconciler/Apply.antt =====
-- internal/controller/runtimeenvironment/reconciler.go: the observations of the provider, the cases
-- of the decision, and `Reconcile`.
use breakfix.Prelude.{
  ℕ, ℤ, pos, negsuc, ◌+◌, ◌-◌, ◌*◌, ◌/◌, Bool, true, false, not, ◌&&◌, ◌||◌, [], ◌∷◌, Option, none,
  some, ltb, if◌then◌else◌,
}
use breakfix.Text.{Text, codes}
use breakfix.Errors.{Error, Result, ok, err}
use breakfix.Runnable.Kinds.{FailureClass, runtime_text}
use breakfix.Runnable.Model.{Time}
use breakfix.Runnable.Backoff.{second}
use breakfix.Runnable.Spec.{profile_digest}
use breakfix.Controller.Environment.{
  EnvironmentPhase, EnvironmentOperation, RuntimeEnvironmentStatus, RuntimeEnvironment, phase_eq,
  is_resetting,
}
use breakfix.Controller.State.{
  Decision, Plan, plan_profile, plan_lifecycle, plan_runtime, validate_spec_binding, expires_at,
  decide, duration,
}
use breakfix.Controller.Reconciler.{
  is_set, Observation, Services, Write, Outcome, requeue, finished, Resolution, resolve_plan,
  environment_binding, write_status, enter, fail_environment, begun, infrastructure_failure,
  provider_failure,
}
use breakfix.Runnable.Plan.{eq_ℤ}
use breakfix.Controller.Reconciler.Reap.{reconcile_reap, reconcile_deletion}

-- The seconds from the zero time to 1970.
abbrev pub unix_epoch : ℕ
unix_epoch = 62_135_596_800

module _ (s : Services) where
  -- expiresAt.Sub(now)
  unfoldable pub sub_time : Time → Time → ℤ
  sub_time a b = if ltb a b then negsuc (b - a - 1) else pos (a - b)

  unfoldable pub observed :
      Plan
      → (digest : Text) → Observation
      → EnvironmentOperation
      → (expires : Time) → RuntimeEnvironmentStatus
      → RuntimeEnvironmentStatus
  observed p digest o operation expires t = record t {
    phase = if o.is_ready then EnvironmentPhase.ready else begun s t.phase;
    operation = if o.is_ready then EnvironmentOperation.operation_none else operation;
    runtime = record {
      provider = runtime_text (plan_runtime p);
      profile_digest = digest;
      resource_refs = o.resource_refs;
      endpoint_refs = o.endpoint_refs;
    };
    expires_at = some expires;
    failure = none;
  }

  -- `applyObservation`
  unfoldable pub apply_observation :
      Plan → Observation → EnvironmentOperation → RuntimeEnvironment → Outcome
  apply_observation p o operation e = elim (profile_digest s.codec (plan_profile p)) [
    | err x ↦ (err x, [])
    | ok digest ↦ elim (expires_at e.creation_timestamp e.spec.lease (plan_lifecycle p)) [
      | err x ↦ (err x, [])
      | ok expires ↦
          write_status s (observed p digest o operation expires) e
            (λ e'. if o.is_ready then (ok (sub_time expires s.now), []) else requeue 2)
    ]
  ]

  abbrev pub apply_result :
      Plan → Result Observation → EnvironmentOperation → RuntimeEnvironment → Outcome
  apply_result p (ok o) operation e = apply_observation p o operation e
  apply_result p (err x) operation e = provider_failure s x e

  -- `if err := r.Patch(...); err != nil { return err }` and what follows.
  abbrev pub write_metadata : RuntimeEnvironment → Outcome → Outcome
  write_metadata e next = elim (s.patch e) [
    | ok t ↦ let (answer, writes) = next in (answer, Write.metadata_patch e ∷ writes)
    | err x ↦ (err x, [])
  ]

  -- The case DecisionProvision.
  unfoldable pub do_provision : Plan → RuntimeEnvironment → Outcome
  do_provision p e =
      if phase_eq e.status.phase EnvironmentPhase.unset
        || phase_eq e.status.phase EnvironmentPhase.pending
      then write_status s
          (enter s EnvironmentPhase.provisioning EnvironmentOperation.operation_none) e
          (λ e'. requeue 2)
      else apply_result p (s.provision (environment_binding s e p)) e.status.operation e

  -- The annotation has the Unix time in seconds; a value that is not above zero is not read back.
  abbrev pub adopted_at : Time → Option Time
  adopted_at now =
      let seconds = now / second in if ltb unix_epoch seconds then some (seconds * second) else none

  -- The case DecisionReset after the adoption is stored.
  unfoldable pub run_reset : Plan → RuntimeEnvironment → Outcome
  run_reset p e =
      apply_result p (s.reset (environment_binding s e p)) EnvironmentOperation.resetting e

  unfoldable pub reset_overdue : Plan → Option Time → Bool
  reset_overdue p none = false
  reset_overdue p (some adopted) =
      ltb (adopted + duration (plan_lifecycle p).reset_timeout_seconds) s.now

  unfoldable pub bounded_reset : Plan → RuntimeEnvironment → Outcome
  bounded_reset p e =
      if reset_overdue p e.reset_adopted_annotation
      then fail_environment s FailureClass.infrastructure (codes "runtime-environment")
          (codes "reset-timeout") (Error.plain "reset did not complete within the reset timeout") e
      else run_reset p e

  abbrev pub is_some : Option Time → Bool
  is_some none = false
  is_some (some t) = true

  -- `observeResetRequest`, and what follows.
  unfoldable pub observe_reset : Plan → RuntimeEnvironment → Outcome
  observe_reset p e =
      if eq_ℤ e.reset_nonce_annotation e.spec.reset_nonce && is_some e.reset_adopted_annotation
      then bounded_reset p e
      else let e' = record e {
        reset_nonce_annotation = e.spec.reset_nonce;
        reset_adopted_annotation = adopted_at s.now;
      } in
        write_metadata e' (bounded_reset p e')

  -- The case DecisionReset.
  unfoldable pub do_reset : Plan → RuntimeEnvironment → Outcome
  do_reset p e =
      if is_resetting e.status.operation
      then observe_reset p e
      else write_status s
          (λ t. record t {
            operation = EnvironmentOperation.resetting;
            observed_reset_nonce = e.spec.reset_nonce;
          })
          e (observe_reset p)

  -- The switch on the decision.
  unfoldable pub act : Plan → Decision → RuntimeEnvironment → Outcome
  act p Decision.decision_none e = finished
  act p Decision.drain e =
      write_status s (enter s EnvironmentPhase.draining EnvironmentOperation.operation_none) e
        (λ e'. requeue 2)
  act p Decision.provision e = do_provision p e
  act p Decision.reset e = do_reset p e
  act p Decision.reap e = reconcile_reap s (environment_binding s e p) e

  -- `Reconcile` from the validation of the resolved plan on.
  unfoldable pub reconcile_resolved : Plan → RuntimeEnvironment → Outcome
  reconcile_resolved p e = elim (validate_spec_binding s.codec e p) [
    | err x ↦
        fail_environment s FailureClass.artifact (codes "runtime-environment")
          (codes "invalid-revision-binding") x e
    | ok t ↦ elim (decide s.codec e p s.now e.reset_nonce_annotation) [
      | err x ↦
          fail_environment s FailureClass.artifact (codes "runtime-environment")
            (codes "invalid-lifecycle") x e
      | ok d ↦ act p d e
    ]
  ]

  -- `Reconcile`, once the environment is read and the reconciler has its services.
  unfoldable pub reconcile : RuntimeEnvironment → Outcome
  reconcile e =
      if is_set e.deletion_timestamp
      then reconcile_deletion s e
      else if not e.has_finalizer
      then write_metadata (record e { has_finalizer = true }) (requeue 2)
      else elim (resolve_plan s e) [
        | Resolution.not_installed x ↦
            fail_environment s FailureClass.artifact (codes "runtime-environment")
              (codes "blank-runtime-not-installed") x e
        | Resolution.unavailable x ↦
            infrastructure_failure s (codes "revision-resolver") (codes "revision-unavailable") x e
        | Resolution.resolved p ↦ reconcile_resolved p e
      ]
