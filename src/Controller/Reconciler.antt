-- ===== src/Controller/Reconciler.antt =====
-- internal/controller/runtimeenvironment/reconciler.go: one reconciliation of an environment that
-- the API server has. What the other systems answer, and the clock, are the parameter `Services`; a
-- reconciliation gives its result and the list of its writes, in order.
pub mod Reap
pub mod Apply
pub mod Release
pub mod Safety
pub mod Progress
pub mod Ends
pub mod Allowed
pub mod Writes
use breakfix.Prelude.{
  ℕ, ℤ, pos, negsuc, suc, ◌+◌, ◌-◌, ◌*◌, Bool, true, false, not, ◌&&◌, ◌||◌, List, [], ◌∷◌, ◌++◌,
  Option, none, some, ltb, ◌==◌, if◌then◌else◌,
}
use breakfix.Text.{Text, codes}
use breakfix.Errors.{Error, Result, ok, err, Check, reject, as_artifact, ◌>>=◌, ◌>>◌}
use breakfix.Errors.Render.{error_text}
use breakfix.Runnable.Kinds.{FailureClass, runtime_text}
use breakfix.Runnable.Model.{RunnableRevision, Time}
use breakfix.Runnable.Backoff.{second}
use breakfix.Runnable.Spec.{Codec, BlankRuntimePlan, profile_digest}
use breakfix.Runnable.Reap.{
  ReapState, EnvironmentBinding, ReapRequest, ReapRecord, binding_digest, reap_key,
  bounded_diagnostic,
}
use breakfix.Controller.Environment.{
  EnvironmentPhase, EnvironmentOperation, RunnableRevisionReference, ResourceReference,
  EndpointReference, RuntimeStatus, EnvironmentFailure, RuntimeEnvironmentStatus,
  RuntimeEnvironment, phase_eq, is_resetting,
}
use breakfix.Controller.State.{
  Decision, Plan, plan_profile, plan_lifecycle, plan_runtime, validate_spec_binding, expires_at,
  decide, can_transition, duration,
}

pub record Observation : Type 0 where
  pub is_ready : Bool
  pub resource_refs : List ResourceReference
  pub endpoint_refs : List EndpointReference

-- The interfaces of the reconciler: the resolver, the blank source (which may be nil), the provider,
-- the reap queue, the API server's answers to a write, and the time; the encoding of a digest, and the
-- zero value of a revision, which stands beside a blank plan.
pub record Services : Type 0 where
  pub codec : Codec
  pub no_revision : RunnableRevision
  pub resolve : (id digest : Text) → Result RunnableRevision
  pub blank : Option (Text → Result BlankRuntimePlan)
  pub provision : EnvironmentBinding → Result Observation
  pub reset : EnvironmentBinding → Result Observation
  pub enqueue : ReapRequest → Check
  pub get : Text → Result ReapRecord
  pub patch_status : RuntimeEnvironment → Check
  pub patch : RuntimeEnvironment → Check
  pub delete : RuntimeEnvironment → Check
  pub now : Time

-- A write that the API server took.
pub data Write : Type 0 where
  status_patch : RuntimeEnvironment → Write
  metadata_patch : RuntimeEnvironment → Write
  delete_call : Write

-- The requeue delay of a `ctrl.Result`, 0 for none, or the error; and the writes.
abbrev pub Outcome : Type 0
Outcome = Result ℤ × List Write

abbrev pub requeue : ℕ → Outcome
requeue seconds = (ok (pos (seconds * second)), [])

abbrev pub finished : Outcome
finished = (ok (pos 0), [])

-- !t.IsZero()
abbrev pub is_set : Option Time → Bool
is_set none = false
is_set (some t) = not (t == 0)

-- The plan, or an error that is errBlankRuntimeNotInstalled, or another one.
pub data Resolution : Type 0 where
  resolved : Plan → Resolution
  not_installed unavailable : Error → Resolution

module _ (s : Services) where
  -- errBlankRuntimeNotInstalled with what follows it.
  unfoldable pub blank_missing : Text → Error
  blank_missing rest = Error.external (codes "blank runtime has no installed plan" ++ rest)

  abbrev after_colon : Text → Text
  after_colon t = codes ": " ++ t

  -- `blankPlan`
  unfoldable pub blank_plan : (provider : Text) → Result BlankRuntimePlan
  unfolding blank_missing
  blank_plan provider = elim s.blank [
    | none ↦ err (blank_missing (after_colon provider))
    | some source ↦ elim (source provider) [
      | ok plan ↦ ok plan
      | err e ↦ err (blank_missing (after_colon provider ++ after_colon (error_text e)))
    ]
  ]

  -- `resolvePlan`
  unfoldable pub resolve_plan : RuntimeEnvironment → Resolution
  unfolding blank_plan blank_missing
  resolve_plan e = elim e.spec.blank_provider [
    | none ↦ elim e.spec.runnable_revision_ref [
      | none ↦ Resolution.not_installed (blank_missing [])
      | some reference ↦ elim (s.resolve reference.id reference.digest) [
        | ok r ↦ Resolution.resolved (record { revision = r; blank = none })
        | err x ↦ Resolution.unavailable x
      ]
    ]
    | some provider ↦ elim (blank_plan provider) [
      | ok b ↦ Resolution.resolved (record { revision = s.no_revision; blank = some b })
      | err x ↦ Resolution.not_installed x
    ]
  ]

  -- `environmentBinding`
  unfoldable pub environment_binding : RuntimeEnvironment → Plan → EnvironmentBinding
  environment_binding e p = record {
    namespace = e.namespace;
    name = e.name;
    uid = e.uid;
    purpose = e.spec.purpose;
    reset_nonce = e.spec.reset_nonce;
    revision = p.revision;
    blank_runtime = p.blank;
  }

  -- `updateStatus`: the environment as the API server took it.
  unfoldable pub update_status :
      (RuntimeEnvironmentStatus → RuntimeEnvironmentStatus)
      → RuntimeEnvironment
      → Result RuntimeEnvironment
  update_status mutate e =
      let mutated = mutate e.status in
      let next = record e { status = record mutated { observed_generation = e.generation } } in
      do
        reject (not (can_transition e.status.phase mutated.phase))
            (Error.plain "runtime environment cannot transition")
        s.patch_status next
        ok next

  -- `if err := r.updateStatus(...); err != nil { return err }` and what follows.
  unfoldable pub after_status : Result RuntimeEnvironment → (RuntimeEnvironment → Outcome) → Outcome
  after_status (ok e) next =
      let (answer, writes) = next e in (answer, Write.status_patch e ∷ writes)
  after_status (err x) next = (err x, [])

  abbrev pub write_status :
      (RuntimeEnvironmentStatus → RuntimeEnvironmentStatus)
      → RuntimeEnvironment
      → (RuntimeEnvironment → Outcome)
      → Outcome
  write_status mutate e next = after_status (update_status mutate e) next

  abbrev failure_of : FailureClass → (component reason : Text) → Error → EnvironmentFailure
  failure_of class component reason cause = record {
    class = class;
    component = component;
    reason = reason;
    message = bounded_diagnostic (error_text cause);
    at_time = s.now;
  }

  abbrev pub enter :
      EnvironmentPhase → EnvironmentOperation → RuntimeEnvironmentStatus → RuntimeEnvironmentStatus
  enter phase operation t = record t { phase = phase; operation = operation }

  -- `fail`
  unfoldable pub fail_environment :
      FailureClass → (component reason : Text) → Error → RuntimeEnvironment → Outcome
  fail_environment class component reason cause e =
      write_status
        (λ t. record (enter EnvironmentPhase.failed EnvironmentOperation.operation_none t) {
          failure = some (failure_of class component reason cause);
        })
        e (λ e'. finished)

  -- "" and Pending become Provisioning.
  unfoldable pub begun : EnvironmentPhase → EnvironmentPhase
  begun EnvironmentPhase.unset = EnvironmentPhase.provisioning
  begun EnvironmentPhase.pending = EnvironmentPhase.provisioning
  begun p = p

  -- `infrastructureFailure`, and the requeue with which both callers answer.
  unfoldable pub infrastructure_failure :
      (component reason : Text) → Error → RuntimeEnvironment → Outcome
  infrastructure_failure component reason cause e =
      write_status
        (λ t. record t {
          phase = begun t.phase;
          failure = some (failure_of FailureClass.infrastructure component reason cause);
        })
        e (λ e'. requeue 5)

  -- `providerFailure`
  unfoldable pub provider_failure : Error → RuntimeEnvironment → Outcome
  unfolding fail_environment infrastructure_failure
  provider_failure cause e = elim (as_artifact cause) [
    | none ↦
        infrastructure_failure (codes "runtime-provider") (codes "provider-unavailable") cause e
    | some a ↦
        fail_environment FailureClass.artifact (codes "runtime-provider")
          (codes "provider-artifact-failure") cause e
  ]
