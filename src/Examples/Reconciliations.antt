-- ===== src/Examples/Reconciliations.antt =====
-- Reconciliations of environments that are given up.
use breakfix.Prelude.{◌≡◌, ◌*◌, refl, false, none, some, pos, [], ◌∷◌, arith, All}
use breakfix.Text.{Text, codes}
use breakfix.Errors.{Error, ok, err}
use breakfix.Runnable.Kinds.{EnvironmentPurpose}
use breakfix.Runnable.Reap.{
  ReapState, ReapRecord, Queue, reap_key, finish, is_blank, claim, take_lease,
}
use breakfix.Controller.Environment.{EnvironmentPhase, RuntimeEnvironment, is_other_operation}
use breakfix.Controller.State.{Decision, Plan, decide, expires_at, plan_lifecycle}
use breakfix.Controller.Reconciler.{Services}
use breakfix.Controller.Reconciler.Apply.{reconcile}
use breakfix.Controller.Reconciler.Safety.{
  FollowsTable, GivesUp, written_phases_follow, released_after_reap,
}
use breakfix.Controller.State.{validate_spec_binding}
use breakfix.Controller.Reconciler.{Resolution, Write, resolve_plan, environment_binding}
use breakfix.Controller.Reconciler.Progress.{Succeeded}
use breakfix.Controller.Reconciler.Ends.{at_time, TakesWrites, expired_is_freed}
use breakfix.Runnable.Backoff.{second}
use breakfix.Runnable.Reap.{binding_digest}
use breakfix.Examples.Data.{revision, codec, digest}
use breakfix.Examples.ReapQueue.{first}
use breakfix.Examples.Environments.{plan, draining, live}

-- A platform whose reap of the environment has succeeded.
abbrev services : Services
services = record {
  codec = codec;
  no_revision = revision;
  resolve = λ id d. ok revision;
  blank = none;
  provision = λ b. err Error.deadline_exceeded;
  reset = λ b. err Error.deadline_exceeded;
  enqueue = λ r. ok tt;
  get = λ k. ok (record first { state = ReapState.succeeded });
  patch_status = λ e. ok tt;
  patch = λ e. ok tt;
  delete = λ e. ok tt;
  now = 7;
}

written_phases_follow_example : All (FollowsTable draining) (reconcile services draining).1
written_phases_follow_example = written_phases_follow services draining

released_after_reap_example : All (GivesUp services draining) (reconcile services draining).1
released_after_reap_example = released_after_reap services draining (λ h. absurd (ground arith))

live_binding_valid : validate_spec_binding codec live plan ≡ ok tt
unfolding breakfix.Text.contains breakfix.Text.all breakfix.Text.member
    breakfix.Runnable.Ident.valid_digest breakfix.Runnable.Ident.validate_id
    breakfix.Runnable.Ident.required_string breakfix.Runnable.Ident.validate_format
    breakfix.Runnable.Kinds.runtime_valid breakfix.Runnable.Kinds.permission_valid
    breakfix.Runnable.Kinds.network_valid breakfix.Runnable.Kinds.execution_valid
    breakfix.Runnable.Kinds.purpose_valid breakfix.Runnable.Kinds.runtime_eq
    breakfix.Runnable.Kinds.is_read_write breakfix.Runnable.Kinds.is_read_only
    breakfix.Runnable.Profile.validate_identity breakfix.Runnable.Profile.validate_resources
    breakfix.Runnable.Profile.validate_target breakfix.Runnable.Profile.validate_boundary
    breakfix.Runnable.Profile.validate_versions breakfix.Runnable.Profile.validate_boundaries
    breakfix.Runnable.Profile.validate_profile breakfix.Runnable.Profile.validate_source
    breakfix.Runnable.Plan.validate_entrypoint breakfix.Runnable.Plan.select_boundary
    breakfix.Runnable.Plan.timeout_ok breakfix.Runnable.Plan.is_sorted
    breakfix.Runnable.Plan.exit_codes_ok breakfix.Runnable.Plan.validate_action
    breakfix.Runnable.Plan.validate_assertion breakfix.Runnable.Plan.validate_phase_shape
    breakfix.Runnable.Plan.validate_phase breakfix.Runnable.Plan.validate_phases
    breakfix.Runnable.Plan.validate_plan breakfix.Runnable.Plan.validate_lifecycle
    breakfix.Runnable.Unique.each_unique breakfix.Runnable.Spec.validate_initialization
    breakfix.Runnable.Spec.reject_reserved breakfix.Runnable.Spec.validate_spec
    breakfix.Runnable.Spec.validate_artifact breakfix.Runnable.Spec.digest_bytes
    breakfix.Runnable.Spec.spec_digest breakfix.Runnable.Spec.profile_digest
    breakfix.Runnable.Spec.validate_revision breakfix.Runnable.Spec.revision_digest
    breakfix.Controller.State.validate_spec_binding
live_binding_valid = refl

live_expiry : expires_at live.creation_timestamp live.spec.lease (plan_lifecycle plan) ≡ ok 5
unfolding breakfix.Runnable.Plan.validate_lifecycle breakfix.Controller.State.expires_at
    breakfix.Controller.State.plan_lifecycle
live_expiry = refl

abbrev succeeded_record : ReapRecord
succeeded_record = record first { state = ReapState.succeeded }

live_plan : resolve_plan services live ≡ Resolution.resolved plan
unfolding breakfix.Controller.Reconciler.resolve_plan
live_plan = refl

binding_digested : binding_digest codec (environment_binding services live plan) ≡ ok digest
unfolding breakfix.Text.contains breakfix.Text.all breakfix.Text.member
    breakfix.Runnable.Ident.valid_digest breakfix.Runnable.Ident.validate_id
    breakfix.Runnable.Ident.required_string breakfix.Runnable.Ident.validate_format
    breakfix.Runnable.Kinds.runtime_valid breakfix.Runnable.Kinds.permission_valid
    breakfix.Runnable.Kinds.network_valid breakfix.Runnable.Kinds.execution_valid
    breakfix.Runnable.Kinds.runtime_eq breakfix.Runnable.Kinds.is_read_write
    breakfix.Runnable.Kinds.is_read_only breakfix.Runnable.Profile.validate_identity
    breakfix.Runnable.Profile.validate_resources breakfix.Runnable.Profile.validate_target
    breakfix.Runnable.Profile.validate_boundary breakfix.Runnable.Profile.validate_versions
    breakfix.Runnable.Profile.validate_boundaries breakfix.Runnable.Profile.validate_profile
    breakfix.Runnable.Profile.validate_source breakfix.Runnable.Plan.validate_entrypoint
    breakfix.Runnable.Plan.select_boundary breakfix.Runnable.Plan.timeout_ok
    breakfix.Runnable.Plan.is_sorted breakfix.Runnable.Plan.exit_codes_ok
    breakfix.Runnable.Plan.validate_action breakfix.Runnable.Plan.validate_assertion
    breakfix.Runnable.Plan.validate_phase_shape breakfix.Runnable.Plan.validate_phase
    breakfix.Runnable.Plan.validate_phases breakfix.Runnable.Plan.validate_plan
    breakfix.Runnable.Plan.validate_lifecycle breakfix.Runnable.Unique.each_unique
    breakfix.Runnable.Spec.validate_initialization breakfix.Runnable.Spec.reject_reserved
    breakfix.Runnable.Spec.validate_spec breakfix.Runnable.Spec.validate_artifact
    breakfix.Runnable.Spec.digest_bytes breakfix.Runnable.Spec.spec_digest
    breakfix.Runnable.Spec.validate_revision breakfix.Runnable.Spec.revision_digest
    breakfix.Runnable.Reap.binding_digest breakfix.Controller.Reconciler.environment_binding
binding_digested = refl

live-Succeeded : Succeeded services live plan
live-Succeeded = (digest, succeeded_record, binding_digested, refl, refl, refl)

takes_writes : TakesWrites services
takes_writes = record { status = λ e. refl; metadata = λ e. refl; deletion = λ e. refl }

live_operation : is_other_operation live.status.operation ≡ false
unfolding is_other_operation
live_operation = refl

expired_is_freed_example :
    (drained released gone freed : RuntimeEnvironment) × (drained.status.phase
      ≡ EnvironmentPhase.draining)
    × (released.status.phase ≡ EnvironmentPhase.released)
    × (gone ≡ record released { deletion_timestamp = some 9 })
    × (freed ≡ record gone { has_finalizer = false })
    × (reconcile (at_time services 6) live
        ≡ (ok (pos (2 * second)), Write.status_patch drained ∷ []))
    × (reconcile (at_time services 7) drained
        ≡ (ok (pos 0), Write.status_patch released ∷ Write.delete_call ∷ []))
    × (reconcile (at_time services 8) gone ≡ (ok (pos 0), Write.metadata_patch freed ∷ []))
expired_is_freed_example =
    expired_is_freed services live plan 6 7 8 9 refl refl refl (λ h. absurd (ground arith))
      (λ h. absurd (ground arith)) live_operation live_plan live_binding_valid live_expiry
      (omega arith) live-Succeeded takes_writes (omega arith)
