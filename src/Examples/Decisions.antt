-- ===== src/Examples/Decisions.antt =====
-- The expiry, the decisions and the phases of an environment.
use breakfix.Prelude.{◌≡◌, ◌⊎◌, ◌≤◌, refl, pos, arith, All, Among}
use breakfix.Text.{Text, codes}
use breakfix.Errors.{ok}
use breakfix.Runnable.Kinds.{EnvironmentPurpose}
use breakfix.Runnable.Model.{Time}
use breakfix.Controller.Environment.{EnvironmentPhase}
use breakfix.Controller.State.{Decision, Plan, decide, expires_at, plan_lifecycle}
use breakfix.Controller.State.Expiry.{deadlines, expires_at_earliest}
use breakfix.Controller.State.Decisions.{Right, decide-Right}
use breakfix.Controller.State.Phases.{Leads, stay, onward, never_returns, draining_final}
use breakfix.Controller.State.{validate_spec_binding}
use breakfix.Controller.State.Decisions.{Consistent, decide_total}
use breakfix.Examples.Data.{codec, policy}
use breakfix.Examples.Environments.{lease, plan, live}

-- The release that was asked for comes first.
expiry : expires_at 1 lease policy ≡ ok 5
unfolding breakfix.Runnable.Plan.validate_lifecycle breakfix.Controller.State.decide
expiry = refl

drained : decide codec live plan 7 (pos 0) ≡ ok Decision.drain
unfolding breakfix.Text.contains breakfix.Text.all breakfix.Text.member
    breakfix.Runnable.Ident.valid_digest breakfix.Runnable.Ident.validate_id
    breakfix.Runnable.Ident.required_string breakfix.Runnable.Ident.validate_format
    breakfix.Runnable.Kinds.runtime_valid breakfix.Runnable.Kinds.permission_valid
    breakfix.Runnable.Kinds.network_valid breakfix.Runnable.Kinds.execution_valid
    breakfix.Runnable.Kinds.purpose_valid breakfix.Runnable.Kinds.runtime_eq
    breakfix.Runnable.Kinds.is_read_write breakfix.Runnable.Kinds.is_read_only
    breakfix.Runnable.Profile.validate_identity breakfix.Runnable.Profile.validate_resources
    breakfix.Runnable.Profile.validate_target breakfix.Runnable.Profile.validate_boundary
    breakfix.Runnable.Profile.validate_versions breakfix.Runnable.Profile.validate_boundaries
    breakfix.Runnable.Profile.validate_profile breakfix.Runnable.Profile.validate_source
    breakfix.Runnable.Plan.validate_entrypoint breakfix.Runnable.Plan.select_boundary
    breakfix.Runnable.Plan.timeout_ok breakfix.Runnable.Plan.is_sorted
    breakfix.Runnable.Plan.exit_codes_ok breakfix.Runnable.Plan.validate_action
    breakfix.Runnable.Plan.validate_assertion breakfix.Runnable.Plan.validate_phase_shape
    breakfix.Runnable.Plan.validate_phase breakfix.Runnable.Plan.validate_phases
    breakfix.Runnable.Plan.validate_plan breakfix.Runnable.Plan.validate_lifecycle
    breakfix.Runnable.Unique.each_unique breakfix.Runnable.Spec.validate_initialization
    breakfix.Runnable.Spec.reject_reserved breakfix.Runnable.Spec.validate_spec
    breakfix.Runnable.Spec.validate_artifact breakfix.Runnable.Spec.digest_bytes
    breakfix.Runnable.Spec.spec_digest breakfix.Runnable.Spec.profile_digest
    breakfix.Runnable.Spec.validate_revision breakfix.Runnable.Spec.revision_digest
    breakfix.Controller.State.validate_spec_binding breakfix.Controller.State.decide
drained = refl

expires_at_earliest_example :
    Among 5 (deadlines 1 lease policy) × All (λ t. 5 ≤ t) (deadlines 1 lease policy)
expires_at_earliest_example = expires_at_earliest 1 lease policy expiry

decide-Right_example :
    (expires : Time) × (expires_at 1 lease (plan_lifecycle plan) ≡ ok expires)
    × Right live.status (pos 0) (pos 0) 7 expires Decision.drain
decide-Right_example = decide-Right codec live plan 7 (pos 0) Decision.drain drained

draining_released : Leads EnvironmentPhase.draining EnvironmentPhase.released
unfolding breakfix.Controller.State.can_transition
draining_released = onward stay refl

never_returns_example : EnvironmentPhase.draining ≡ EnvironmentPhase.draining
never_returns_example =
    never_returns (stay {p = EnvironmentPhase.draining}) (stay {p = EnvironmentPhase.draining})

draining_final_example :
    (EnvironmentPhase.released ≡ EnvironmentPhase.draining)
    ⊎ (EnvironmentPhase.released ≡ EnvironmentPhase.released)
draining_final_example = draining_final draining_released

binding_valid : validate_spec_binding codec live plan ≡ ok tt
unfolding breakfix.Text.contains breakfix.Text.all breakfix.Text.member
    breakfix.Runnable.Ident.valid_digest breakfix.Runnable.Ident.validate_id
    breakfix.Runnable.Ident.required_string breakfix.Runnable.Ident.validate_format
    breakfix.Runnable.Kinds.runtime_valid breakfix.Runnable.Kinds.permission_valid
    breakfix.Runnable.Kinds.network_valid breakfix.Runnable.Kinds.execution_valid
    breakfix.Runnable.Kinds.purpose_valid breakfix.Runnable.Kinds.runtime_eq
    breakfix.Runnable.Kinds.is_read_write breakfix.Runnable.Kinds.is_read_only
    breakfix.Runnable.Profile.validate_identity breakfix.Runnable.Profile.validate_resources
    breakfix.Runnable.Profile.validate_target breakfix.Runnable.Profile.validate_boundary
    breakfix.Runnable.Profile.validate_versions breakfix.Runnable.Profile.validate_boundaries
    breakfix.Runnable.Profile.validate_profile breakfix.Runnable.Profile.validate_source
    breakfix.Runnable.Plan.validate_entrypoint breakfix.Runnable.Plan.select_boundary
    breakfix.Runnable.Plan.timeout_ok breakfix.Runnable.Plan.is_sorted
    breakfix.Runnable.Plan.exit_codes_ok breakfix.Runnable.Plan.validate_action
    breakfix.Runnable.Plan.validate_assertion breakfix.Runnable.Plan.validate_phase_shape
    breakfix.Runnable.Plan.validate_phase breakfix.Runnable.Plan.validate_phases
    breakfix.Runnable.Plan.validate_plan breakfix.Runnable.Plan.validate_lifecycle
    breakfix.Runnable.Unique.each_unique breakfix.Runnable.Spec.validate_initialization
    breakfix.Runnable.Spec.reject_reserved breakfix.Runnable.Spec.validate_spec
    breakfix.Runnable.Spec.validate_artifact breakfix.Runnable.Spec.digest_bytes
    breakfix.Runnable.Spec.spec_digest breakfix.Runnable.Spec.profile_digest
    breakfix.Runnable.Spec.validate_revision breakfix.Runnable.Spec.revision_digest
    breakfix.Controller.State.validate_spec_binding
binding_valid = refl

live-Consistent : Consistent live.status
unfolding breakfix.Controller.State.decide
live-Consistent = (refl, refl, λ h. absurd (ground arith))

decide_total_example : (d : Decision) × (decide codec live plan 7 (pos 0) ≡ ok d)
unfolding plan_lifecycle
decide_total_example = decide_total codec live plan 7 (pos 0) binding_valid expiry live-Consistent
