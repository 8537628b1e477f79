-- ===== src/Examples/Contract.antt =====
-- The contract of a runnable on the data of this directory.
use breakfix.Prelude.{◌≡◌, ◌↔◌, ◌⊎◌, ◌^◌, ◌*◌, refl, true, none, some, pos, arith, min, length}
use breakfix.Text.{Text, codes}
use breakfix.Errors.{Field, ok}
use breakfix.Runnable.Kinds.{ActionPhase}
use breakfix.Runnable.Model.{RunnableSpec, RuntimeProfile, RunnableRevision, max_id_length}
use breakfix.Runnable.Ident.{valid_digest, validate_id, stable_id}
use breakfix.Runnable.Spec.{
  validate_spec, validate_revision, revision_digest, spec_digest, profile_digest, blank_digest,
  validate_blank, BlankRuntimePlan,
}
use breakfix.Runnable.Profile.{validate_profile}
use breakfix.Runnable.Plan.{validate_lifecycle}
use breakfix.Runnable.Plan.Lifecycle.{IsPolicy, validate_lifecycle-IsPolicy}
use breakfix.Runnable.Spec.Isolation.{Isolated, validate_spec-Isolated}
use breakfix.Runnable.Spec.Binding.{Bound, validate_revision-Bound, digests_valid}
use breakfix.Runnable.Outcome.{compute_passed, expected_phases, validate_report}
use breakfix.Runnable.Outcome.Coverage.{CoversPhase, Pairs, all_satisfied, compute_passed-Pairs}
use breakfix.Runnable.Outcome.Report.{passed_report_covers}
use breakfix.Runnable.Action.{ActionIdentity, ActionContext, validate_context, record_id}
use breakfix.Runnable.Action.Context.{MaterializeInput, VerifyInput, validate_context-input}
use breakfix.Runnable.Action.RecordId.{record_id_valid}
use breakfix.Runnable.Backoff.{second, retry_backoff, retry_backoff_cap, rounds_of}
use breakfix.Runnable.Backoff.Curve.{retry_backoff_curve}
use breakfix.Examples.Data.{spec, revision, report, results, policy, codec, hash, digest, identity}

pub spec_valid : validate_spec spec ≡ ok tt
unfolding breakfix.Text.all breakfix.Text.member breakfix.Runnable.Ident.valid_digest
    breakfix.Runnable.Ident.validate_id breakfix.Runnable.Ident.required_string
    breakfix.Runnable.Ident.validate_format breakfix.Runnable.Kinds.runtime_valid
    breakfix.Runnable.Kinds.permission_valid breakfix.Runnable.Kinds.network_valid
    breakfix.Runnable.Kinds.execution_valid breakfix.Runnable.Kinds.is_read_write
    breakfix.Runnable.Kinds.is_read_only breakfix.Runnable.Profile.validate_identity
    breakfix.Runnable.Profile.validate_resources breakfix.Runnable.Profile.validate_target
    breakfix.Runnable.Profile.validate_boundary breakfix.Runnable.Profile.validate_versions
    breakfix.Runnable.Profile.validate_boundaries breakfix.Runnable.Profile.validate_profile
    breakfix.Runnable.Profile.validate_source breakfix.Runnable.Plan.validate_entrypoint
    breakfix.Runnable.Plan.select_boundary breakfix.Runnable.Plan.timeout_ok
    breakfix.Runnable.Plan.is_sorted breakfix.Runnable.Plan.exit_codes_ok
    breakfix.Runnable.Plan.validate_action breakfix.Runnable.Plan.validate_assertion
    breakfix.Runnable.Plan.validate_phase_shape breakfix.Runnable.Plan.validate_phase
    breakfix.Runnable.Plan.validate_phases breakfix.Runnable.Plan.validate_plan
    breakfix.Runnable.Plan.validate_lifecycle breakfix.Runnable.Unique.each_unique
    breakfix.Runnable.Spec.validate_initialization breakfix.Runnable.Spec.reject_reserved
    breakfix.Runnable.Spec.validate_spec
spec_valid = refl

pub revision_valid : validate_revision codec revision ≡ ok tt
unfolding breakfix.Text.contains breakfix.Text.all breakfix.Text.member
    breakfix.Runnable.Ident.valid_digest breakfix.Runnable.Ident.validate_id
    breakfix.Runnable.Ident.required_string breakfix.Runnable.Ident.validate_format
    breakfix.Runnable.Kinds.runtime_valid breakfix.Runnable.Kinds.permission_valid
    breakfix.Runnable.Kinds.network_valid breakfix.Runnable.Kinds.execution_valid
    breakfix.Runnable.Kinds.runtime_eq breakfix.Runnable.Kinds.is_read_write
    breakfix.Runnable.Kinds.is_read_only breakfix.Runnable.Profile.validate_identity
    breakfix.Runnable.Profile.validate_resources breakfix.Runnable.Profile.validate_target
    breakfix.Runnable.Profile.validate_boundary breakfix.Runnable.Profile.validate_versions
    breakfix.Runnable.Profile.validate_boundaries breakfix.Runnable.Profile.validate_profile
    breakfix.Runnable.Profile.validate_source breakfix.Runnable.Plan.validate_entrypoint
    breakfix.Runnable.Plan.select_boundary breakfix.Runnable.Plan.timeout_ok
    breakfix.Runnable.Plan.is_sorted breakfix.Runnable.Plan.exit_codes_ok
    breakfix.Runnable.Plan.validate_action breakfix.Runnable.Plan.validate_assertion
    breakfix.Runnable.Plan.validate_phase_shape breakfix.Runnable.Plan.validate_phase
    breakfix.Runnable.Plan.validate_phases breakfix.Runnable.Plan.validate_plan
    breakfix.Runnable.Plan.validate_lifecycle breakfix.Runnable.Unique.each_unique
    breakfix.Runnable.Spec.validate_initialization breakfix.Runnable.Spec.reject_reserved
    breakfix.Runnable.Spec.validate_spec breakfix.Runnable.Spec.validate_artifact
    breakfix.Runnable.Spec.digest_bytes breakfix.Runnable.Spec.spec_digest
    breakfix.Runnable.Spec.validate_revision
revision_valid = refl

report_valid : validate_report codec revision report ≡ ok tt
unfolding breakfix.Text.contains breakfix.Text.all breakfix.Text.member
    breakfix.Runnable.Ident.valid_digest breakfix.Runnable.Ident.validate_id
    breakfix.Runnable.Ident.required_string breakfix.Runnable.Ident.validate_format
    breakfix.Runnable.Kinds.runtime_valid breakfix.Runnable.Kinds.permission_valid
    breakfix.Runnable.Kinds.network_valid breakfix.Runnable.Kinds.execution_valid
    breakfix.Runnable.Kinds.runtime_eq breakfix.Runnable.Kinds.is_read_write
    breakfix.Runnable.Kinds.is_read_only breakfix.Runnable.Profile.validate_identity
    breakfix.Runnable.Profile.validate_resources breakfix.Runnable.Profile.validate_target
    breakfix.Runnable.Profile.validate_boundary breakfix.Runnable.Profile.validate_versions
    breakfix.Runnable.Profile.validate_boundaries breakfix.Runnable.Profile.validate_profile
    breakfix.Runnable.Profile.validate_source breakfix.Runnable.Plan.validate_entrypoint
    breakfix.Runnable.Plan.select_boundary breakfix.Runnable.Plan.timeout_ok
    breakfix.Runnable.Plan.is_sorted breakfix.Runnable.Plan.exit_codes_ok
    breakfix.Runnable.Plan.validate_action breakfix.Runnable.Plan.validate_assertion
    breakfix.Runnable.Plan.validate_phase_shape breakfix.Runnable.Plan.validate_phase
    breakfix.Runnable.Plan.validate_phases breakfix.Runnable.Plan.validate_plan
    breakfix.Runnable.Plan.validate_lifecycle breakfix.Runnable.Unique.each_unique
    breakfix.Runnable.Spec.validate_initialization breakfix.Runnable.Spec.reject_reserved
    breakfix.Runnable.Spec.validate_spec breakfix.Runnable.Spec.validate_artifact
    breakfix.Runnable.Spec.digest_bytes breakfix.Runnable.Spec.spec_digest
    breakfix.Runnable.Spec.profile_digest breakfix.Runnable.Spec.validate_revision
    breakfix.Runnable.Spec.revision_digest breakfix.Runnable.Outcome.validate_references
    breakfix.Runnable.Outcome.validate_environment breakfix.Runnable.Outcome.validate_action_result
    breakfix.Runnable.Outcome.validate_assertion_result breakfix.Runnable.Outcome.has_code
    breakfix.Runnable.Outcome.check_action breakfix.Runnable.Outcome.check_assertion
    breakfix.Runnable.Outcome.check_actions breakfix.Runnable.Outcome.check_assertions
    breakfix.Runnable.Outcome.check_phase breakfix.Runnable.Outcome.check_phases
    breakfix.Runnable.Outcome.compute_passed breakfix.Runnable.Outcome.expected_phases
    breakfix.Runnable.Outcome.compute_spec_passed breakfix.Runnable.Outcome.check_verdict
    breakfix.Runnable.Outcome.validate_report
report_valid = refl

abbrev verify_identity : ActionIdentity
verify_identity = record {
  content = identity;
  spec_digest = digest;
  phase = ActionPhase.verify;
  state_version = pos 1;
}

abbrev context : ActionContext
context = record {
  credential = record { identity = verify_identity; lease_owner = codes "w" };
  attempt = pos 1;
  spec = none;
  revision = some revision;
  revision_ref = record { id = codes "rev-1"; digest = digest };
  digest = digest;
}

context_valid : validate_context codec context ≡ ok tt
unfolding breakfix.Text.contains breakfix.Text.all breakfix.Text.member
    breakfix.Runnable.Ident.valid_digest breakfix.Runnable.Ident.validate_id
    breakfix.Runnable.Ident.required_string breakfix.Runnable.Ident.validate_format
    breakfix.Runnable.Kinds.runtime_valid breakfix.Runnable.Kinds.permission_valid
    breakfix.Runnable.Kinds.network_valid breakfix.Runnable.Kinds.execution_valid
    breakfix.Runnable.Kinds.phase_valid breakfix.Runnable.Kinds.runtime_eq
    breakfix.Runnable.Kinds.is_read_write breakfix.Runnable.Kinds.is_read_only
    breakfix.Runnable.Kinds.is_verify breakfix.Runnable.Profile.validate_identity
    breakfix.Runnable.Profile.identity_eq breakfix.Runnable.Profile.validate_resources
    breakfix.Runnable.Profile.validate_target breakfix.Runnable.Profile.validate_boundary
    breakfix.Runnable.Profile.validate_versions breakfix.Runnable.Profile.validate_boundaries
    breakfix.Runnable.Profile.validate_profile breakfix.Runnable.Profile.validate_source
    breakfix.Runnable.Plan.validate_entrypoint breakfix.Runnable.Plan.select_boundary
    breakfix.Runnable.Plan.timeout_ok breakfix.Runnable.Plan.is_sorted
    breakfix.Runnable.Plan.exit_codes_ok breakfix.Runnable.Plan.validate_action
    breakfix.Runnable.Plan.validate_assertion breakfix.Runnable.Plan.validate_phase_shape
    breakfix.Runnable.Plan.validate_phase breakfix.Runnable.Plan.validate_phases
    breakfix.Runnable.Plan.validate_plan breakfix.Runnable.Plan.validate_lifecycle
    breakfix.Runnable.Unique.each_unique breakfix.Runnable.Spec.validate_initialization
    breakfix.Runnable.Spec.reject_reserved breakfix.Runnable.Spec.validate_spec
    breakfix.Runnable.Spec.validate_artifact breakfix.Runnable.Spec.digest_bytes
    breakfix.Runnable.Spec.spec_digest breakfix.Runnable.Spec.validate_revision
    breakfix.Runnable.Spec.revision_digest breakfix.Runnable.Action.validate_action_identity
    breakfix.Runnable.Action.validate_credential
    breakfix.Runnable.Action.validate_revision_reference breakfix.Runnable.Action.validate_verify
    breakfix.Runnable.Action.validate_context
context_valid = refl

prefix_valid : stable_id (codes "rev") ≡ true
unfolding breakfix.Text.all breakfix.Runnable.Ident.validate_id
prefix_valid = refl

validate_spec-Isolated_example : Isolated spec
validate_spec-Isolated_example = validate_spec-Isolated spec spec_valid

compute_passed-Pairs_example :
    (compute_passed (expected_phases spec) results ≡ ok true)
    ↔ (Pairs CoversPhase (expected_phases spec) results × (true ≡ all_satisfied results))
compute_passed-Pairs_example = compute_passed-Pairs (expected_phases spec) results true

passed_report_covers_example :
    (report.failure ≡ none)
    × (revision_digest codec revision ≡ ok report.revision_digest)
    × Pairs CoversPhase (expected_phases revision.spec) report.phases
    × (all_satisfied report.phases ≡ true)
passed_report_covers_example = passed_report_covers codec revision report report_valid refl

validate_revision-Bound_example : Bound codec revision
validate_revision-Bound_example = validate_revision-Bound codec revision revision_valid

digests_valid_example :
    ((s : RunnableSpec) (d : Text)
      → spec_digest codec s ≡ ok d
      → (validate_spec s ≡ ok tt) × (valid_digest d ≡ true))
    × ((p : RuntimeProfile) (d : Text)
        → profile_digest codec p ≡ ok d
        → (validate_profile p ≡ ok tt) × (valid_digest d ≡ true))
    × ((r : RunnableRevision) (d : Text)
        → revision_digest codec r ≡ ok d
        → (validate_revision codec r ≡ ok tt) × (valid_digest d ≡ true))
    × ((b : BlankRuntimePlan) (d : Text)
        → blank_digest codec b ≡ ok d
        → (validate_blank b ≡ ok tt) × (valid_digest d ≡ true))
digests_valid_example = digests_valid codec hash

validate_context-input_example :
    ((ActionPhase.verify ≡ ActionPhase.materialize_artifact) × MaterializeInput codec context)
    ⊎ ((ActionPhase.verify ≡ ActionPhase.verify) × VerifyInput codec context)
validate_context-input_example = validate_context-input codec context context_valid

record_id_valid_example :
    (length (record_id codec (codes "rev") verify_identity) ≡ max_id_length)
    × (validate_id (record_id codec (codes "rev") verify_identity) (Field.name "id") ≡ ok tt)
record_id_valid_example =
    record_id_valid codec hash (codes "rev") verify_identity (Field.name "id") prefix_valid
      (omega arith)

validate_lifecycle-IsPolicy_example : (validate_lifecycle policy ≡ ok tt) ↔ IsPolicy policy
validate_lifecycle-IsPolicy_example = validate_lifecycle-IsPolicy policy

retry_backoff_curve_example :
    retry_backoff (pos (5 * second)) (pos 4)
    ≡ pos (min (5 * second * 2 ^ rounds_of (pos 4)) retry_backoff_cap)
retry_backoff_curve_example = retry_backoff_curve (5 * second) (pos 4) (omega arith) (omega arith)
