-- ===== src/Runnable/Outcome.antt =====
-- internal/domain/runnable/validate.go: results, `ComputePassed` and `ComputeSpecPassed`, and the
-- verification report.
pub mod Coverage
pub mod Report
use breakfix.Prelude.{
  ℕ, ℤ, pos, negsuc, suc, zero, ◌+◌, ◌<◌, ◌≤◌, ◌≤ℤ◌, String, Bool, true, false, not, ◌&&◌, ◌||◌,
  List, [], ◌∷◌, ◌++◌, ◌≡◌, refl, arith, map, Option, none, some, ltb, leb, ltb_ℤ, leb_ℤ, ◌==◌,
  length, if◌then◌else◌,
}
use breakfix.Text.{Text, codes, text_eq}
use breakfix.Text.Trim.{trim_space}
use breakfix.Errors.{Field, Error, Result, ok, err, Check, reject, map_err, is_ok, ◌>>=◌, ◌>>◌}
use breakfix.Errors.Render.{error_text}
use breakfix.Runnable.Kinds.{
  PhaseExecution, class_valid, class_text, is_artifact, is_infrastructure,
}
use breakfix.Runnable.Model.{
  ActionSpec, AssertionSpec, ValidationPhase, ValidationPlan, RunnableSpec, RunnableRevision,
  ImmutableReference, ActionResult, AssertionResult, PhaseResult, EnvironmentIdentity,
  VerificationFailure, VerificationReport, max_reference_length, max_summary_length, max_id_length,
  max_details_length, max_output_reference_count, Time,
}
use breakfix.Runnable.Ident.{valid_digest, validate_id, required_string, validate_format}
use breakfix.Runnable.Plan.{eq_ℤ}
use breakfix.Runnable.Profile.{is_positive}
use breakfix.Runnable.Spec.{Codec, validate_revision, revision_digest, profile_digest, digest_bytes}

unfoldable pub validate_reference : Field → ImmutableReference → Check
validate_reference field r = do
  required_string r.reference (Field.sub field "reference") max_reference_length
  reject (not (valid_digest r.digest) || ltb_ℤ r.size_bytes (pos 0))
      (Error.invalid field "must identify immutable bounded output")

unfoldable pub validate_references : Field → List ImmutableReference → Check
validate_references field [] = ok tt
validate_references field (r ∷ rest) =
    let others = validate_references field rest in do validate_reference field r; others

unfoldable pub validate_environment : EnvironmentIdentity → Check
validate_environment e = do
  required_string e.id (Field.name "environment.id") max_id_length
  validate_id e.provider (Field.name "environment.provider")
  reject (not (valid_digest e.profile_digest))
      (Error.invalid (Field.name "environment.profile_digest") "must be a sha256 digest")

unfoldable pub validate_failure : VerificationFailure → Check
validate_failure f = do
  reject (not (class_valid f.failure_class))
      (Error.unsupported (class_text f.failure_class) (Field.name "verification.failure.class"))
  validate_id f.component (Field.name "verification.failure.component")
  validate_id f.reason (Field.name "verification.failure.reason")
  required_string f.message (Field.name "verification.failure.message") max_summary_length

unfoldable pub validate_action_result : ActionResult → Check
validate_action_result r = do
  validate_id r.id (Field.name "verification.action.id")
  required_string r.summary (Field.name "verification.action.summary") max_summary_length
  reject (ltb max_output_reference_count (length r.outputs)) (
      Error.invalid (Field.name "verification.action.outputs") "exceeds the output reference limit")
  validate_references (Field.name "verification.action.outputs") r.outputs

unfoldable pub validate_assertion_result : AssertionResult → Check
validate_assertion_result r = do
  validate_id r.id (Field.name "verification.assertion.id")
  required_string r.summary (Field.name "verification.assertion.summary") max_summary_length
  reject
      (ltb max_details_length (length r.details)
        || ltb max_output_reference_count (length r.outputs))
      (Error.invalid (Field.name "verification.assertion") "exceeds output limits")
  validate_references (Field.name "verification.assertion.outputs") r.outputs

-- NewArtifactFailure(code, summary)
unfoldable pub artifact_error : String → Text → Error
artifact_error code summary = Error.artifact_failure (codes code) (trim_space summary)

unfoldable pub contract_error : (code summary : String) → Error
unfolding artifact_error
contract_error code summary = artifact_error code (codes summary)

-- slices.Contains(codes, value)
unfoldable pub has_code : List ℤ → ℤ → Bool
has_code [] value = false
has_code (c ∷ cs) value = eq_ℤ c value || has_code cs value

unfoldable pub check_action : ActionSpec → ActionResult → Check
check_action action item = do
  reject (not (text_eq item.id action.id)) (
      contract_error "action-order"
        "verification report action order does not match validation plan")
  map_err (λ e. artifact_error "action-result" (error_text e)) (validate_action_result item)
  reject (not (has_code action.expected_exit_codes item.exit_code))
      (contract_error "action-exit" "action exit result does not satisfy its contract")

unfoldable pub check_assertion : AssertionSpec → AssertionResult → Check
check_assertion assertion item = do
  reject (not (text_eq item.id assertion.id)) (
      contract_error "assertion-order"
        "verification report assertion order does not match validation plan")
  map_err (λ e. artifact_error "assertion-result" (error_text e)) (validate_assertion_result item)

-- The loop over the actions of a phase; the lengths were compared before, so the other cases of the
-- two lists do not arise.
unfoldable pub check_actions : List ActionSpec → List ActionResult → Check
check_actions (a ∷ expected) (r ∷ rs) =
    let others = check_actions expected rs in do check_action a r; others
check_actions _ _ = ok tt

-- The loop over the assertions: `passed && item.Satisfied`.
unfoldable pub check_assertions : Bool → List AssertionSpec → List AssertionResult → Result Bool
check_assertions passed (a ∷ expected) (r ∷ rs) =
    let others = check_assertions (passed && r.satisfied) expected rs in
    do check_assertion a r; others
check_assertions passed _ _ = ok passed

-- a == b, on booleans
abbrev pub bool_eq : Bool → Bool → Bool
bool_eq true b = b
bool_eq false b = not b

-- One round of `computePassed`.
unfoldable pub check_phase : Bool → ValidationPhase → PhaseResult → Result Bool
check_phase passed expected result = do
  reject (not (text_eq result.id expected.id)) (
      contract_error "phase-order" "verification report phase order does not match validation plan")
  reject
      (not (length result.actions == length expected.actions)
        || not (length result.assertions == length expected.assertions))
      (contract_error "result-coverage" "verification report does not cover every declared result")
  check_actions expected.actions result.actions
  check_assertions passed expected.assertions result.assertions

unfoldable pub check_phases : Bool → List ValidationPhase → List PhaseResult → Result Bool
check_phases passed (e ∷ expected) (r ∷ results) =
    check_phase passed e r >>= λ passed'. check_phases passed' expected results
check_phases passed _ _ = ok passed

unfoldable pub compute_passed : List ValidationPhase → List PhaseResult → Result Bool
compute_passed expected results = do
  reject (not (length results == length expected))
      (contract_error "phase-coverage" "verification report does not cover every validation phase")
  check_phases true expected results

-- ComputePassed
unfoldable pub compute_plan_passed : ValidationPlan → List PhaseResult → Result Bool
compute_plan_passed plan results = compute_passed plan.phases results

-- ValidationPhase{ID: "initialization", Actions: …}; the other fields are zero.
unfoldable pub initialization_phase : RunnableSpec → ValidationPhase
initialization_phase spec = record {
  id = codes "initialization";
  timeout_seconds = pos 0;
  execution = PhaseExecution.other [];
  actions = spec.initialization;
  assertions = [];
}

unfoldable pub expected_phases : RunnableSpec → List ValidationPhase
unfolding initialization_phase
expected_phases spec = initialization_phase spec ∷ spec.validation_plan.phases

unfoldable pub compute_spec_passed : RunnableSpec → List PhaseResult → Result Bool
compute_spec_passed spec results = compute_passed (expected_phases spec) results

-- `computeErr == nil && computed`
abbrev pub computed_true : Result Bool → Bool
computed_true (ok b) = b
computed_true (err e) = false

-- The end of `VerificationReport.Validate`: the report's verdict against the computed one.
unfoldable pub check_verdict :
    RunnableSpec → VerificationReport → Option VerificationFailure → Result Bool → Check
check_verdict spec r none computed = do
  passed ← computed
  reject (not (bool_eq r.passed passed))
      (Error.plain "verification report passed does not match machine result")
check_verdict spec r (some failure) computed = do
  validate_failure failure
  reject r.passed (Error.plain "failed verification report cannot pass")
  reject (is_artifact failure.failure_class && computed_true computed)
      (Error.plain "artifact failure conflicts with successful phase results")
  reject
      (is_infrastructure failure.failure_class
        && ltb (length spec.validation_plan.phases + 1) (length r.phases))
      (Error.plain "infrastructure failure reports too many phases")

unfoldable pub validate_report : Codec → RunnableRevision → VerificationReport → Check
validate_report codec revision r = do
  validate_format r.format (Field.name "verification.format_version")
  map_err (Error.wrapped "verification report has invalid runnable revision")
      (validate_revision codec revision)
  digest ←
      map_err (Error.wrapped "verification report revision digest") (revision_digest codec revision)
  reject (not (text_eq r.revision_digest digest))
      (Error.plain "verification report is bound to another runnable revision")
  validate_environment r.environment
  profile ←
      map_err (Error.wrapped "verification report profile digest")
        (profile_digest codec revision.spec.runtime_profile)
  reject (not (text_eq r.environment.profile_digest profile))
      (Error.plain "verification report environment is bound to another runtime profile")
  reject (not (is_positive r.attempt) || r.created_at == 0)
      (Error.invalid (Field.name "verification") "requires a positive attempt and creation time")
  check_verdict revision.spec r r.failure (compute_spec_passed revision.spec r.phases)

-- `VerificationReport.Digest`
unfoldable pub report_digest : Codec → RunnableRevision → VerificationReport → Result Text
report_digest codec revision r = do
  map_err (Error.wrapped "verification report digest") (validate_report codec revision r)
  digest_bytes codec (codec.marshal_report r)
