-- ===== src/Examples/Verification.antt =====
-- A verification that runs to its end.
use breakfix.Prelude.{◌≡◌, refl, ◌∷◌, [], none, some, true, false, pos, pos_part, ◌*◌, arith}
use breakfix.Text.{Text, codes}
use breakfix.Errors.{ok}
use breakfix.Runnable.Kinds.{ActionPhase}
use breakfix.Runnable.Model.{ImmutableReference, VerificationReport, ActionResult}
use breakfix.Runnable.Outcome.{validate_report}
use breakfix.Runnable.Action.{VerifyRequest}
use breakfix.Worker.Verifier.{Executor, ExecutionOutput}
use breakfix.Worker.Verifier.Phases.{verify}
use breakfix.Worker.Verifier.Reports.{complete_report_valid}
use breakfix.Examples.Data.{revision, report, codec, digest, identity}
use breakfix.Runnable.Spec.Isolation.{validate_spec-Isolated}
use breakfix.Runnable.Model.{ActionSpec}
use breakfix.Runnable.Profile.Approved.{IsProfile}
use breakfix.Runnable.Backoff.{second}
use breakfix.Runnable.Plan.Actions.{SafeAction, SafeAssertion}
use breakfix.Worker.Verifier.{ExecutionRequest, retain}
use breakfix.Worker.Verifier.Actions.{
  action_outcome, execute_action, assertion_outcome, execute_assertion,
}
use breakfix.Worker.Verifier.Approved.{safe_action_runs, safe_assertion_runs}
use breakfix.Examples.Data.{spec, profile, action, assertion}
use breakfix.Examples.Contract.{spec_valid}

abbrev request : VerifyRequest
request = record {
  credential = record {
    identity = record {
      content = identity;
      spec_digest = digest;
      phase = ActionPhase.verify;
      state_version = pos 1;
    };
    lease_owner = codes "w";
  };
  revision = revision;
  revision_ref = record { id = codes "rev-1"; digest = digest };
  digest = digest;
  attempt = pos 1;
}

abbrev stored : ImmutableReference
stored = record { reference = codes "o"; digest = digest; size_bytes = pos 1 }

abbrev printed : ExecutionOutput
printed = record {
  exit_code = pos 0;
  output_summary = codes "ran";
  raw = codes "doc";
  stderr = [];
  outputs = stored ∷ [];
}

abbrev executor : Executor (Unit {0})
executor = record {
  create = λ r w. (ok report.environment, w);
  run = λ e q w. (ok printed, w);
  store = none;
  decode = λ raw. ok (
      record { id = codes "up"; satisfied = some true; summary = codes "fine"; details = [] } ∷ []);
  now = 1;
}

abbrev ran : Text → ActionResult
ran id = record { id = id; exit_code = pos 0; summary = codes "ran"; outputs = stored ∷ [] }

abbrev complete_report : VerificationReport
complete_report = record report {
  phases =
      record { id = codes "initialization"; actions = ran (codes "setup") ∷ []; assertions = [] }
      ∷ record {
        id = codes "fix";
        actions = ran (codes "mend") ∷ [];
        assertions =
            record {
              id = codes "up";
              satisfied = true;
              summary = codes "fine";
              details = [];
              outputs = stored ∷ [];
            }
            ∷ [];
      }
      ∷ [];
}

verified : verify codec executor request tt ≡ (ok complete_report, tt)
unfolding breakfix.Text.text_eq breakfix.Text.has_prefix breakfix.Text.contains breakfix.Text.all
    breakfix.Text.member breakfix.Text.Trim.is_ascii_space breakfix.Text.Trim.is_space_pair
    breakfix.Text.Trim.is_space_triple breakfix.Text.Trim.space_width breakfix.Text.Trim.first_width
    breakfix.Text.Trim.last_width breakfix.Text.Trim.drop_space breakfix.Text.Trim.trim_space
    breakfix.Text.Path.split breakfix.Text.Path.join breakfix.Text.Path.back
    breakfix.Text.Path.clean_step breakfix.Text.Path.clean_loop breakfix.Text.Path.clean
    breakfix.Runnable.Ident.is_hex breakfix.Runnable.Ident.valid_digest
    breakfix.Runnable.Ident.is_lower breakfix.Runnable.Ident.is_id_byte
    breakfix.Runnable.Ident.stable_id breakfix.Runnable.Ident.id_ok
    breakfix.Runnable.Ident.validate_id breakfix.Runnable.Ident.required_string
    breakfix.Runnable.Ident.validate_format breakfix.Runnable.Kinds.runtime_valid
    breakfix.Runnable.Kinds.permission_valid breakfix.Runnable.Kinds.network_valid
    breakfix.Runnable.Kinds.execution_valid breakfix.Runnable.Kinds.class_valid
    breakfix.Runnable.Kinds.phase_valid breakfix.Runnable.Kinds.purpose_valid
    breakfix.Runnable.Kinds.runtime_eq breakfix.Runnable.Kinds.is_read_write
    breakfix.Runnable.Kinds.is_read_only breakfix.Runnable.Kinds.is_artifact
    breakfix.Runnable.Kinds.is_infrastructure breakfix.Runnable.Kinds.is_materialize
    breakfix.Runnable.Kinds.is_verify breakfix.Runnable.Kinds.runtime_text
    breakfix.Runnable.Kinds.permission_text breakfix.Runnable.Kinds.network_text
    breakfix.Runnable.Kinds.execution_text breakfix.Runnable.Kinds.class_text
    breakfix.Runnable.Kinds.phase_text breakfix.Runnable.Profile.validate_identity
    breakfix.Runnable.Profile.identity_eq breakfix.Runnable.Profile.validate_resources
    breakfix.Runnable.Profile.validate_target breakfix.Runnable.Profile.target_eq
    breakfix.Runnable.Profile.validate_boundary breakfix.Runnable.Profile.validate_versions
    breakfix.Runnable.Profile.validate_boundaries breakfix.Runnable.Profile.validate_profile
    breakfix.Runnable.Profile.validate_source breakfix.Runnable.Profile.find_boundary
    breakfix.Runnable.Plan.entrypoint_ok breakfix.Runnable.Plan.validate_entrypoint
    breakfix.Runnable.Plan.boundary_fits breakfix.Runnable.Plan.select_boundary
    breakfix.Runnable.Plan.timeout_ok breakfix.Runnable.Plan.is_sorted
    breakfix.Runnable.Plan.exit_codes_ok breakfix.Runnable.Plan.validate_action
    breakfix.Runnable.Plan.validate_assertion breakfix.Runnable.Plan.validate_phase_shape
    breakfix.Runnable.Plan.validate_phase breakfix.Runnable.Plan.validate_phases
    breakfix.Runnable.Plan.validate_plan breakfix.Runnable.Plan.validate_timeouts
    breakfix.Runnable.Plan.validate_lifecycle breakfix.Runnable.Unique.each_unique
    breakfix.Runnable.Spec.validate_initialization breakfix.Runnable.Spec.reject_reused
    breakfix.Runnable.Spec.reject_reserved breakfix.Runnable.Spec.validate_spec
    breakfix.Runnable.Spec.validate_artifact breakfix.Runnable.Spec.validate_blank
    breakfix.Runnable.Spec.digest_bytes breakfix.Runnable.Spec.spec_digest
    breakfix.Runnable.Spec.profile_digest breakfix.Runnable.Spec.validate_revision
    breakfix.Runnable.Spec.revision_digest breakfix.Runnable.Spec.blank_digest
    breakfix.Errors.as_artifact breakfix.Errors.is_resource_absent
    breakfix.Runnable.Outcome.validate_reference breakfix.Runnable.Outcome.validate_references
    breakfix.Runnable.Outcome.validate_environment breakfix.Runnable.Outcome.validate_failure
    breakfix.Runnable.Outcome.validate_action_result
    breakfix.Runnable.Outcome.validate_assertion_result breakfix.Runnable.Outcome.artifact_error
    breakfix.Runnable.Outcome.contract_error breakfix.Runnable.Outcome.has_code
    breakfix.Runnable.Outcome.check_action breakfix.Runnable.Outcome.check_assertion
    breakfix.Runnable.Outcome.check_actions breakfix.Runnable.Outcome.check_assertions
    breakfix.Runnable.Outcome.check_phase breakfix.Runnable.Outcome.check_phases
    breakfix.Runnable.Outcome.compute_passed breakfix.Runnable.Outcome.compute_plan_passed
    breakfix.Runnable.Outcome.initialization_phase breakfix.Runnable.Outcome.expected_phases
    breakfix.Runnable.Outcome.compute_spec_passed breakfix.Runnable.Outcome.check_verdict
    breakfix.Runnable.Outcome.validate_report breakfix.Runnable.Outcome.report_digest
    breakfix.Runnable.Output.validate_capture breakfix.Runnable.Output.capture_reference
    breakfix.Runnable.Output.read_entry breakfix.Runnable.Output.read_document
    breakfix.Runnable.Output.parse_assertion_output
    breakfix.Runnable.Action.validate_action_identity breakfix.Runnable.Action.int_text
    breakfix.Runnable.Action.action_key breakfix.Runnable.Action.validate_credential
    breakfix.Runnable.Action.validate_revision_reference
    breakfix.Runnable.Action.validate_report_reference breakfix.Runnable.Action.record_id
    breakfix.Runnable.Action.environment_name breakfix.Runnable.Action.validate_materialize
    breakfix.Runnable.Action.validate_verify breakfix.Runnable.Action.validate_stored_revision
    breakfix.Runnable.Action.validate_stored_report breakfix.Runnable.Action.materialize_input
    breakfix.Runnable.Action.verify_input breakfix.Runnable.Action.validate_input
    breakfix.Runnable.Action.validate_context breakfix.Worker.Verifier.bounded_summary
    breakfix.Worker.Verifier.artifact_failure_of breakfix.Worker.Verifier.infrastructure_failure_of
    breakfix.Worker.Verifier.execution_failure breakfix.Worker.Verifier.validate_output_references
    breakfix.Worker.Verifier.within_boundary breakfix.Worker.Verifier.retain
    breakfix.Worker.Verifier.execute breakfix.Worker.Verifier.Actions.action_outcome
    breakfix.Worker.Verifier.Actions.action_in breakfix.Worker.Verifier.Actions.execute_action
    breakfix.Worker.Verifier.Actions.assertion_outcome breakfix.Worker.Verifier.Actions.assertion_in
    breakfix.Worker.Verifier.Actions.execute_assertion breakfix.Worker.Verifier.Phases.run_actions
    breakfix.Worker.Verifier.Phases.run_assertions breakfix.Worker.Verifier.Phases.execute_phase
    breakfix.Worker.Verifier.Phases.run_phases breakfix.Worker.Verifier.Phases.check_environment
    breakfix.Worker.Verifier.Phases.report_of breakfix.Worker.Verifier.Phases.conclude
    breakfix.Worker.Verifier.Phases.verify_in breakfix.Worker.Verifier.Phases.verify
verified = refl

complete_report_valid_example : validate_report codec revision complete_report ≡ ok tt
complete_report_valid_example =
    complete_report_valid codec executor request tt tt complete_report (omega arith) verified refl

abbrev setup : ActionSpec
setup = action (codes "setup")

profile-IsProfile : IsProfile profile
profile-IsProfile = (validate_spec-Isolated spec spec_valid).profile

setup-SafeAction : SafeAction profile setup
setup-SafeAction = (validate_spec-Isolated spec spec_valid).initialization.0

up-SafeAssertion : SafeAssertion profile assertion
up-SafeAssertion = (validate_spec-Isolated spec spec_valid).plan.safe.0.assertions.0

safe_action_runs_example :
    let (output, w') = retain executor request.credential (
      executor.run report.environment
        (record {
          entrypoint = setup.entrypoint;
          target = setup.target;
          boundary = setup-SafeAction.permits.boundary;
          timeout = pos (pos_part setup.timeout_seconds * second);
          read_only = false;
        })
        tt) in
    execute_action executor request.credential report.environment profile setup tt
    ≡ (action_outcome executor setup output, w')
safe_action_runs_example =
    safe_action_runs executor request.credential report.environment profile setup tt
      profile-IsProfile setup-SafeAction

safe_assertion_runs_example :
    let (output, w') = retain executor request.credential (
      executor.run report.environment
        (record {
          entrypoint = assertion.entrypoint;
          target = assertion.target;
          boundary = up-SafeAssertion.permits.boundary;
          timeout = pos (pos_part assertion.timeout_seconds * second);
          read_only = true;
        })
        tt) in
    execute_assertion executor request.credential report.environment profile assertion tt
    ≡ (assertion_outcome executor assertion output, w')
safe_assertion_runs_example =
    safe_assertion_runs executor request.credential report.environment profile assertion tt
      profile-IsProfile up-SafeAssertion
