-- ===== src/Worker/Verifier/Phases.antt =====
-- internal/worker/runnable/verifier.go: `executePhase`, the loop over the phases, and `Verify`.
use breakfix.Prelude.{Bool, false, not, List, [], ◌∷◌, Option, none, some, if◌then◌else◌}
use breakfix.Text.{codes, text_eq}
use breakfix.Errors.{Error, Result, ok, err, Check, reject, map_err, ◌>>=◌, ◌>>◌}
use breakfix.Runnable.Model.{
  RuntimeProfile, ActionSpec, AssertionSpec, ValidationPhase, ActionResult, AssertionResult,
  PhaseResult, EnvironmentIdentity, VerificationFailure, VerificationReport, RunnableRevision,
  format_version,
}
use breakfix.Runnable.Spec.{Codec, profile_digest}
use breakfix.Runnable.Outcome.{validate_environment, has_code, expected_phases, compute_spec_passed}
use breakfix.Runnable.Action.{LeaseCredential, VerifyRequest, validate_verify}
use breakfix.Worker.Verifier.{Executor, done, failed, artifact_failure_of}
use breakfix.Worker.Verifier.Actions.{execute_action, execute_assertion}

-- The results so far, and the failure that ended them, if one did.
abbrev pub Partial : Type 0 → Type 0
Partial A = List A × Option VerificationFailure

module _ {W : Type 0} (x : Executor W) (c : LeaseCredential) (environment : EnvironmentIdentity)
    (profile : RuntimeProfile) where
  -- The loop over the actions of a phase.
  unfoldable pub run_actions : List ActionSpec → W → Partial ActionResult × W
  run_actions [] w = (([], none), w)
  run_actions (a ∷ rest) w =
      let (answer, w') = execute_action x c environment profile a w in
      let ((results, failure), w'') = run_actions rest w' in
      elim answer [
        | failed f ↦ (([], some f), w')
        | done r ↦
            if has_code a.expected_exit_codes r.exit_code then ((r ∷ results, failure), w'') else (
              (
                r ∷ [],
                some (
                    artifact_failure_of (codes "action-exit")
                      (codes "action exit result does not satisfy its contract")),
              ),
              w',
            )
      ]

  -- The loop over the assertions of a phase.
  unfoldable pub run_assertions : List AssertionSpec → W → Partial AssertionResult × W
  run_assertions [] w = (([], none), w)
  run_assertions (a ∷ rest) w =
      let (answer, w') = execute_assertion x c environment profile a w in
      let ((results, failure), w'') = run_assertions rest w' in
      elim answer [ failed f ↦ (([], some f), w') | done r ↦ ((r ∷ results, failure), w'') ]

  -- `executePhase`
  unfoldable pub execute_phase :
      ValidationPhase → W → (PhaseResult × Option VerificationFailure) × W
  unfolding run_actions run_assertions
  execute_phase phase w =
      let ((actions, failure), w') = run_actions phase.actions w in
      let ((assertions, failure'), w'') = run_assertions phase.assertions w' in
      elim failure [
        | some f ↦ ((record { id = phase.id; actions = actions; assertions = [] }, some f), w')
        | none ↦
            ((record { id = phase.id; actions = actions; assertions = assertions }, failure'), w'')
      ]

  -- The phases in order, until one fails.
  unfoldable pub run_phases : List ValidationPhase → W → Partial PhaseResult × W
  run_phases [] w = (([], none), w)
  run_phases (phase ∷ rest) w =
      let ((result, failure), w') = execute_phase phase w in
      let ((results, failure'), w'') = run_phases rest w' in
      elim failure [
        | some f ↦ ((result ∷ [], some f), w')
        | none ↦ ((result ∷ results, failure'), w'')
      ]

module _ (codec : Codec) {W : Type 0} (x : Executor W) where
  -- The tests on the environment that the provider made.
  unfoldable pub check_environment : RunnableRevision → EnvironmentIdentity → Check
  check_environment revision environment = do
    profile ← profile_digest codec revision.spec.runtime_profile
    map_err (Error.wrapped "provider returned invalid environment")
        (validate_environment environment)
    reject (not (text_eq environment.profile_digest profile))
        (Error.plain "provider returned an environment for another runtime profile")

  -- The report of the attempt, without and with a failure.
  unfoldable pub report_of :
      VerifyRequest
      → EnvironmentIdentity
      → List PhaseResult
      → (passed : Bool) → Option VerificationFailure
      → VerificationReport
  report_of request environment phases passed failure = record {
    format = codes format_version;
    revision_digest = request.digest;
    environment = environment;
    attempt = request.attempt;
    phases = phases;
    passed = passed;
    failure = failure;
    created_at = x.now;
  }

  -- What `Verify` returns after the phases have run.
  unfoldable pub conclude :
      VerifyRequest → EnvironmentIdentity → Partial PhaseResult → Result VerificationReport
  conclude request environment (phases, some f) =
      ok (report_of request environment phases false (some f))
  conclude request environment (phases, none) = do
    passed ←
        map_err (Error.wrapped "compute verification result")
          (compute_spec_passed request.revision.spec phases)
    ok (report_of request environment phases passed none)

  -- `Verify` from the environment on.
  unfoldable pub verify_in :
      VerifyRequest → Result EnvironmentIdentity → W → Result VerificationReport × W
  verify_in request (err e) w = (err (Error.wrapped "create verification environment" e), w)
  verify_in request (ok environment) w =
      let (phases, w') =
        run_phases x request.credential environment request.revision.spec.runtime_profile
          (expected_phases request.revision.spec) w in
      elim (check_environment request.revision environment) [
        | err e ↦ (err e, w)
        | ok t ↦ (conclude request environment phases, w')
      ]

  -- `Verify`
  unfoldable pub verify : VerifyRequest → W → Result VerificationReport × W
  unfolding verify_in
  verify request w =
      let (created, w') = x.create request w in
      elim (validate_verify codec request) [
        | err e ↦ (err e, w)
        | ok t ↦ verify_in request created w'
      ]
