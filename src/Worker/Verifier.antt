-- ===== src/Worker/Verifier.antt =====
-- internal/worker/runnable/verifier.go: the executor runs the initialization and each phase of a
-- revision in an environment, and makes the report. The provider and the store of the outputs are
-- parameters; a call of theirs takes and gives back the state `W` of the world, so that an answer may
-- depend on all the calls before it. Context deadlines are left out.

pub mod Actions
pub mod Approved
pub mod Phases
pub mod Reports
use breakfix.Prelude.{
  ℕ, ℤ, pos, negsuc, suc, pos_part, ◌*◌, ◌-◌, ◌^◌, Bool, true, false, not, ◌&&◌, ◌||◌, List, [],
  ◌∷◌, ◌++◌, Option, none, some, ltb, ltb_ℤ, length, ◌==◌, if◌then◌else◌, String, take,
}
use breakfix.Text.{Text, codes, text_eq, is_empty}
use breakfix.Text.Trim.{trim_space}
use breakfix.Errors.{
  Field, Error, Result, ok, err, Check, reject, map_err, as_artifact, ◌>>=◌, ◌>>◌,
}
use breakfix.Errors.Render.{error_text}
use breakfix.Runnable.Kinds.{Permission, FailureClass, is_read_write, is_read_only}
use breakfix.Runnable.Model.{
  TargetLocation, ExecutionBoundary, RuntimeProfile, ActionSpec, AssertionSpec, ValidationPhase,
  ImmutableReference, ActionResult, AssertionResult, PhaseResult, EnvironmentIdentity,
  VerificationFailure, VerificationReport, Time, max_summary_length, max_output_reference_count,
  format_version,
}
use breakfix.Runnable.Profile.{find_boundary, is_positive}
use breakfix.Runnable.Plan.{boundary_fits, eq_ℤ}
use breakfix.Runnable.Backoff.{second, wrap64}
use breakfix.Runnable.Spec.{Codec, profile_digest}
use breakfix.Runnable.Outcome.{
  validate_reference, validate_references, validate_environment, has_code, artifact_error,
  initialization_phase, compute_spec_passed, bool_eq,
}
use breakfix.Runnable.Output.{
  OutputCapture, validate_capture, AssertionDocument, parse_assertion_output,
}
use breakfix.Runnable.Action.{LeaseCredential, VerifyRequest, validate_verify}

pub record ExecutionRequest : Type 0 where
  pub entrypoint : Text
  pub target : TargetLocation
  pub boundary : ExecutionBoundary
  pub timeout : ℤ
  pub read_only : Bool

-- time.Duration(seconds) * time.Second, for an int64
unfoldable pub seconds_of : ℤ → ℤ
unfolding wrap64
seconds_of (pos n) = wrap64 (n * second)
seconds_of (negsuc n) = wrap64 ((2 ^ 64 - suc n) * second)

pub record ExecutionOutput : Type 0 where
  pub exit_code : ℤ
  pub output_summary : Text
  pub raw : Text
  pub stderr : Text
  pub outputs : List ImmutableReference

-- The parameters: the provider, the store of outputs (nil without one), the strict JSON decoding of
-- the output of an assertion, and the clock.
pub record Executor (W : Type 0) : Type 0 where
  pub create : VerifyRequest → W → Result EnvironmentIdentity × W
  pub run : EnvironmentIdentity → ExecutionRequest → W → Result ExecutionOutput × W
  pub store : Option (LeaseCredential → OutputCapture → W → Result ImmutableReference × W)
  pub decode : Text → Result (List AssertionDocument)
  pub now : Time

-- What a run of the provider or of a phase leaves: a failure or the result, and the world.
pub data Run (A : Type 0) : Type 0 where
  done : A → Run A
  failed : VerificationFailure → Run A

-- `summary`
unfoldable pub bounded_summary : (value : Text) (fallback : String) → Text
bounded_summary value fallback =
    let v = trim_space value in if is_empty v then codes fallback else take max_summary_length v

-- `artifactFailure`
unfoldable pub artifact_failure_of : (reason message : Text) → VerificationFailure
artifact_failure_of reason message = record {
  failure_class = FailureClass.artifact;
  component = codes "verifier";
  reason = reason;
  message = message;
}

-- `infrastructureFailure`
unfoldable pub infrastructure_failure_of : (reason : Text) → Error → VerificationFailure
unfolding bounded_summary
infrastructure_failure_of reason e = record {
  failure_class = FailureClass.infrastructure;
  component = codes "provider";
  reason = reason;
  message = bounded_summary (error_text e) "provider execution failed";
}

-- `executionFailure`
unfoldable pub execution_failure : (reason : Text) → Error → VerificationFailure
unfolding bounded_summary artifact_failure_of infrastructure_failure_of
execution_failure reason e = elim (as_artifact e) [
  | none ↦ infrastructure_failure_of reason e
  | some artifact ↦ artifact_failure_of artifact.0 (
      bounded_summary (error_text (Error.artifact_failure artifact.0 artifact.1))
        "execution output violates its contract")
]

-- `validateOutputReferences`
unfoldable pub validate_output_references : List ImmutableReference → Check
validate_output_references outputs = do
  reject (length outputs == 0) (Error.plain "execution did not retain immutable output references")
  reject (ltb max_output_reference_count (length outputs))
      (Error.plain "execution returned too many output references")
  validate_references (Field.name "execution.outputs") outputs

module _ {W : Type 0} (x : Executor W) where
  -- The test of `execute` on its request; the limit of the boundary is an int64 of nanoseconds.
  unfoldable pub within_boundary : ExecutionRequest → Bool
  unfolding seconds_of
  within_boundary q =
      is_positive q.timeout
      && (not (ltb_ℤ (seconds_of q.boundary.max_timeout) q.timeout)
          && bool_eq q.read_only (is_read_only q.boundary.permission))

  -- `execute` once the provider has answered.
  unfoldable pub retain : LeaseCredential → Result ExecutionOutput × W → Result ExecutionOutput × W
  retain c (err e, w) = (err e, w)
  retain c (ok output, w) = elim x.store [
    | none ↦ (ok output, w)
    | some store ↦
        let capture : OutputCapture = record { stdout = output.raw; stderr = output.stderr } in
        let (stored, w') = store c capture w in
        elim (validate_capture capture) [
          | err e ↦ (err (artifact_error "execution-output-size" (error_text e)), w)
          | ok t ↦ elim stored [
            | err e ↦ (err (Error.wrapped "persist execution output" e), w')
            | ok ref ↦ (ok (record output { outputs = ref ∷ [] }), w')
          ]
        ]
  ]

  -- `execute`
  unfoldable pub execute :
      LeaseCredential → EnvironmentIdentity → ExecutionRequest → W → Result ExecutionOutput × W
  unfolding within_boundary retain
  execute c environment q w =
      if within_boundary q
      then retain c (x.run environment q w)
      else (err (Error.plain "execution request exceeds its approved boundary"), w)
