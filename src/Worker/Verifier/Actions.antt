-- ===== src/Worker/Verifier/Actions.antt =====
-- internal/worker/runnable/verifier.go: `executeAction` and `executeAssertion`.
use breakfix.Prelude.{pos, true, false, not, Option, none, some, if◌then◌else◌}
use breakfix.Text.{codes}
use breakfix.Errors.{Result, ok, err}
use breakfix.Errors.Render.{error_text}
use breakfix.Runnable.Kinds.{is_read_write, is_read_only}
use breakfix.Runnable.Model.{
  ExecutionBoundary, RuntimeProfile, ActionSpec, AssertionSpec, ActionResult, AssertionResult,
  EnvironmentIdentity,
}
use breakfix.Runnable.Profile.{find_boundary}
use breakfix.Runnable.Plan.{boundary_fits, eq_ℤ}
use breakfix.Runnable.Output.{parse_assertion_output}
use breakfix.Runnable.Action.{LeaseCredential}
use breakfix.Worker.Verifier.{
  ExecutionOutput, Executor, Run, done, failed, bounded_summary, artifact_failure_of,
  execution_failure, validate_output_references, seconds_of, execute,
}

module _ {W : Type 0} (x : Executor W) where
  -- The result of an action from the output of its run.
  unfoldable pub action_outcome : ActionSpec → Result ExecutionOutput → Run ActionResult
  action_outcome action (err e) = failed (execution_failure (codes "action-execution") e)
  action_outcome action (ok output) = elim (validate_output_references output.outputs) [
    | err e ↦ failed (artifact_failure_of (codes "action-output") (error_text e))
    | ok t ↦ done (record {
      id = action.id;
      exit_code = output.exit_code;
      summary = bounded_summary output.output_summary "action completed";
      outputs = output.outputs;
    })
  ]

  -- `executeAction` on the boundary that was looked up.
  unfoldable pub action_in :
      LeaseCredential
      → EnvironmentIdentity
      → ActionSpec
      → Option ExecutionBoundary
      → W
      → Run ActionResult × W
  action_in c environment action none w = (
    failed (
        artifact_failure_of (codes "action-boundary")
          (codes "action does not have an approved write boundary")),
    w,
  )
  action_in c environment action (some b) w =
      if boundary_fits is_read_write action.target b
      then (let (output, w') =
            execute x c environment
              (record {
                entrypoint = action.entrypoint;
                target = action.target;
                boundary = b;
                timeout = seconds_of action.timeout_seconds;
                read_only = false;
              })
              w in
          (action_outcome action output, w'))
      else (
        failed (
            artifact_failure_of (codes "action-boundary")
              (codes "action does not have an approved write boundary")),
        w,
      )

  -- `executeAction`
  unfoldable pub execute_action :
      LeaseCredential → EnvironmentIdentity → RuntimeProfile → ActionSpec → W → Run ActionResult × W
  execute_action c environment profile action w =
      action_in c environment action (find_boundary profile.execution_boundaries action.boundary_id)
        w

  -- The result of an assertion from the output of its run.
  unfoldable pub assertion_outcome : AssertionSpec → Result ExecutionOutput → Run AssertionResult
  assertion_outcome a (err e) = failed (execution_failure (codes "assertion-execution") e)
  assertion_outcome a (ok output) =
      if not (eq_ℤ output.exit_code (pos 0))
      then failed (
          artifact_failure_of (codes "assertion-exit")
            (codes "assertion command exited unsuccessfully"))
      else elim (validate_output_references output.outputs) [
        | err e ↦ failed (artifact_failure_of (codes "assertion-output") (error_text e))
        | ok t ↦ elim (parse_assertion_output x.decode output.raw a.id output.outputs) [
          | err e ↦ failed (artifact_failure_of (codes "assertion-protocol") (error_text e))
          | ok r ↦ done r
        ]
      ]

  -- `executeAssertion` on the boundary that was looked up.
  unfoldable pub assertion_in :
      LeaseCredential
      → EnvironmentIdentity
      → AssertionSpec
      → Option ExecutionBoundary
      → W
      → Run AssertionResult × W
  assertion_in c environment a none w = (
    failed (
        artifact_failure_of (codes "assertion-boundary")
          (codes "assertion does not have an approved read-only boundary")),
    w,
  )
  assertion_in c environment a (some b) w =
      if boundary_fits is_read_only a.target b
      then (let (output, w') =
            execute x c environment
              (record {
                entrypoint = a.entrypoint;
                target = a.target;
                boundary = b;
                timeout = seconds_of a.timeout_seconds;
                read_only = true;
              })
              w in
          (assertion_outcome a output, w'))
      else (
        failed (
            artifact_failure_of (codes "assertion-boundary")
              (codes "assertion does not have an approved read-only boundary")),
        w,
      )

  -- `executeAssertion`
  unfoldable pub execute_assertion :
      LeaseCredential
      → EnvironmentIdentity
      → RuntimeProfile
      → AssertionSpec
      → W
      → Run AssertionResult × W
  execute_assertion c environment profile a w =
      assertion_in c environment a (find_boundary profile.execution_boundaries a.boundary_id) w
