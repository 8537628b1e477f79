-- ===== src/Worker/Reporting.antt =====
-- internal/worker/runnable/runner.go: the deadline of an action, how an error is reported, and the
-- delay of the next claim.
use breakfix.Prelude.{
  ℕ, ℤ, pos, pos_part, ◌*◌, ◌-◌, ◌^◌, min, not, Option, none, some, ltb, ltb_ℤ, if◌then◌else◌, take,
}
use breakfix.Text.{Text, codes, is_empty}
use breakfix.Text.Trim.{trim_space}
use breakfix.Errors.{Error, Result, ok, err, reject, as_artifact, is_deadline, ◌>>◌}
use breakfix.Errors.Render.{error_text}
use breakfix.Runnable.Kinds.{ActionPhase, FailureClass}
use breakfix.Runnable.Model.{max_summary_length}
use breakfix.Runnable.Profile.{is_positive}
use breakfix.Runnable.Outcome.{contract_error}
use breakfix.Runnable.Backoff.{second, wrap64}
use breakfix.Runnable.Action.{ActionContext}

abbrev pub no_phase : Error
no_phase = contract_error "action-phase" "runnable action has an unsupported phase"

-- time.Duration(seconds) * time.Second, for seconds above zero
unfoldable pub timeout_of : (seconds : ℤ) → Result ℤ
unfolding wrap64
timeout_of seconds = do
  reject (not (is_positive seconds))
      (contract_error "action-timeout" "runnable action has no approved deadline")
  ok (wrap64 (pos_part seconds * second))

-- `runnerActionTimeout`
unfoldable pub action_timeout : ActionContext → ActionPhase → Option (Result ℤ)
unfolding timeout_of
action_timeout c ActionPhase.materialize_artifact = elim c.spec [
  | none ↦ none
  | some spec ↦ some (timeout_of spec.lifecycle_policy.create_timeout_seconds)
]
action_timeout c ActionPhase.verify = elim c.revision [
  | none ↦ none
  | some revision ↦ some (timeout_of revision.spec.lifecycle_policy.max_lifetime)
]
action_timeout c (ActionPhase.other s) = some (err no_phase)

-- The class and the code of `reportFailure`.
unfoldable pub classify : Error → FailureClass × Text
classify e = elim (as_artifact e) [
  | some artifact ↦ (FailureClass.artifact, artifact.0)
  | none ↦
      if is_deadline e
      then (FailureClass.artifact, codes "execution-deadline-exceeded")
      else (FailureClass.infrastructure, codes "runnable-action-failed")
]

-- The summary of `reportFailure`.
unfoldable pub failure_summary_of : Error → Text
failure_summary_of e =
    let s = trim_space (error_text e) in
    if is_empty s then codes "runnable action failed" else take max_summary_length s

-- The code of `reportFailure`; an empty one is replaced.
unfoldable pub code_or : Text → Text
code_or code = if is_empty code then codes "runnable-action-failed" else code

-- `runnerMin`, and the int64 product of `runnerRetryDelay`, which does not wrap
unfoldable pub runner_retry_delay : (attempt : ℤ) → ℕ
runner_retry_delay attempt =
    let n = if ltb_ℤ attempt (pos 1) then 1 else pos_part attempt in
    let delay = second * 2 ^ min (n - 1) 6 in if ltb (60 * second) delay then 60 * second else delay
