-- ===== src/Worker/Runner.antt =====
-- internal/worker/runnable/runner.go: the claim, the execution and the report of one action. The store
-- of the Server, the executor and the clock act on the world `W`; whether the renewal lost the lease,
-- and whether the parent context is over, are read off the world after the execution. A nil pointer
-- panic is `none`. The ticker of the renewal, logging and the deadline's clock are left out; an
-- executor past its deadline answers with its error.
pub mod Delay
pub mod Sent
pub mod Stored
pub mod Accepted
pub mod Branches
pub mod Processed
use breakfix.Prelude.{
  ℕ, ℤ, pos, pos_part, suc, zero, ◌*◌, ◌-◌, ◌^◌, min, Bool, true, false, not, ◌&&◌, ◌||◌, ◌∷◌, [],
  ◌++◌, Option, none, some, ltb, ltb_ℤ, if◌then◌else◌, take,
}
use breakfix.Text.{Text, codes, is_empty}
use breakfix.Text.Trim.{trim_space}
use breakfix.Errors.{
  Error, Result, ok, err, Check, reject, map_err, as_artifact, is_lease_lost, is_deadline, ◌>>=◌,
  ◌>>◌,
}
use breakfix.Errors.Render.{error_text}
use breakfix.Runnable.Kinds.{ActionPhase, FailureClass, is_infrastructure}
use breakfix.Runnable.Model.{
  RunnableSpec, RunnableRevision, VerificationReport, VerificationFailure, EnvironmentIdentity,
  Time, max_summary_length,
}
use breakfix.Runnable.Profile.{is_positive}
use breakfix.Runnable.Spec.{Codec, revision_digest}
use breakfix.Runnable.Outcome.{contract_error, report_digest}
use breakfix.Runnable.Backoff.{second, wrap64}
use breakfix.Runnable.Action.{
  LeaseCredential, MaterializeRequest, VerifyRequest, ActionContext, StoredRevision, StoredReport,
  record_id, validate_context,
}
use breakfix.Worker.Reporting.{no_phase, action_timeout, classify, failure_summary_of, code_or}

-- The operations of `ActionStore` that the runner calls; Renew is part of the world's own course.
pub record ActionStore (W : Type 0) : Type 0 where
  pub claim : (worker : Text) (ttl : ℕ) → W → Result (Option ActionContext) × W
  pub complete_build : LeaseCredential → StoredRevision → W → Check × W
  pub complete_check : LeaseCredential → StoredReport → W → Check × W
  pub request_release : LeaseCredential → EnvironmentIdentity → W → Check × W
  pub report : LeaseCredential → FailureClass → (code summary : Text) → W → Check × W

-- `ActionExecutor`
pub record ActionExecutor (W : Type 0) : Type 0 where
  pub materialize : MaterializeRequest → W → Result RunnableRevision × W
  pub verify : VerifyRequest → W → Result VerificationReport × W

-- `Runner` with its configuration, and what it reads of the world.
pub record Runner (W : Type 0) : Type 0 where
  pub store : ActionStore W
  pub executor : ActionExecutor W
  pub worker_id : Text
  pub lease_ttl : ℕ
  pub now : W → Time
  pub lease_lost : W → Bool
  pub parent_over : W → Bool

module _ (codec : Codec) {W : Type 0} (x : Runner W) where
  -- The case of ActionMaterializeArtifact once the executor has answered.
  unfoldable pub complete_built : ActionContext → Result RunnableRevision × W → Check × W
  complete_built c (err e, w) = (err e, w)
  complete_built c (ok revision, w) = elim (revision_digest codec revision) [
    | err e ↦ (err e, w)
    | ok digest ↦
        x.store.complete_build c.credential
          (record {
            reference = record {
              id = record_id codec (codes "rr") c.credential.identity;
              digest = digest;
            };
            revision = revision;
            created_at = x.now w;
          })
          w
  ]

  -- The report of a failure that the world is to blame for.
  unfoldable pub hand_over :
      ActionContext → VerificationReport → VerificationFailure → W → Check × W
  hand_over c report failure w =
      let (released, w') = x.store.request_release c.credential report.environment w in
      x.store.report c.credential failure.failure_class failure.reason failure.message w'

  unfoldable pub send_report : ActionContext → RunnableRevision → VerificationReport → W → Check × W
  send_report c revision report w = elim (report_digest codec revision report) [
    | err e ↦ (err e, w)
    | ok digest ↦
        x.store.complete_check c.credential
          (record {
            reference = record {
              id = record_id codec (codes "vr") c.credential.identity;
              digest = digest;
            };
            report = report;
            revision = revision;
            created_at = x.now w;
          })
          w
  ]

  unfoldable pub judged_report :
      ActionContext
      → RunnableRevision
      → VerificationReport
      → Option VerificationFailure
      → W
      → Check × W
  unfolding hand_over send_report
  judged_report c revision report none w = send_report c revision report w
  judged_report c revision report (some failure) w =
      if is_infrastructure failure.failure_class
      then hand_over c report failure w
      else send_report c revision report w

  -- The case of ActionVerify once the executor has answered.
  unfoldable pub complete_judged :
      ActionContext → RunnableRevision → Result VerificationReport × W → Check × W
  unfolding judged_report
  complete_judged c revision (err e, w) = (err e, w)
  complete_judged c revision (ok report, w) = judged_report c revision report report.failure w

  unfoldable pub verify_request : ActionContext → RunnableRevision → VerifyRequest
  verify_request c revision = record {
    credential = c.credential;
    revision = revision;
    revision_ref = c.revision_ref;
    digest = c.digest;
    attempt = c.attempt;
  }

  -- `execute` of the runner
  unfoldable pub execute_phase_of : ActionContext → ActionPhase → W → Option (Check × W)
  unfolding complete_built complete_judged verify_request
  execute_phase_of c ActionPhase.materialize_artifact w = elim c.spec [
    | none ↦ none
    | some spec ↦ some (
        complete_built c
          (x.executor.materialize (record { credential = c.credential; spec = spec }) w))
  ]
  execute_phase_of c ActionPhase.verify w = elim c.revision [
    | none ↦ none
    | some revision ↦
        some (complete_judged c revision (x.executor.verify (verify_request c revision) w))
  ]
  execute_phase_of c (ActionPhase.other s) w = some (err no_phase, w)

  -- `reportFailure`
  unfoldable pub report_failure_of : LeaseCredential → Error → W → Check × W
  unfolding classify failure_summary_of code_or
  report_failure_of c e w =
      let (class, code) = classify e in
      x.store.report c class (code_or code) (failure_summary_of e) w

  -- The end of `process`: what the error of the execution leads to.
  unfoldable pub settle : LeaseCredential → Check → W → W
  unfolding report_failure_of
  settle c (ok t) w = w
  settle c (err e) w =
      let (reported, w') = report_failure_of c e w in
      if x.parent_over w || is_lease_lost e then w else w'

  unfoldable pub executed : LeaseCredential → Option (Check × W) → Option W
  unfolding settle
  executed c none = none
  executed c (some (result, w)) = some (if x.lease_lost w then w else settle c result w)

  unfoldable pub process_timed : ActionContext → W → Option (Result ℤ) → Option W
  unfolding execute_phase_of executed settle
  process_timed c w none = none
  process_timed c w (some (err e)) = some (settle c.credential (err e) w)
  process_timed c w (some (ok timeout)) =
      executed c.credential (execute_phase_of c c.credential.identity.phase w)

  -- `process`
  unfoldable pub process : ActionContext → W → Option W
  unfolding process_timed action_timeout
  process c w = process_timed c w (action_timeout c c.credential.identity.phase)

  unfoldable pub process_claimed : Result (Option ActionContext) × W → Option (Result Bool × W)
  unfolding process
  process_claimed (err e, w) = some (err e, w)
  process_claimed (ok none, w) = some (ok false, w)
  process_claimed (ok (some c), w) =
      let processed = process c w in
      elim (validate_context codec c) [
        | err e ↦ some (err (Error.wrapped "server returned invalid runnable action" e), w)
        | ok t ↦ elim processed [ none ↦ none | some w' ↦ some (ok true, w') ]
      ]

  -- `ProcessOne`
  unfoldable pub process_one : W → Option (Result Bool × W)
  unfolding process_claimed
  process_one w = process_claimed (x.store.claim x.worker_id x.lease_ttl w)
