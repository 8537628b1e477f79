-- ===== src/Repository/Retries.antt =====
-- internal/adapter/postgres/runnable_repository.go: what the report of a failure decides.
use breakfix.Prelude.{
  ℕ, pos, ◌+◌, ◌-◌, ◌*◌, ◌^◌, ◌<◌, ◌≤◌, min, true, false, not, ◌||◌, none, some, ◌≡◌, refl, arith,
  ◌==◌, ltb, leb,
}
use breakfix.Text.{Text, codes}
use breakfix.Text.Trim.{trim_space}
use breakfix.Text.Dict.{lookup, lookup-insert_self}
use breakfix.Errors.{Error, ok, reject, is_ok}
use breakfix.Runnable.Kinds.{FailureClass, class_valid, is_infrastructure}
use breakfix.Runnable.Model.{Time}
use breakfix.Runnable.Backoff.{retry_backoff, retry_backoff_cap}
use breakfix.Runnable.Backoff.Curve.{retry_backoff_curve}
use breakfix.Runnable.Reap.{is_blank}
use breakfix.Runnable.Action.{LeaseCredential, action_key, validate_credential}
use breakfix.Repository.{ActionState, ActionRow, Tables, Backend, held_row, row_queued, row_running}
use breakfix.Repository.Actions.{
  max_attempts, retry_base, is_due, failed_row, write_row, report_action_failure,
}

-- The delay before the attempt after a failed one.
abbrev pub delay : (attempt : ℕ) → ℕ
delay attempt = min (retry_base * 2 ^ (attempt - 1)) retry_backoff_cap

-- The decision on the row, by the class of the failure.
abbrev pub Decided : FailureClass → (code : Text) → Time → (before after : ActionRow) → Type 0
Decided FailureClass.artifact code now r r' =
    (r'.state ≡ ActionState.failed) × (r'.failure_code ≡ trim_space code)
Decided FailureClass.infrastructure code now r r' =
    (r.attempt < max_attempts
      → (r'.state ≡ ActionState.queued)
        × ((later : Time) → is_due later r' ≡ leb (now + delay r.attempt) later))
    × (max_attempts ≤ r.attempt
        → (r'.state ≡ ActionState.failed) × (r'.failure_code ≡ codes "attempts-exhausted"))
Decided (FailureClass.other s) code now r r' = ⊥

backoff_delay : (n : ℕ) → retry_backoff (pos retry_base) (pos n) ≡ pos (delay n)
backoff_delay n = retry_backoff_curve retry_base (pos n) (omega arith) (omega arith)

again : (n : ℕ) → n < max_attempts → (ltb n max_attempts ≡ true) × (leb max_attempts n ≡ false)
again n h = (ground arith, ground arith)

over : (n : ℕ) → max_attempts ≤ n → (ltb n max_attempts ≡ false) × (leb max_attempts n ≡ true)
over n h = (ground arith, ground arith)

failed_row-Decided :
    (class : FailureClass) (code summary : Text) (now : Time) (r : ActionRow)
    → class_valid class ≡ true
    → Decided class code now r (failed_row class code summary now r)
unfolding failed_row class_valid is_infrastructure is_due row_queued row_running
failed_row-Decided FailureClass.artifact code summary now r v = (refl, refl)
failed_row-Decided FailureClass.infrastructure code summary now r v = (
  λ h.
      let (below, _) = again r.attempt h in
      (rw below refl, λ later. rw (below, backoff_delay r.attempt) (ground arith)),
  λ h. let (below, above) = over r.attempt h in (rw below refl, rw above refl),
)
failed_row-Decided (FailureClass.other s) code summary now r v = absurd (ground arith)

accepted :
    (b : Backend) (c : LeaseCredential) (class : FailureClass) (code summary : Text) (now : Time)
    → is_ok (validate_credential c) ≡ true
    → class_valid class ≡ true
    → is_blank code ≡ false
    → is_blank summary ≡ false
    → 0 < now
    → reject
        (not (is_ok (validate_credential c))
          || (not (class_valid class) || (is_blank code || (is_blank summary || now == 0))))
        (Error.plain "runnable action failure is invalid")
      ≡ ok tt
accepted b c class code summary now valid v coded said timed =
    rw (valid, v, coded, said) (ground arith)

-- A report by a holder of the lease, of a valid class, with a code and a summary that are not blank
-- and a clock that is set, succeeds. It ends the lease. A failure of the artifact is final and keeps
-- the code; one of the world is final with the code attempts-exhausted from the eighth attempt on, and
-- before it the action is due again exactly from five seconds on, doubled for each attempt after the
-- first, up to five minutes.
pub report_decides :
    (b : Backend) (c : LeaseCredential) (class : FailureClass) (code summary : Text) (now : Time)
    (t : Tables) (r : ActionRow)
    → is_ok (validate_credential c) ≡ true
    → class_valid class ≡ true
    → is_blank code ≡ false
    → is_blank summary ≡ false
    → 0 < now
    → held_row c now t ≡ some r
    → (t' : Tables) × (after : ActionRow) × (report_action_failure b c class code summary now t
        ≡ ok t')
      × (lookup (action_key c.identity) t'.actions ≡ some after)
      × (after.lease_expires ≡ none)
      × (after.failure_class ≡ some class)
      × Decided class code now r after
unfolding report_action_failure
report_decides b c class code summary now t r valid v coded said timed held =
    let after : ActionRow = failed_row class code summary now r in
    (
      write_row (action_key c.identity) after t,
      after,
      ground (arith, accepted b c class code summary now valid v coded said timed),
      lookup_written (action_key c.identity) after t,
      unfold failed_row in refl,
      unfold failed_row in refl,
      failed_row-Decided class code summary now r v,
    )
  where
    lookup_written :
        (key : Text) (r : ActionRow) (t : Tables) → lookup key (write_row key r t).actions ≡ some r
    lookup_written key r t = unfold write_row in lookup-insert_self key r t.actions
