-- ===== src/Repository/Completions.antt =====
-- internal/adapter/postgres/runnable_repository.go: the completion of an action under its lease.
use breakfix.Prelude.{pos, not, ◌||◌, List, [], ◌∷◌, Option, none, some, ◌==◌}
use breakfix.Text.{Text, text_eq}
use breakfix.Errors.{Error, Result, ok, err, reject, map_err, is_ok, ◌>>=◌, ◌>>◌}
use breakfix.Runnable.Kinds.{is_materialize, is_verify}
use breakfix.Runnable.Model.{Time}
use breakfix.Runnable.Profile.{identity_eq}
use breakfix.Runnable.Plan.{eq_ℤ}
use breakfix.Runnable.Spec.{spec_digest, revision_digest}
use breakfix.Runnable.Action.{
  LeaseCredential, StoredRevision, StoredReport, action_key, validate_credential,
  validate_stored_revision, validate_stored_report,
}
use breakfix.Repository.{
  ActionState, ActionRow, ReportRow, Tables, Backend, held_row, report_with, report_of_digest,
}
use breakfix.Repository.Records.{insert_revision}
use breakfix.Repository.Outputs.{check_phase_outputs}
use breakfix.Repository.Actions.{coalesce, write_row}

-- The row that a completion leaves.
unfoldable pub completed_row : (revision : Option Text) → Time → ActionRow → ActionRow
completed_row revision now r = record r {
  revision_digest = revision;
  state = ActionState.completed;
  lease_owner = [];
  lease_expires = none;
  completed_at = some now;
  updated_at = now;
}

-- The row that is stored for a report.
unfoldable pub report_row : StoredReport → (revision_digest : Text) → ReportRow
report_row value d = record {
  id = value.reference.id;
  digest = value.reference.digest;
  revision_digest = d;
  report = value.report;
  created_at = value.created_at;
}

-- INSERT INTO runnable_verification_reports ... ON CONFLICT (id) DO NOTHING; the column of the
-- digest is unique.
unfoldable pub insert_report :
    StoredReport → (revision_digest : Text) → List ReportRow → Result (List ReportRow)
unfolding report_row
insert_report value d rows = elim (report_with value.reference.id rows) [
  | some existing ↦ ok rows
  | none ↦ elim (report_of_digest value.reference.digest rows) [
    | none ↦ ok (report_row value d ∷ rows)
    | some existing ↦ err (Error.plain "duplicate key value violates unique constraint")
  ]
]

module _ (b : Backend) where
  -- The tests of `CompleteRunnableMaterialization` before its transaction.
  unfoldable pub check_materialization : LeaseCredential → StoredRevision → Time → Result Text
  check_materialization c value now = do
    reject
        (not (is_ok (validate_credential c)) || (not (is_materialize c.identity.phase) || now == 0))
        (Error.plain "complete runnable materialization is invalid")
    validate_stored_revision b.codec value
    digest ←
        map_err (λ e. Error.plain "materialized runnable revision does not match its action")
          (spec_digest b.codec value.revision.spec)
    reject
        (not (text_eq c.identity.spec_digest digest)
          || not (identity_eq c.identity.content value.revision.spec.identity))
        (Error.plain "materialized runnable revision does not match its action")
    ok digest

  -- `CompleteRunnableMaterialization`
  unfoldable pub complete_materialization :
      LeaseCredential → StoredRevision → Time → Tables → Result Tables
  unfolding check_materialization completed_row
  complete_materialization c value now t = do
    digest ← check_materialization c value now
    elim (held_row c now t) [
      | none ↦ err Error.action_lease_lost
      | some r ↦ do
        reject (not (text_eq r.identity.spec_digest digest))
            (Error.plain "materialized runnable revision spec does not match its action")
        rows ← insert_revision b.codec value digest t.revisions
        ok (
            write_row (action_key c.identity) (completed_row (some (value.reference.digest)) now r)
              (record t { revisions = rows }))
    ]

  -- The tests of `CompleteRunnableVerification` before its transaction.
  unfoldable pub check_verification : LeaseCredential → StoredReport → Time → Result Text
  check_verification c value now = do
    reject (not (is_ok (validate_credential c)) || (not (is_verify c.identity.phase) || now == 0))
        (Error.plain "complete runnable verification is invalid")
    validate_stored_report b.codec value
    digest ←
        map_err (λ e. Error.plain "verification report does not match its action")
          (revision_digest b.codec value.revision)
    reject
        (not (text_eq c.identity.spec_digest value.revision.artifact.built_from_spec_digest)
          || not (identity_eq c.identity.content value.revision.spec.identity))
        (Error.plain "verification report does not match its action")
    ok digest

  -- The transaction of `CompleteRunnableVerification`, on the row that is held.
  unfoldable pub finish_report :
      LeaseCredential → StoredReport → Time → (digest : Text) → Tables → ActionRow → Result Tables
  unfolding check_phase_outputs insert_report completed_row
  finish_report c value now digest t r = do
    reject
        (not (text_eq (coalesce r.revision_digest) digest)
          || not (eq_ℤ value.report.attempt (pos (r.attempt))))
        (Error.plain "verification report revision or attempt does not match its action")
    check_phase_outputs b t value.report.phases
    rows ← insert_report value digest t.reports
    ok (
        write_row (action_key c.identity) (completed_row r.revision_digest now r)
          (record t { reports = rows }))

  -- `CompleteRunnableVerification`
  unfoldable pub complete_verification :
      LeaseCredential → StoredReport → Time → Tables → Result Tables
  unfolding check_verification finish_report
  complete_verification c value now t = do
    digest ← check_verification c value now
    elim (held_row c now t) [
      | none ↦ err Error.action_lease_lost
      | some r ↦ finish_report c value now digest t r
    ]
