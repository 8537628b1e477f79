-- ===== src/Repository/Resolve.antt =====
-- internal/adapter/postgres/runnable_repository.go: what the Server reads back of an action, and the
-- reports that are stored and resolved.
use breakfix.Prelude.{ℤ, pos, Bool, not, ◌&&◌, ◌||◌, Option, none, some, ◌==◌, if◌then◌else◌}
use breakfix.Text.{Text, codes, text_eq}
use breakfix.Text.Dict.{lookup}
use breakfix.Errors.{Error, Result, ok, err, Check, reject, map_err, is_ok, ◌>>=◌, ◌>>◌}
use breakfix.Runnable.Kinds.{
  FailureClass, is_materialize, is_verify, class_valid, class_text, phase_text,
}
use breakfix.Runnable.Model.{RunnableRevision, VerificationReport, Time}
use breakfix.Runnable.Ident.{valid_digest}
use breakfix.Runnable.Profile.{identity_eq, is_positive}
use breakfix.Runnable.Plan.{eq_ℤ}
use breakfix.Runnable.Spec.{validate_revision, revision_digest}
use breakfix.Runnable.Outcome.{report_digest}
use breakfix.Runnable.Reap.{is_blank}
use breakfix.Runnable.Action.{
  ActionIdentity, LeaseCredential, RevisionReference, StoredReport, action_key, record_id,
  validate_action_identity, validate_credential, validate_revision_reference,
  validate_stored_report,
}
use breakfix.Repository.{
  ActionRow, ReportRow, Tables, Backend, row_failed, row_completed, held_row, revision_of,
  report_with,
}
use breakfix.Repository.Actions.{coalesce}
use breakfix.Repository.Outputs.{check_phase_outputs}
use breakfix.Repository.Completions.{insert_report}

-- The conditions on the columns of the identity.
unfoldable pub same_identity : ActionIdentity → ActionIdentity → Bool
same_identity a b =
    identity_eq a.content b.content
    && (text_eq a.spec_digest b.spec_digest
        && (text_eq (phase_text a.phase) (phase_text b.phase)
            && eq_ℤ a.state_version b.state_version))

-- The row of the identity: its key and all its columns.
unfoldable pub if_same : ActionIdentity → Option ActionRow → Option ActionRow
unfolding same_identity
if_same identity none = none
if_same identity (some r) = if same_identity r.identity identity then some r else none

unfoldable pub identity_row : ActionIdentity → Tables → Option ActionRow
unfolding if_same
identity_row identity t = if_same identity (lookup (action_key identity) t.actions)

-- The failure that a failed row states.
unfoldable pub stored_failure : (code summary : Text) → Option FailureClass → Check
stored_failure code summary none =
    err (Error.plain "stored runnable action failure is inconsistent")
stored_failure code summary (some class) = do
  reject (not (class_valid class) || (is_blank code || is_blank summary))
      (Error.plain "stored runnable action failure is inconsistent")
  err (Error.action_failed (class_text class) code summary)

-- `runnableActionFailure`
unfoldable pub action_failure : ActionIdentity → Tables → Check
unfolding stored_failure
action_failure identity t = elim (identity_row identity t) [
  | none ↦ ok tt
  | some r ↦
      if row_failed r.state
      then stored_failure r.failure_code r.failure_summary r.failure_class
      else ok tt
]

-- The JOIN of a completed row with the revision of its digest.
unfoldable pub materialized_of : Option ActionRow → Tables → Result RevisionReference
materialized_of none t = err (Error.plain "runnable materialization is not complete")
materialized_of (some r) t = elim (revision_of (coalesce r.revision_digest) t.revisions) [
  | none ↦ err (Error.plain "runnable materialization is not complete")
  | some row ↦
      if row_completed r.state
      then ok (record { id = row.id; digest = coalesce r.revision_digest })
      else err (Error.plain "runnable materialization is not complete")
]

-- `ResolveMaterializedRunnableRevision`
unfoldable pub resolve_materialized : ActionIdentity → Tables → Result RevisionReference
unfolding materialized_of
resolve_materialized identity t = do
  reject (not (is_ok (validate_action_identity identity)) || not (is_materialize identity.phase))
      (Error.plain "runnable materialization identity is invalid")
  action_failure identity t
  reference ← materialized_of (identity_row identity t) t
  map_err (λ e. Error.plain "stored materialized runnable revision reference is invalid")
      (validate_revision_reference reference)
  ok reference

-- The revision and the attempt of the verification that the credential holds.
unfoldable pub verification_of : Option ActionRow → Tables → Result (RevisionReference × ℤ)
verification_of none t = err Error.action_lease_lost
verification_of (some r) t = elim (revision_of (coalesce r.revision_digest) t.revisions) [
  | none ↦ err Error.action_lease_lost
  | some row ↦ ok (record { id = row.id; digest = coalesce r.revision_digest }, pos (r.attempt))
]

-- `ResolveRunnableVerificationLease`
unfoldable pub resolve_verification_lease :
    LeaseCredential → Time → Tables → Result (RevisionReference × ℤ)
unfolding verification_of
resolve_verification_lease c now t = do
  reject (not (is_ok (validate_credential c)) || (not (is_verify c.identity.phase) || now == 0))
      Error.action_lease_lost
  found ← verification_of (held_row c now t) t
  map_err (Error.wrapped "stored runnable verification lease reference is invalid")
      (validate_revision_reference found.0)
  ok found

-- `ValidateRunnableVerificationLease`
unfoldable pub validate_verification_lease :
    LeaseCredential → RevisionReference → (attempt : ℤ) → Time → Tables → Check
validate_verification_lease c reference attempt now t = do
  reject
      (not (is_ok (validate_credential c))
        || (not (is_verify c.identity.phase)
            || (not (is_ok (validate_revision_reference reference))
                || (not (is_positive attempt) || now == 0))))
      Error.action_lease_lost
  found ← resolve_verification_lease c now t
  reject
      (not (text_eq found.0.id reference.id && text_eq found.0.digest reference.digest)
        || not (eq_ℤ found.1 attempt))
      Error.action_lease_lost

module _ (b : Backend) where
  -- The report of the JOIN.
  unfoldable pub report_of_action : Option ReportRow → Tables → Result StoredReport
  report_of_action none t = err (Error.plain "runnable materialization is not complete")
  report_of_action (some row) t = elim (revision_of row.revision_digest t.revisions) [
    | none ↦ err (Error.plain "runnable materialization is not complete")
    | some revision ↦ ok (record {
      reference = record { id = row.id; digest = row.digest };
      report = row.report;
      revision = revision.revision;
      created_at = row.created_at;
    })
  ]

  -- `ResolveVerificationForAction`
  unfoldable pub resolve_verification : ActionIdentity → Tables → Result StoredReport
  unfolding report_of_action
  resolve_verification identity t = do
    reject (not (is_ok (validate_action_identity identity)) || not (is_verify identity.phase))
        (Error.plain "runnable verification identity is invalid")
    action_failure identity t
    value ← report_of_action (report_with (record_id b.codec (codes "vr") identity) t.reports) t
    map_err (Error.wrapped "stored runnable verification action is invalid")
        (validate_stored_report b.codec value)
    ok value

  -- The transaction of `StoreVerificationReport`: the identifier must not be bound to another digest.
  unfoldable pub keep_report : StoredReport → (digest : Text) → Tables → Result Tables
  keep_report value digest t = do
    check_phase_outputs b t value.report.phases
    rows ← insert_report value digest t.reports
    elim (report_with value.reference.id t.reports) [
      | none ↦ ok (record t { reports = rows })
      | some existing ↦ do
        reject (not (text_eq existing.digest value.reference.digest))
            (Error.plain "verification report id is already bound to another digest")
        ok t
    ]

  -- `StoreVerificationReport`
  unfoldable pub store_report : StoredReport → Tables → Result Tables
  unfolding keep_report
  store_report value t = do
    validate_stored_report b.codec value
    digest ← revision_digest b.codec value.revision
    elim (revision_of digest t.revisions) [
      | none ↦ err (Error.plain "runnable revision not found")
      | some row ↦ keep_report value digest t
    ]

  unfoldable pub report_resolved :
      (digest of_revision : Text) → RunnableRevision → Option ReportRow → Result VerificationReport
  report_resolved digest of_revision revision none =
      err (Error.plain "runnable verification report not found")
  report_resolved digest of_revision revision (some row) = do
    reject (not (text_eq row.digest digest) || not (text_eq row.revision_digest of_revision))
        (Error.plain "runnable verification report not found")
    computed ←
        map_err (Error.wrapped "validate stored verification report")
          (report_digest b.codec revision row.report)
    reject (not (text_eq computed digest))
        (Error.plain "stored verification report digest does not match its value")
    ok row.report

  -- `ResolveVerificationReport`
  unfoldable pub resolve_report :
      (id digest : Text) → RunnableRevision → Tables → Result VerificationReport
  unfolding report_resolved
  resolve_report id digest revision t = do
    reject
        (is_blank id
          || (not (valid_digest digest) || not (is_ok (validate_revision b.codec revision))))
        (Error.plain "verification report reference is invalid")
    of_revision ← revision_digest b.codec revision
    report_resolved digest of_revision revision (report_with id t.reports)
