-- ===== src/Worker/Runner/Stored.antt =====
-- internal/worker/runnable/runner.go with internal/domain/runnable/persistence.go: the records that
-- the runner makes of what the executor answers pass their checks.
use breakfix.Prelude.{◌<◌, Bool, true, not, ◌||◌, ◌≡◌, refl, arith, ◌==◌}
use breakfix.Text.{Text, codes, text_eq, all}
use breakfix.Text.Laws.{text_eq_self}
use breakfix.Errors.{Field, Error, ok, reject, map_err, >>-eq-ok, >>-ok_iff, bind_ok}
use breakfix.Runnable.Model.{RunnableRevision, VerificationReport, Time}
use breakfix.Runnable.Ident.{valid_digest, stable_id, validate_id, is_id_byte, is_lower}
use breakfix.Runnable.Ident.Laws.{HexHash}
use breakfix.Runnable.Spec.{validate_revision, revision_digest}
use breakfix.Runnable.Spec.Binding.{digests_valid, digest_bytes-valid}
use breakfix.Runnable.Outcome.{validate_report, report_digest}
use breakfix.Runnable.Action.{
  ActionIdentity, record_id, validate_revision_reference, validate_report_reference,
  validate_stored_revision, validate_stored_report,
}
use breakfix.Runnable.Action.RecordId.{record_id_valid}
use breakfix.Repository.{Backend}

stored_tests :
    (p : Bool) (t : Time) (e : Error) → p ≡ true → 0 < t → reject (not p || t == 0) e ≡ ok tt
stored_tests p t e h n = ground arith

one_test : (p : Bool) (e : Error) → p ≡ true → reject (not p) e ≡ ok tt
one_test p e h = ground arith

module _ (b : Backend) (hash : HexHash b.codec.sha256_hex) where
  prefix_rr : (stable_id (codes "rr") ≡ true) × (stable_id (codes "vr") ≡ true)
  unfolding stable_id all is_id_byte is_lower
  prefix_rr = (refl, refl)

  revision_reference :
      (i : ActionIdentity) (d : Text)
      → valid_digest d ≡ true
      → validate_revision_reference (record { id = record_id b.codec (codes "rr") i; digest = d })
        ≡ ok tt
  unfolding validate_revision_reference
  revision_reference i d v =
      let (_, valid) =
        record_id_valid b.codec hash (codes "rr") i (Field.name "runnable_revision_reference.id")
          prefix_rr.0 (omega arith) in
      (>>-ok_iff (validate_id (record_id b.codec (codes "rr") i) _) _).1
        (valid, one_test (valid_digest d) _ v)

  report_reference :
      (i : ActionIdentity) (d : Text)
      → valid_digest d ≡ true
      → validate_report_reference (record { id = record_id b.codec (codes "vr") i; digest = d })
        ≡ ok tt
  unfolding validate_report_reference
  report_reference i d v =
      let (_, valid) =
        record_id_valid b.codec hash (codes "vr") i (Field.name "verification_report_reference.id")
          prefix_rr.1 (omega arith) in
      (>>-ok_iff (validate_id (record_id b.codec (codes "vr") i) _) _).1
        (valid, one_test (valid_digest d) _ v)

  -- The record of a revision under the identifier of its action.
  pub stored_revision_valid :
      (i : ActionIdentity) (revision : RunnableRevision) (d : Text) (t : Time)
      → validate_revision b.codec revision ≡ ok tt
      → revision_digest b.codec revision ≡ ok d
      → 0 < t
      → validate_stored_revision b.codec (record {
        reference = record { id = record_id b.codec (codes "rr") i; digest = d };
        revision = revision;
        created_at = t;
      })
        ≡ ok tt
  unfolding validate_stored_revision
  stored_revision_valid i revision d t valid digest n =
      let (_, _, revisions, _) = digests_valid b.codec hash in
      (>>-ok_iff
          (validate_revision_reference
            (record { id = record_id b.codec (codes "rr") i; digest = d }))
          _).1
        (
          revision_reference i d ((revisions revision d digest).1),
          (>>-ok_iff (validate_revision b.codec revision) _).1 (
            valid,
            bind_ok (revision_digest b.codec revision) _ digest
                (stored_tests (text_eq d d) t _ (text_eq_self d) n),
          ),
        )

  pub stored_report_valid :
      (i : ActionIdentity) (revision : RunnableRevision) (report : VerificationReport) (d : Text)
      (t : Time)
      → validate_report b.codec revision report ≡ ok tt
      → report_digest b.codec revision report ≡ ok d
      → 0 < t
      → validate_stored_report b.codec (record {
        reference = record { id = record_id b.codec (codes "vr") i; digest = d };
        report = report;
        revision = revision;
        created_at = t;
      })
        ≡ ok tt
  unfolding validate_stored_report report_digest
  stored_report_valid i revision report d t valid digest n =
      let (_, bytes) = >>-eq-ok (map_err _ (validate_report b.codec revision report)) _ digest in
      (>>-ok_iff
          (validate_report_reference (record { id = record_id b.codec (codes "vr") i; digest = d }))
          _).1
        (
          report_reference i d (digest_bytes-valid b.codec hash _ d bytes),
          (>>-ok_iff (validate_report b.codec revision report) _).1 (
            valid,
            bind_ok (report_digest b.codec revision report) _ digest
                (stored_tests (text_eq d d) t _ (text_eq_self d) n),
          ),
        )
