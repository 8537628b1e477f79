-- ===== src/Worker/Runner/Accepted.antt =====
-- internal/worker/runnable/runner.go and worker.go with internal/adapter/postgres/runnable_repository.go:
-- what the runner of a worker sends passes the tests of the Server on values.
use breakfix.Prelude.{◌<◌, Bool, true, not, ◌||◌, ◌≡◌, refl, arith, ap, ◌==◌}
use breakfix.Text.{Text, codes, text_eq}
use breakfix.Text.Laws.{text_eq_self}
use breakfix.Errors.{Error, ok, Check, reject, map_err, is_ok, >>-ok_iff, bind_ok}
use breakfix.Runnable.Kinds.{ActionPhase, class_valid, is_materialize, is_verify}
use breakfix.Runnable.Model.{Time, ContentIdentity}
use breakfix.Runnable.Profile.{identity_eq}
use breakfix.Runnable.Spec.{revision_digest, spec_digest}
use breakfix.Runnable.Action.{
  ActionContext, StoredRevision, StoredReport, record_id, validate_credential,
  validate_stored_revision, validate_stored_report,
}
use breakfix.Repository.{Backend}
use breakfix.Repository.Completions.{check_materialization, check_verification}
use breakfix.Worker.Runner.Sent.{Sent, sent_revision, sent_report, sent_release, sent_failure}

module _ (b : Backend) (c : ActionContext) where
  -- A call that the Server refuses only for the lease, the action's row or its own records.
  abbrev pub IsAccepted : Sent → Type 0
  IsAccepted (sent_revision k value) =
      (k ≡ c.credential)
      × (value.reference.id ≡ record_id b.codec (codes "rr") c.credential.identity)
      × ((t : Time)
          → 0 < t
          → check_materialization b k value t ≡ ok (c.credential.identity.spec_digest))
  IsAccepted (sent_report k value) =
      (k ≡ c.credential)
      × (value.reference.id ≡ record_id b.codec (codes "vr") c.credential.identity)
      × ((t : Time) → 0 < t → check_verification b k value t ≡ ok (c.digest))
  IsAccepted (sent_release k e) = k ≡ c.credential
  IsAccepted (sent_failure k class code summary) = (k ≡ c.credential) × (class_valid class ≡ true)

tests :
    (p q : Bool) (t : Time) (e : Error)
    → p ≡ true
    → q ≡ true
    → 0 < t
    → reject (not p || (not q || t == 0)) e ≡ ok tt
tests p q t e h k n = ground arith

both_tests : (p q : Bool) (e : Error) → p ≡ true → q ≡ true → reject (not p || not q) e ≡ ok tt
both_tests p q e h k = ground arith

identity_same : (v w : ContentIdentity) → v ≡ w → identity_eq v w ≡ true
identity_same v w h = rw h (
    unfold identity_eq in
    ground (arith, text_eq_self w.kind, text_eq_self w.id, text_eq_self w.revision))

text_same : (s t : Text) → s ≡ t → text_eq s t ≡ true
text_same s t h = rw h (text_eq_self t)

ok_check : (m : Check) → m ≡ ok tt → is_ok m ≡ true
ok_check m h = rw h refl

module _ (b : Backend) where
  -- The Server's tests on a revision of the spec of a valid context.
  pub revision_checked :
      (c : ActionContext) (value : StoredRevision) (t : Time)
      → validate_credential c.credential ≡ ok tt
      → c.credential.identity.phase ≡ ActionPhase.materialize_artifact
      → validate_stored_revision b.codec value ≡ ok tt
      → spec_digest b.codec value.revision.spec ≡ ok c.credential.identity.spec_digest
      → c.credential.identity.content ≡ value.revision.spec.identity
      → 0 < t
      → check_materialization b c.credential value t ≡ ok (c.credential.identity.spec_digest)
  unfolding check_materialization is_materialize
  revision_checked c value t credential phase valid digest content n =
      (>>-ok_iff
          (reject
            (not (is_ok (validate_credential c.credential))
              || (not (is_materialize c.credential.identity.phase) || t == 0))
            _)
          _).1
        (
          tests (is_ok (validate_credential c.credential))
              (is_materialize c.credential.identity.phase) t _ (ok_check _ credential)
              (rw phase refl) n,
          (>>-ok_iff (validate_stored_revision b.codec value) _).1 (
            valid,
            bind_ok (map_err _ (spec_digest b.codec value.revision.spec)) _ (ap (map_err _) digest)
                ((>>-ok_iff
                    (reject
                      (not (
                          text_eq c.credential.identity.spec_digest
                            c.credential.identity.spec_digest)
                        || not (
                            identity_eq c.credential.identity.content value.revision.spec.identity))
                      _)
                    _).1
                  (
                    both_tests
                        (text_eq c.credential.identity.spec_digest
                          c.credential.identity.spec_digest)
                        (identity_eq c.credential.identity.content value.revision.spec.identity) _
                        (text_eq_self c.credential.identity.spec_digest)
                        (identity_same c.credential.identity.content value.revision.spec.identity
                          content),
                    refl,
                  )),
          ),
        )

  -- The Server's tests on a report for the revision of a valid context.
  pub report_checked :
      (c : ActionContext) (value : StoredReport) (t : Time)
      → validate_credential c.credential ≡ ok tt
      → c.credential.identity.phase ≡ ActionPhase.verify
      → validate_stored_report b.codec value ≡ ok tt
      → revision_digest b.codec value.revision ≡ ok c.digest
      → c.credential.identity.spec_digest ≡ value.revision.artifact.built_from_spec_digest
      → c.credential.identity.content ≡ value.revision.spec.identity
      → 0 < t
      → check_verification b c.credential value t ≡ ok (c.digest)
  unfolding check_verification is_verify
  report_checked c value t credential phase valid digest built content n =
      (>>-ok_iff
          (reject
            (not (is_ok (validate_credential c.credential))
              || (not (is_verify c.credential.identity.phase) || t == 0))
            _)
          _).1
        (
          tests (is_ok (validate_credential c.credential)) (is_verify c.credential.identity.phase) t
              _ (ok_check _ credential) (rw phase refl) n,
          (>>-ok_iff (validate_stored_report b.codec value) _).1 (
            valid,
            bind_ok (map_err _ (revision_digest b.codec value.revision)) _ (ap (map_err _) digest) (
                (>>-ok_iff
                    (reject
                      (not (
                          text_eq c.credential.identity.spec_digest
                            value.revision.artifact.built_from_spec_digest)
                        || not (
                            identity_eq c.credential.identity.content value.revision.spec.identity))
                      _)
                    _).1
                  (
                    both_tests
                        (text_eq c.credential.identity.spec_digest
                          value.revision.artifact.built_from_spec_digest)
                        (identity_eq c.credential.identity.content value.revision.spec.identity) _
                        (text_same c.credential.identity.spec_digest
                          value.revision.artifact.built_from_spec_digest built)
                        (identity_same c.credential.identity.content value.revision.spec.identity
                          content),
                    refl,
                  )),
          ),
        )
