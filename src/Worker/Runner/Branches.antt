-- ===== src/Worker/Runner/Branches.antt =====
-- internal/worker/runnable/runner.go: what each end of an execution sends.
use breakfix.Prelude.{
  ◌<◌, Bool, true, false, List, Option, none, some, ◌≡◌, refl, arith, inl, inr, All, Bool-cases,
  Option-cases, if◌then◌else◌, ◌||◌,
}
use breakfix.Errors.{Error, Result, ok, err, Check, as_artifact, is_deadline, is_lease_lost}
use breakfix.Runnable.Kinds.{ActionPhase, FailureClass, class_valid, is_infrastructure}
use breakfix.Runnable.Model.{RunnableRevision, VerificationReport, VerificationFailure}
use breakfix.Runnable.Ident.Laws.{HexHash}
use breakfix.Runnable.Spec.{validate_revision, revision_digest, spec_digest}
use breakfix.Runnable.Outcome.{validate_report, report_digest}
use breakfix.Runnable.Action.{ActionContext, validate_credential}
use breakfix.Repository.{Backend}
use breakfix.Worker.Materializer.{Providers}
use breakfix.Worker.Reporting.{classify}
use breakfix.Worker.Runner.{
  Runner, settle, report_failure_of, complete_built, complete_judged, judged_report, hand_over,
  send_report,
}
use breakfix.Worker.Runner.Sent.{Sent, logged_store, logged_runner}
use breakfix.Worker.Runner.Stored.{stored_revision_valid, stored_report_valid}
use breakfix.Worker.Runner.Accepted.{IsAccepted, revision_checked, report_checked}

-- A property of both branches on a result.
at_result :
    {A B : Type 0} (P : B → Type 0) (m : Result A) (f : Error → B) (g : A → B)
    → ((e : Error) → m ≡ err e → P (f e))
    → ((a : A) → m ≡ ok a → P (g a))
    → P (elim m [ err e ↦ f e | ok a ↦ g a ])
at_result P (err e) f g h k = h e refl
at_result P (ok a) f g h k = k a refl

pub at_test :
    {B : Type 0} (P : B → Type 0) (t : Bool) (y z : B)
    → (t ≡ true → P y)
    → (t ≡ false → P z)
    → P (if t then y else z)
at_test P true y z h k = h refl
at_test P false y z h k = k refl

infrastructure_valid : (f : FailureClass) → is_infrastructure f ≡ true → class_valid f ≡ true
unfolding is_infrastructure class_valid
infrastructure_valid f h = ground arith

classify_valid : (e : Error) → class_valid (classify e).0 ≡ true
unfolding classify class_valid
classify_valid e = elim (Option-cases (as_artifact e)) [
  | inr (a, found) ↦ ground arith
  | inl absent ↦ elim (Bool-cases (is_deadline e)) [
    | inl late ↦ ground arith
    | inr other ↦ ground arith
  ]
]

module _ (b : Backend) (hash : HexHash b.codec.sha256_hex) {W : Type 0} (x : Providers W)
    (r : Runner W) (clock : (w : W) → 0 < r.now w) (c : ActionContext)
    (credential : validate_credential c.credential ≡ ok tt) where
  abbrev logged : Runner (W × List Sent)
  logged = logged_runner b.codec x r

  -- Every call in the log is accepted.
  abbrev Fine : {A : Type 0} → A × (W × List Sent) → Type 0
  Fine m = All (IsAccepted b c) m.1.1

  pub built_accepted :
      (m : Result RunnableRevision × (W × List Sent))
      → c.credential.identity.phase ≡ ActionPhase.materialize_artifact
      → ((revision : RunnableRevision)
          → m.0 ≡ ok revision
          → (validate_revision b.codec revision ≡ ok tt)
            × (spec_digest b.codec revision.spec ≡ ok c.credential.identity.spec_digest)
            × (c.credential.identity.content ≡ revision.spec.identity))
      → Fine m
      → Fine (complete_built b.codec logged c m)
  unfolding complete_built logged_runner logged_store
  built_accepted (err e, w) phase made l = l
  built_accepted (ok revision, w) phase made l =
      at_result (λ n. Fine {A = Check} n) (revision_digest b.codec revision) _ _ (λ e bad. l)
        (λ d digest.
          let (valid, spec, content) = made revision refl in
          (
            (
              refl,
              refl,
              λ t n.
                  revision_checked b c _ t credential phase
                    (stored_revision_valid b hash c.credential.identity revision d (r.now w.0) valid
                      digest (clock w.0))
                    spec content n,
            ),
            l,
          ))

  report_accepted :
      (revision : RunnableRevision) (report : VerificationReport) (w : W × List Sent)
      → c.credential.identity.phase ≡ ActionPhase.verify
      → validate_report b.codec revision report ≡ ok tt
      → revision_digest b.codec revision ≡ ok c.digest
      → c.credential.identity.spec_digest ≡ revision.artifact.built_from_spec_digest
      → c.credential.identity.content ≡ revision.spec.identity
      → All (IsAccepted b c) w.1
      → Fine (send_report b.codec logged c revision report w)
  unfolding send_report logged_runner logged_store
  report_accepted revision report w phase valid digest built content l =
      at_result (λ n. Fine {A = Check} n) (report_digest b.codec revision report) _ _ (λ e bad. l)
        (λ d made. (
          (
            refl,
            refl,
            λ t n.
                report_checked b c _ t credential phase
                  (stored_report_valid b hash c.credential.identity revision report d (r.now w.0)
                    valid made (clock w.0))
                  digest built content n,
          ),
          l,
        ))

  judged_accepted :
      (revision : RunnableRevision) (report : VerificationReport)
      (failure : Option VerificationFailure) (w : W × List Sent)
      → c.credential.identity.phase ≡ ActionPhase.verify
      → validate_report b.codec revision report ≡ ok tt
      → revision_digest b.codec revision ≡ ok c.digest
      → c.credential.identity.spec_digest ≡ revision.artifact.built_from_spec_digest
      → c.credential.identity.content ≡ revision.spec.identity
      → All (IsAccepted b c) w.1
      → Fine (judged_report b.codec logged c revision report failure w)
  unfolding judged_report hand_over logged_runner logged_store
  judged_accepted revision report none w phase valid digest built content l =
      report_accepted revision report w phase valid digest built content l
  judged_accepted revision report (some failure) w phase valid digest built content l =
      at_test (λ n. Fine {A = Check} n) (is_infrastructure failure.failure_class) _ _
        (λ h. ((refl, infrastructure_valid failure.failure_class h), (refl, l)))
        (λ h. report_accepted revision report w phase valid digest built content l)

  pub checked_accepted :
      (revision : RunnableRevision) (m : Result VerificationReport × (W × List Sent))
      → c.credential.identity.phase ≡ ActionPhase.verify
      → ((report : VerificationReport)
          → m.0 ≡ ok report
          → validate_report b.codec revision report ≡ ok tt)
      → revision_digest b.codec revision ≡ ok c.digest
      → c.credential.identity.spec_digest ≡ revision.artifact.built_from_spec_digest
      → c.credential.identity.content ≡ revision.spec.identity
      → Fine m
      → Fine (complete_judged b.codec logged c revision m)
  unfolding complete_judged
  checked_accepted revision (err e, w) phase made digest built content l = l
  checked_accepted revision (ok report, w) phase made digest built content l =
      judged_accepted revision report report.failure w phase (made report refl) digest built content
        l

  pub settled-IsAccepted :
      (result : Check) (w : W × List Sent)
      → All (IsAccepted b c) w.1
      → All (IsAccepted b c) (settle b.codec logged c.credential result w).1
  unfolding settle report_failure_of logged_runner logged_store
  settled-IsAccepted (ok t) w l = l
  settled-IsAccepted (err e) w l =
      at_test (λ (v : W × List Sent). All (IsAccepted b c) v.1)
        (r.parent_over w.0 || is_lease_lost e) _ _ (λ h. l) (λ h. ((refl, classify_valid e), l))
