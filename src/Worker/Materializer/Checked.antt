-- ===== src/Worker/Materializer/Checked.antt =====
-- internal/worker/runnable/worker.go and materializer.go: what the two operations of a worker give back.
use breakfix.Prelude.{◌≡◌, arith, ap, sym, ◌∙◌, inl, inr}
use breakfix.Errors.{Result, ok, err, map_err, ok_injective, >>-eq-ok, map_err-eq-ok, Result-cases}
use breakfix.Runnable.Model.{RunnableSpec, RunnableRevision, ArtifactReference, VerificationReport}
use breakfix.Runnable.Spec.{Codec, validate_revision}
use breakfix.Runnable.Outcome.{validate_report}
use breakfix.Runnable.Action.{
  MaterializeRequest, VerifyRequest, validate_materialize, validate_verify,
}
use breakfix.Worker.Materializer.{
  Providers, bind_artifact, bound_to, worker_materialize, judged, worker_verify,
}

module _ (codec : Codec) where
  bind_artifact-eq-ok :
      (spec : RunnableSpec) (artifact : ArtifactReference) (revision : RunnableRevision)
      → bind_artifact codec spec artifact ≡ ok revision
      → (validate_revision codec revision ≡ ok tt) × (revision.spec ≡ spec)
  unfolding bind_artifact
  bind_artifact-eq-ok spec artifact revision h =
      let (valid, h1) = >>-eq-ok (map_err _ (validate_revision codec _)) _ h in
      let same = ok_injective h1 in
      (
        ap (validate_revision codec) (sym same) ∙ map_err-eq-ok _ (validate_revision codec _) valid,
        ap (λ r. r.spec) (sym same),
      )

module _ (codec : Codec) {W : Type 0} where
  bound_to-eq-ok :
      (spec : RunnableSpec) (m : Result ArtifactReference × W) (revision : RunnableRevision)
      → (bound_to codec spec m).0 ≡ ok revision
      → (validate_revision codec revision ≡ ok tt) × (revision.spec ≡ spec)
  unfolding bound_to
  bound_to-eq-ok spec (err e, w) revision h = absurd (ground arith)
  bound_to-eq-ok spec (ok artifact, w) revision h =
      bind_artifact-eq-ok codec spec artifact revision h

  -- What a worker materializes is a valid revision of exactly the spec that it was asked for.
  pub worker_materialize-eq-ok :
      (x : Providers W) (request : MaterializeRequest) (w : W) (revision : RunnableRevision)
      → (worker_materialize codec x request w).0 ≡ ok revision
      → (validate_revision codec revision ≡ ok tt) × (revision.spec ≡ request.spec)
  unfolding worker_materialize
  worker_materialize-eq-ok x request w revision h =
      elim (Result-cases (validate_materialize codec request)) [
        | inr (e, bad) ↦ absurd (ground arith)
        | inl (_, good) ↦ bound_to-eq-ok request.spec (x.make request w) revision (ground arith)
      ]

  judged-eq-ok :
      (revision : RunnableRevision) (m : Result VerificationReport × W)
      (report : VerificationReport)
      → (judged codec revision m).0 ≡ ok report
      → validate_report codec revision report ≡ ok tt
  unfolding judged
  judged-eq-ok revision (err e, w) report h = absurd (ground arith)
  judged-eq-ok revision (ok r, w) report h =
      elim (Result-cases (validate_report codec revision r)) [
        | inr (e, bad) ↦ absurd (ground arith)
        | inl (_, good) ↦
            let same : r ≡ report = ground arith in
            ap (validate_report codec revision) (sym same) ∙ good
      ]

  -- What a worker reports passes the check for the revision that it was given.
  pub worker_verify-eq-ok :
      (x : Providers W) (request : VerifyRequest) (w : W) (report : VerificationReport)
      → (worker_verify codec x request w).0 ≡ ok report
      → validate_report codec request.revision report ≡ ok tt
  unfolding worker_verify
  worker_verify-eq-ok x request w report h = elim (Result-cases (validate_verify codec request)) [
    | inr (e, bad) ↦ absurd (ground arith)
    | inl (_, good) ↦ judged-eq-ok request.revision (x.judge request w) report (ground arith)
  ]
