-- ===== src/Worker/Verifier/Reports.antt =====
-- internal/worker/runnable/verifier.go: the reports of `Verify` pass the check of the contract.
use breakfix.Prelude.{
  ℕ, ℤ, Bool, true, not, ◌||◌, ◌<◌, ◌==◌, List, none, some, ◌≡◌, refl, sym, ap, ◌∙◌, arith, inl,
  inr,
}
use breakfix.Text.{Text, codes, text_eq}
use breakfix.Text.Laws.{text_eq_self, text_eq_iff}
use breakfix.Errors.{
  Field, Error, ok, reject, map_err, >>-eq-ok, >>=-eq-ok, >>-ok_iff, map_err-eq-ok, reject-not,
  Result-cases, bind_ok,
}
use breakfix.Runnable.Model.{
  EnvironmentIdentity, PhaseResult, VerificationReport, RunnableRevision, format_version,
}
use breakfix.Runnable.Ident.{validate_format}
use breakfix.Runnable.Profile.{is_positive}
use breakfix.Runnable.Spec.{Codec, validate_revision, revision_digest, profile_digest}
use breakfix.Runnable.Outcome.{
  validate_environment, compute_spec_passed, check_verdict, bool_eq, validate_report,
  expected_phases,
}
use breakfix.Runnable.Action.{VerifyRequest, validate_verify}
use breakfix.Runnable.Action.Context.{verify_bound}
use breakfix.Worker.Verifier.{Executor}
use breakfix.Worker.Verifier.Phases.{
  Partial, run_phases, check_environment, report_of, conclude, verify_in, verify,
}

same_bool : (b : Bool) (e : Error) → reject (not (bool_eq b b)) e ≡ ok tt
same_bool b e = ground arith

format_ok : (field : Field) → validate_format (codes format_version) field ≡ ok tt
unfolding validate_format text_eq
format_ok field = refl

timed :
    (a : ℤ) (t : ℕ) (e : Error)
    → is_positive a ≡ true
    → 0 < t
    → reject (not (is_positive a) || t == 0) e ≡ ok tt
timed a t e h n = ground arith

equal_ok : (s t : Text) (e : Error) → s ≡ t → reject (not (text_eq s t)) e ≡ ok tt
equal_ok s t e h = rw (h, text_eq_self t) refl

module _ (codec : Codec) {W : Type 0} (x : Executor W) where
  -- The tests of `Verify` on the environment, as the report's check makes them.
  record Fit (revision : RunnableRevision) (environment : EnvironmentIdentity) : Type 0 where
    valid : validate_environment environment ≡ ok tt
    profile : profile_digest codec revision.spec.runtime_profile ≡ ok environment.profile_digest

  check_environment-Fit :
      (revision : RunnableRevision) (environment : EnvironmentIdentity)
      → check_environment codec x revision environment ≡ ok tt
      → Fit revision environment
  unfolding check_environment
  check_environment-Fit revision environment h =
      let (p, profile, h1) = >>=-eq-ok (profile_digest codec revision.spec.runtime_profile) _ h in
      let (valid, same) =
        >>-eq-ok
          (map_err (Error.wrapped "provider returned invalid environment")
            (validate_environment environment))
          _ h1 in
      let at : environment.profile_digest ≡ p =
        (text_eq_iff environment.profile_digest p).0
          (reject-not (text_eq environment.profile_digest p) _ same) in
      record {
        valid = map_err-eq-ok _ (validate_environment environment) valid;
        profile = profile ∙ ap ok (sym at);
      }

  report_accepted :
      (request : VerifyRequest) (environment : EnvironmentIdentity) (phases : List PhaseResult)
      (passed : Bool)
      → validate_verify codec request ≡ ok tt
      → Fit request.revision environment
      → compute_spec_passed request.revision.spec phases ≡ ok passed
      → 0 < x.now
      → validate_report codec request.revision
          (report_of codec x request environment phases passed none)
        ≡ ok tt
  unfolding validate_report report_of check_verdict
  report_accepted request environment phases passed v f computed n =
      let (valid, digest, _, _, _, attempted) = verify_bound codec request v in
      (>>-ok_iff (validate_format (codes format_version) _) _).1 (
        format_ok _,
        (>>-ok_iff (map_err _ (validate_revision codec request.revision)) _).1 (
          ap (map_err _) valid,
          bind_ok (map_err _ (revision_digest codec request.revision)) _ (ap (map_err _) digest) (
              (>>-ok_iff (reject (not (text_eq request.digest request.digest)) _) _).1 (
                equal_ok request.digest request.digest _ refl,
                (>>-ok_iff (validate_environment environment) _).1 (
                  f.valid,
                  bind_ok (map_err _ (profile_digest codec request.revision.spec.runtime_profile)) _
                      (ap (map_err _) (f.profile))
                      ((>>-ok_iff
                          (reject
                            (not (text_eq environment.profile_digest environment.profile_digest)) _)
                          _).1
                        (
                          equal_ok environment.profile_digest environment.profile_digest _ refl,
                          (>>-ok_iff (reject (not (is_positive request.attempt) || x.now == 0) _)
                                _).1
                              (
                                timed request.attempt x.now _ attempted n,
                                bind_ok (compute_spec_passed request.revision.spec phases) _
                                    computed (same_bool passed _),
                              ),
                        )),
                ),
              )),
        ),
      )

  conclude_complete :
      (request : VerifyRequest) (environment : EnvironmentIdentity) (ran : Partial PhaseResult)
      (report : VerificationReport)
      → conclude codec x request environment ran ≡ ok report
      → report.failure ≡ none
      → (passed : Bool) × (phases : List PhaseResult) × (compute_spec_passed request.revision.spec
            phases
          ≡ ok passed)
        × (report_of codec x request environment phases passed none ≡ report)
  unfolding conclude report_of
  conclude_complete request environment (phases, some f) report h n = absurd (ground arith)
  conclude_complete request environment (phases, none) report h n =
      let (passed, computed, h1) =
        >>=-eq-ok
          (map_err (Error.wrapped "compute verification result")
            (compute_spec_passed request.revision.spec phases))
          _ h in
      (
        passed,
        phases,
        map_err-eq-ok _ (compute_spec_passed request.revision.spec phases) computed,
        ok_injective h1,
      )
    where
      ok_injective : {a b : VerificationReport} → ok a ≡ ok b → a ≡ b
      ok_injective e = ground arith

  -- A report without a failure that the worker makes, of a request that passes its check and with a
  -- clock that is set, passes the check of `VerificationReport.Validate` for the revision of the request.
  pub complete_report_valid :
      (request : VerifyRequest) (w w' : W) (report : VerificationReport)
      → 0 < x.now
      → verify codec x request w ≡ (ok report, w')
      → report.failure ≡ none
      → validate_report codec request.revision report ≡ ok tt
  unfolding verify verify_in
  complete_report_valid request w w' report n h none_failed =
      elim (Result-cases (validate_verify codec request)) [
        | inr (e, bad) ↦ absurd (ground arith)
        | inl (_, v) ↦ elim (Result-cases (x.create request w).0) [
          | inr (e, bad) ↦ absurd (ground arith)
          | inl (environment, made) ↦
              elim (Result-cases (check_environment codec x request.revision environment)) [
                | inr (e, bad) ↦ absurd (ground arith)
                | inl (_, fits) ↦
                    let ran : Partial PhaseResult =
                      (run_phases x request.credential environment
                        request.revision.spec.runtime_profile
                        (expected_phases request.revision.spec) (x.create request w).1).0 in
                    let concluded : conclude codec x request environment ran ≡ ok report =
                      ground arith in
                    let (passed, phases, computed, same) =
                      conclude_complete request environment ran report concluded none_failed in
                    rw (← same) (
                      report_accepted request environment phases passed v
                        (check_environment-Fit request.revision environment fits) computed n)
              ]
        ]
      ]
