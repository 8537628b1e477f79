-- ===== src/Runnable/Outcome/Report.antt =====
-- internal/domain/runnable/validate.go: what a verification report that passed its check says.
use breakfix.Prelude.{
  ℕ, ℤ, pos, ◌+◌, ◌<◌, ◌≤◌, ◌≤ℤ◌, Bool, true, false, not, ◌||◌, ◌&&◌, ◌≡◌, ◌≢◌, refl, arith, ap,
  sym, ◌∙◌, length, Option, none, some, ◌==◌, ltb,
}
use mathlib.Core.Path.{subst}
use breakfix.Text.{text_eq}
use breakfix.Text.Laws.{text_eq_iff}
use breakfix.Errors.{
  Error, Result, ok, reject, map_err, >>-eq-ok, >>=-eq-ok, reject-eq-ok, reject-not, map_err-eq-ok,
}
use breakfix.Runnable.Kinds.{FailureClass, is_artifact, is_infrastructure}
use breakfix.Runnable.Model.{
  RunnableSpec, RunnableRevision, VerificationReport, VerificationFailure,
}
use breakfix.Runnable.Profile.{is_positive}
use breakfix.Runnable.Ident.{validate_format}
use breakfix.Runnable.Spec.{Codec, validate_revision, revision_digest, profile_digest}
use breakfix.Runnable.Outcome.{
  bool_eq, computed_true, check_verdict, compute_spec_passed, expected_phases, validate_environment,
  validate_failure, validate_report,
}
use breakfix.Runnable.Outcome.Coverage.{Pairs, CoversPhase, all_satisfied, compute_passed-Pairs}

-- A report without a failure states exactly the computed result; one with a failure does not pass,
-- and the failure is well formed and does not contradict the results.
pub record Verdict (spec : RunnableSpec) (r : VerificationReport) : Type 0 where
  pub complete : r.failure ≡ none → compute_spec_passed spec r.phases ≡ ok r.passed
  pub failed :
      (f : VerificationFailure)
      → r.failure ≡ some f
      → (r.passed ≡ false) × (validate_failure f ≡ ok tt)
  pub artifact_failed :
      (f : VerificationFailure)
      → r.failure ≡ some f
      → f.failure_class ≡ FailureClass.artifact
      → compute_spec_passed spec r.phases ≢ ok true
  pub infrastructure_failed :
      (f : VerificationFailure)
      → r.failure ≡ some f
      → f.failure_class ≡ FailureClass.infrastructure
      → length r.phases ≤ length spec.validation_plan.phases + 1

bool_eq_sound : (a b : Bool) → bool_eq a b ≡ true → a ≡ b
bool_eq_sound a b h = ground arith

not_computed :
    (c : FailureClass) (m : Result Bool)
    → (is_artifact c && computed_true m) ≡ false
    → c ≡ FailureClass.artifact
    → m ≢ ok true
unfolding is_artifact
not_computed c m h e = λ q. ground arith

phase_limit :
    (c : FailureClass) (m n : ℕ)
    → (is_infrastructure c && ltb (m + 1) n) ≡ false
    → c ≡ FailureClass.infrastructure
    → n ≤ m + 1
unfolding is_infrastructure
phase_limit c m n h e = ground arith

same_failure : {f g : VerificationFailure} → some f ≡ some g → f ≡ g
same_failure e = ground arith

check_verdict-Verdict :
    (spec : RunnableSpec) (r : VerificationReport) (failure : Option VerificationFailure)
    → r.failure ≡ failure
    → check_verdict spec r failure (compute_spec_passed spec r.phases) ≡ ok tt
    → Verdict spec r
unfolding check_verdict
check_verdict-Verdict spec r none e h =
    let (b, computed, same) = >>=-eq-ok (compute_spec_passed spec r.phases) _ h in
    record {
      complete = λ _.
          computed
          ∙ ap ok (sym (bool_eq_sound r.passed b (reject-not (bool_eq r.passed b) _ same)));
      failed = λ f q. absurd (ground arith);
      artifact_failed = λ f q. absurd (ground arith);
      infrastructure_failed = λ f q. absurd (ground arith);
    }
check_verdict-Verdict spec r (some g) e h =
    let (valid, h1) = >>-eq-ok (validate_failure g) _ h in
    let (not_passed, h2) = >>-eq-ok (reject r.passed _) _ h1 in
    let (conflict, many) =
      >>-eq-ok
        (reject (is_artifact g.failure_class && computed_true (compute_spec_passed spec r.phases))
          _)
        _ h2 in
    record {
      complete = λ q. absurd (ground arith);
      failed = λ f q. (
        reject-eq-ok r.passed _ not_passed,
        subst (λ x. validate_failure x ≡ ok tt) (same_failure (sym e ∙ q)) valid,
      );
      artifact_failed = λ f q c.
          not_computed g.failure_class (compute_spec_passed spec r.phases)
            (reject-eq-ok _ _ conflict)
            (ap (λ (x : VerificationFailure). x.failure_class) (same_failure (sym e ∙ q)) ∙ c);
      infrastructure_failed = λ f q c.
          phase_limit g.failure_class (length spec.validation_plan.phases) (length r.phases)
            (reject-eq-ok _ _ many)
            (ap (λ (x : VerificationFailure). x.failure_class) (same_failure (sym e ∙ q)) ∙ c);
    }

module _ (codec : Codec) where
  -- What the report binds: a valid revision and its digest, the profile of the environment.
  pub record Reported (revision : RunnableRevision) (r : VerificationReport) : Type 0 where
    pub valid : validate_revision codec revision ≡ ok tt
    pub digest : revision_digest codec revision ≡ ok r.revision_digest
    pub profile :
        profile_digest codec revision.spec.runtime_profile ≡ ok r.environment.profile_digest
    pub attempted : pos 1 ≤ℤ r.attempt
    pub timed : 0 < r.created_at
    pub verdict : Verdict revision.spec r

  attempt_time : (a : ℤ) (t : ℕ) → (not (is_positive a) || t == 0) ≡ false → (pos 1 ≤ℤ a) × (0 < t)
  attempt_time a t h = ground arith

  pub validate_report-Reported :
      (revision : RunnableRevision) (r : VerificationReport)
      → validate_report codec revision r ≡ ok tt
      → Reported revision r
  unfolding validate_report
  validate_report-Reported revision r h =
      let (_, h1) = >>-eq-ok (validate_format r.format _) _ h in
      let (valid, h2) =
        >>-eq-ok
          (map_err (Error.wrapped "verification report has invalid runnable revision")
            (validate_revision codec revision))
          _ h1 in
      let (d, digest, h3) =
        >>=-eq-ok
          (map_err (Error.wrapped "verification report revision digest")
            (revision_digest codec revision))
          _ h2 in
      let (same, h4) = >>-eq-ok (reject (not (text_eq r.revision_digest d)) _) _ h3 in
      let (_, h5) = >>-eq-ok (validate_environment r.environment) _ h4 in
      let (p, profile, h6) =
        >>=-eq-ok
          (map_err (Error.wrapped "verification report profile digest")
            (profile_digest codec revision.spec.runtime_profile))
          _ h5 in
      let (same', h7) = >>-eq-ok (reject (not (text_eq r.environment.profile_digest p)) _) _ h6 in
      let (times, verdict) =
        >>-eq-ok (reject (not (is_positive r.attempt) || r.created_at == 0) _) _ h7 in
      let (attempted, timed) = attempt_time r.attempt r.created_at (reject-eq-ok _ _ times) in
      record {
        valid = map_err-eq-ok _ (validate_revision codec revision) valid;
        digest =
            map_err-eq-ok _ (revision_digest codec revision) digest
            ∙ ap ok (
                sym (
                  (text_eq_iff r.revision_digest d).0
                    (reject-not (text_eq r.revision_digest d) _ same)));
        profile =
            map_err-eq-ok _ (profile_digest codec revision.spec.runtime_profile) profile
            ∙ ap ok (
                sym (
                  (text_eq_iff r.environment.profile_digest p).0
                    (reject-not (text_eq r.environment.profile_digest p) _ same')));
        attempted = attempted;
        timed = timed;
        verdict = check_verdict-Verdict revision.spec r r.failure refl verdict;
      }

  passes :
      (revision : RunnableRevision) (r : VerificationReport) (failure : Option VerificationFailure)
      → Verdict revision.spec r
      → r.passed ≡ true
      → r.failure ≡ failure
      → r.failure ≡ none
  passes revision r none v p e = e
  passes revision r (some f) v p e = absurd (let (fails, _) = v.failed f e in ground arith)

  -- A report that passes its check and says `passed` has no failure, is bound by digest to the
  -- revision, and its phases cover the initialization and every phase of the plan, one by one and in
  -- order, with every exit code expected and every assertion satisfied.
  pub passed_report_covers :
      (revision : RunnableRevision) (r : VerificationReport)
      → validate_report codec revision r ≡ ok tt
      → r.passed ≡ true
      → (r.failure ≡ none)
        × (revision_digest codec revision ≡ ok r.revision_digest)
        × Pairs CoversPhase (expected_phases revision.spec) r.phases
        × (all_satisfied r.phases ≡ true)
  unfolding compute_spec_passed
  passed_report_covers revision r h p =
      let bound : Reported revision r = validate_report-Reported revision r h in
      let no_failure : r.failure ≡ none = passes revision r r.failure bound.verdict p refl in
      let (covers, verdict) =
        (compute_passed-Pairs (expected_phases revision.spec) r.phases r.passed).0
          (bound.verdict.complete no_failure) in
      (no_failure, bound.digest, covers, sym verdict ∙ p)
