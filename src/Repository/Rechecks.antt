-- ===== src/Repository/Rechecks.antt =====
-- internal/adapter/postgres/runnable_repository.go: what the schedule of a verification changes.
use breakfix.Prelude.{
  ℤ, true, not, ◌||◌, some, ◌≡◌, refl, arith, inl, inr, sym, ap, ◌∙◌, Option-cases, ◌==◌,
}
use breakfix.Text.{Text, text_eq}
use breakfix.Text.Laws.{text_eq_iff}
use breakfix.Errors.{
  Error, ok, reject, map_err, is_ok, ok_injective, >>-eq-ok, >>=-eq-ok, >>-ok_iff, reject-not,
  map_err-eq-ok,
}
use breakfix.Runnable.Kinds.{ActionPhase, phase_valid}
use breakfix.Runnable.Model.{RunnableSpec, RunnableRevision, Time}
use breakfix.Runnable.Reap.{is_blank}
use breakfix.Runnable.Ident.{valid_digest, validate_format}
use breakfix.Runnable.Profile.{is_positive, validate_identity}
use breakfix.Runnable.Spec.{validate_spec, spec_digest, validate_revision, revision_digest}
use breakfix.Runnable.Spec.Binding.{validate_revision-Bound}
use breakfix.Runnable.Action.{
  ActionIdentity, RevisionReference, validate_action_identity, validate_revision_reference,
}
use breakfix.Repository.{RevisionRow, Tables, Backend, revision_of}
use breakfix.Repository.Records.{resolved, resolve_revision}
use breakfix.Repository.Scheduling.{schedule, schedule_verification}
use breakfix.Repository.Valid.{verifies}
use breakfix.Repository.Changes.{Moves}
use breakfix.Repository.Growth.{Grows-same}
use breakfix.Repository.Schedules.{schedule-Moves}

module _ (b : Backend) where
  -- What a revision that is resolved is: the one of its row.
  pub resolve_revision-found :
      (id digest : Text) (t : Tables) (revision : RunnableRevision)
      → resolve_revision b.codec id digest t ≡ ok revision
      → (row : RevisionRow) × (revision_of digest t.revisions ≡ some row)
        × (row.revision ≡ revision)
        × (revision_digest b.codec revision ≡ ok digest)
  unfolding resolve_revision resolved
  resolve_revision-found id digest t revision h =
      let (_, h1) = >>-eq-ok (reject (is_blank id || not (valid_digest digest)) _) _ h in
      elim (Option-cases (revision_of digest t.revisions)) [
        | inl absent ↦ absurd (ground arith)
        | inr (row, found) ↦
            let h2 : resolved b.codec id digest (some row) ≡ ok revision = ground arith in
            let (same, computed) = resolved_row id digest row revision h2 in
            (row, found, same, computed)
      ]
    where
      resolved_row :
          (id digest : Text) (row : RevisionRow) (revision : RunnableRevision)
          → resolved b.codec id digest (some row) ≡ ok revision
          → (row.revision ≡ revision) × (revision_digest b.codec revision ≡ ok digest)
      resolved_row id digest row revision h =
          let (_, h1) = >>-eq-ok (reject (not (text_eq row.id id)) _) _ h in
          let (computed, e, h2) =
            >>=-eq-ok
              (map_err (Error.wrapped "validate stored runnable revision")
                (revision_digest b.codec row.revision))
              _ h1 in
          let (equal, h3) = >>-eq-ok (reject (not (text_eq computed digest)) _) _ h2 in
          let same : row.revision ≡ revision = ok_injective h3 in
          let at : computed ≡ digest =
            (text_eq_iff computed digest).0 (reject-not (text_eq computed digest) _ equal) in
          (
            same,
            ap (revision_digest b.codec) (sym same)
                ∙ map_err-eq-ok _ (revision_digest b.codec row.revision) e
                ∙ ap ok at,
          )

  -- A revision has a digest only when it is valid.
  pub digested_valid :
      (revision : RunnableRevision) (d : Text)
      → revision_digest b.codec revision ≡ ok d
      → validate_revision b.codec revision ≡ ok tt
  unfolding revision_digest
  digested_valid revision d h = (>>-eq-ok (validate_revision b.codec revision) _ h).0

  -- A valid revision's action passes its check.
  verify_identity :
      (revision : RunnableRevision) (d : Text) (version : ℤ)
      → validate_revision b.codec revision ≡ ok tt
      → spec_digest b.codec revision.spec ≡ ok d
      → is_positive version ≡ true
      → validate_action_identity (record {
        content = revision.spec.identity;
        spec_digest = d;
        phase = ActionPhase.verify;
        state_version = version;
      })
        ≡ ok tt
  unfolding validate_action_identity phase_valid
  verify_identity revision d version valid digest p =
      let bound = validate_revision-Bound b.codec revision valid in
      let at : revision.artifact.built_from_spec_digest ≡ d =
        ok_injective (sym bound.built_from ∙ digest) in
      let is_digest : valid_digest d ≡ true = rw at at (bound.artifact.from_spec) in
      let content : validate_identity revision.spec.identity ≡ ok tt =
        spec_content revision.spec bound.spec in
      (>>-ok_iff (map_err _ (validate_identity revision.spec.identity)) _).1
        (ap (map_err _) content, ground arith)
    where
      spec_content :
          (s : RunnableSpec) → validate_spec s ≡ ok tt → validate_identity s.identity ≡ ok tt
      spec_content s h =
          unfold validate_spec in
          let (_, h1) = >>-eq-ok (validate_format s.format _) _ h in
          (>>-eq-ok (validate_identity s.identity) _ h1).0

  pub verification-Moves :
      (reference : RevisionReference) (version : ℤ) (now : Time) (t : Tables)
      (made : ActionIdentity × Tables)
      → schedule_verification b reference version now t ≡ ok made
      → Moves b.codec t made.1
  unfolding schedule_verification
  verification-Moves reference version now t made h =
      let (fit, h1) =
        >>-eq-ok
          (reject
            (not (is_ok (validate_revision_reference reference))
              || (not (is_positive version) || now == 0))
            _)
          _ h in
      let (revision, resolved, h2) =
        >>=-eq-ok (resolve_revision b.codec reference.id reference.digest t) _ h1 in
      let (d, digest, h3) = >>=-eq-ok (spec_digest b.codec revision.spec) _ h2 in
      let (row, found, same, computed) =
        resolve_revision-found reference.id reference.digest t revision resolved in
      let i : ActionIdentity = record {
        content = revision.spec.identity;
        spec_digest = d;
        phase = ActionPhase.verify;
        state_version = version;
      } in
      let made_of : (i, schedule i (some reference.digest) now t) ≡ made = ok_injective h3 in
      rw (← made_of) (
        schedule-Moves b.codec t t i (some reference.digest) now (Grows-same b.codec refl refl) refl
          (verify_identity revision d version (digested_valid revision reference.digest computed)
            digest (ground arith))
          (verifies reference.digest (record {
            row = row;
            found = found;
            bound = ap (λ r. spec_digest b.codec r.spec) same ∙ digest;
            content = ap (λ r. r.spec.identity) (sym same);
          })))
