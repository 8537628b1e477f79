-- ===== src/Repository/Stores.antt =====
-- internal/adapter/postgres/runnable_repository.go: what the stores of records change.
use breakfix.Prelude.{
  not, ◌||◌, ◌≡◌, refl, arith, inl, inr, Bool-cases, Option-cases, ◌==◌, length, ltb,
}
use breakfix.Text.{Text, text_eq}
use breakfix.Text.Dict.{lookup, insert}
use breakfix.Errors.{ok, reject, is_ok, ok_injective, >>-eq-ok, >>=-eq-ok}
use breakfix.Runnable.Kinds.{is_verify}
use breakfix.Runnable.Model.{RunnableSpec, SourceArchive, ImmutableReference, Time}
use breakfix.Runnable.Profile.{validate_source}
use breakfix.Runnable.Spec.{revision_digest}
use breakfix.Runnable.Output.{OutputCapture, capture_reference}
use breakfix.Runnable.Action.{
  LeaseCredential, StoredRevision, StoredReport, validate_credential, validate_stored_revision,
  validate_stored_report,
}
use breakfix.Repository.{Tables, Backend, held_row, revision_of, report_with}
use breakfix.Repository.Records.{
  max_source_archive_bytes, archive_digest, insert_spec, insert_revision, store_revision,
  store_spec, store_source,
}
use breakfix.Repository.Outputs.{check_phase_outputs, keep_held, keep_output, store_output}
use breakfix.Repository.Completions.{insert_report}
use breakfix.Repository.Resolve.{keep_report, store_report}
use breakfix.Repository.Changes.{Moves}
use breakfix.Repository.Growth.{Grows-same, insert_spec-Stored, insert_revision-Added}

module _ (b : Backend) where
  -- A step that writes none of specs, revisions and actions.
  pub quiet :
      {t t' : Tables}
      → t'.specs ≡ t.specs
      → t'.revisions ≡ t.revisions
      → t'.actions ≡ t.actions
      → Moves b.codec t t'
  quiet s r a = record { grows = Grows-same b.codec s r; change = inl a }

  pub store_revision-Moves :
      (value : StoredRevision) (t t' : Tables)
      → store_revision b.codec value t ≡ ok t'
      → Moves b.codec t t'
  unfolding store_revision
  store_revision-Moves value t t' h =
      let (valid, h1) = >>-eq-ok (validate_stored_revision b.codec value) _ h in
      let (made, inserted, h2) =
        >>=-eq-ok (insert_spec b.codec value.revision.spec value.created_at t) _ h1 in
      let s = insert_spec-Stored b.codec value.revision.spec value.created_at t made inserted in
      let (rows, kept, h3) =
        >>=-eq-ok (insert_revision b.codec value made.0 made.1.revisions) _ h2 in
      let a = insert_revision-Added b.codec value made.0 made.1 rows valid kept in
      let same : record made.1 { revisions = rows } ≡ t' = ok_injective h3 in
      rw (← same) (record {
        grows = record {
          specs = λ d row f. a.grows.specs d row (s.grows.specs d row f);
          revisions = λ d row f. a.grows.revisions d row (s.grows.revisions d row f);
          valid_specs = λ v. a.grows.valid_specs (s.grows.valid_specs v);
          valid_revisions = λ v. a.grows.valid_revisions (s.grows.valid_revisions v);
          distinct = λ v. a.grows.distinct (s.grows.distinct v);
          distinct_ids = λ v. a.grows.distinct_ids (s.grows.distinct_ids v);
        };
        change = inl s.actions;
      })

  pub store_spec-Moves :
      (spec : RunnableSpec) (now : Time) (t : Tables) (made : Text × Tables)
      → store_spec b.codec spec now t ≡ ok made
      → Moves b.codec t made.1
  unfolding store_spec
  store_spec-Moves spec now t made h =
      let (_, inserted) = >>-eq-ok (reject (now == 0) _) _ h in
      let s = insert_spec-Stored b.codec spec now t made inserted in
      record { grows = s.grows; change = inl s.actions }

  pub store_source-Moves :
      (source : SourceArchive) (archive : Text) (now : Time) (t t' : Tables)
      → store_source b.codec source archive now t ≡ ok t'
      → Moves b.codec t t'
  unfolding store_source
  store_source-Moves source archive now t t' h =
      let (_, h1) =
        >>-eq-ok
          (reject
            (not (is_ok (validate_source source))
              || (now == 0
                  || (length archive == 0 || ltb max_source_archive_bytes (length archive))))
            _)
          _ h in
      let (_, h2) =
        >>-eq-ok (reject (not (text_eq (archive_digest b.codec archive) source.digest)) _) _ h1 in
      elim (Option-cases (lookup source.digest t.sources)) [
        | inl absent ↦
            let same : record t { sources = insert source.digest archive t.sources } ≡ t' =
              ground arith in
            rw (← same) (quiet refl refl refl)
        | inr (stored, found) ↦
            elim (Bool-cases (text_eq (archive_digest b.codec stored) source.digest)) [
              | inl whole ↦ let same : t ≡ t' = ground arith in rw (← same) (quiet refl refl refl)
              | inr broken ↦ absurd (ground arith)
            ]
      ]

  pub store_report-Moves :
      (value : StoredReport) (t t' : Tables) → store_report b value t ≡ ok t' → Moves b.codec t t'
  unfolding store_report keep_report
  store_report-Moves value t t' h =
      let (_, h1) = >>-eq-ok (validate_stored_report b.codec value) _ h in
      let (digest, _, h2) = >>=-eq-ok (revision_digest b.codec value.revision) _ h1 in
      elim (Option-cases (revision_of digest t.revisions)) [
        | inl unknown ↦ absurd (ground arith)
        | inr (row, known) ↦
            let h3 : keep_report b value digest t ≡ ok t' = ground arith in
            let (_, h4) = >>-eq-ok (check_phase_outputs b t value.report.phases) _ h3 in
            let (rows, _, h5) = >>=-eq-ok (insert_report value digest t.reports) _ h4 in
            elim (Option-cases (report_with value.reference.id t.reports)) [
              | inl absent ↦
                  let same : record t { reports = rows } ≡ t' = ground arith in
                  rw (← same) (quiet refl refl refl)
              | inr (old, found) ↦ elim (Bool-cases (text_eq old.digest value.reference.digest)) [
                | inl equal ↦ let same : t ≡ t' = ground arith in rw (← same) (quiet refl refl refl)
                | inr other ↦ absurd (ground arith)
              ]
            ]
      ]

  keep_output-Moves :
      (e : ImmutableReference × Text) (t : Tables) (made : ImmutableReference × Tables)
      → keep_output b e t ≡ ok made
      → Moves b.codec t made.1
  unfolding keep_output
  keep_output-Moves (reference, encoded) t made h =
      elim (Option-cases (lookup reference.digest t.outputs)) [
        | inl absent ↦
            let same : (reference, record t { outputs = insert reference.digest encoded t.outputs })
                ≡ made =
              ground arith in
            rw (← same) (quiet refl refl refl)
        | inr (stored, found) ↦ elim (Bool-cases (text_eq stored encoded)) [
          | inl equal ↦
              let same : (reference, t) ≡ made = ground arith in rw (← same) (quiet refl refl refl)
          | inr other ↦ absurd (ground arith)
        ]
      ]

  pub store_output-Moves :
      (c : LeaseCredential) (capture : OutputCapture) (now : Time) (t : Tables)
      (made : ImmutableReference × Tables)
      → store_output b c capture now t ≡ ok made
      → Moves b.codec t made.1
  unfolding store_output keep_held
  store_output-Moves c capture now t made h =
      let (_, h1) =
        >>-eq-ok
          (reject
            (not (is_ok (validate_credential c)) || (not (is_verify c.identity.phase) || now == 0))
            _)
          _ h in
      let (capture_of, _, h2) =
        >>=-eq-ok (capture_reference b.marshal_capture b.codec.sha256_hex capture) _ h1 in
      elim (Option-cases (held_row c now t)) [
        | inl absent ↦ absurd (ground arith)
        | inr (r, held) ↦
            let h3 : keep_held b capture_of t r ≡ ok made = ground arith in
            let (_, h4) = >>-eq-ok (reject _ _) _ h3 in keep_output-Moves capture_of t made h4
      ]
