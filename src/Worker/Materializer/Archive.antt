-- ===== src/Worker/Materializer/Archive.antt =====
-- internal/worker/runnable/materializer.go: what the archive materializer gives back.
use breakfix.Prelude.{
  Bool, true, false, not, ◌||◌, ◌≡◌, refl, arith, ap, sym, ◌∙◌, inl, inr, Bool-cases,
}
use breakfix.Text.{Text, codes, text_eq}
use breakfix.Text.Laws.{text_eq_iff}
use breakfix.Errors.{
  Error, Result, ok, err, Check, reject, map_err, ok_injective, >>-eq-ok, >>=-eq-ok, map_err-eq-ok,
  reject-eq-ok, Result-cases,
}
use breakfix.Runnable.Kinds.{runtime_eq}
use breakfix.Runnable.Model.{
  RunnableSpec, RunnableRevision, ArtifactReference, VerificationReport, format_version,
}
use breakfix.Runnable.Spec.{Codec, validate_artifact, spec_digest}
use breakfix.Runnable.Action.{MaterializeRequest, VerifyRequest, validate_materialize}
use breakfix.Worker.Materializer.{
  Workshop, digest_of_archive, check_built, built, build_from, materialize_archive, bind_artifact,
  bound_to, worker_materialize, Providers,
}
use breakfix.Worker.Materializer.Bound.{accepted}

allowed_request :
    {A : Type 0} (m : Check) (f : Error → A) (a : A)
    → m ≡ ok tt
    → elim m [ err e ↦ f e | ok t ↦ a ] ≡ a
allowed_request (ok t) f a h = refl
allowed_request (err e) f a h = absurd (ground arith)

module _ (codec : Codec) where
  check_built-eq-ok :
      (spec : RunnableSpec) (made artifact : ArtifactReference)
      → check_built codec spec made ≡ ok artifact
      → (validate_artifact artifact ≡ ok tt)
        × (runtime_eq artifact.runtime spec.runtime_profile.runtime ≡ true)
        × (spec_digest codec spec ≡ ok artifact.built_from_spec_digest)
  unfolding check_built
  check_built-eq-ok spec made artifact h =
      let (valid, h1) = >>-eq-ok (map_err _ (validate_artifact made)) _ h in
      let (d, digest, h2) = >>=-eq-ok (spec_digest codec spec) _ h1 in
      let (bound, h3) =
        >>-eq-ok
          (reject
            (not (runtime_eq made.runtime spec.runtime_profile.runtime)
              || not (text_eq made.built_from_spec_digest d))
            _)
          _ h2 in
      let (runtime, built_for) =
        both (runtime_eq made.runtime spec.runtime_profile.runtime)
          (text_eq made.built_from_spec_digest d) (reject-eq-ok _ _ bound) in
      let same : made ≡ artifact = ok_injective h3 in
      rw (← same) (
        map_err-eq-ok _ (validate_artifact made) valid,
        runtime,
        digest ∙ ap ok (sym ((text_eq_iff made.built_from_spec_digest d).0 built_for)),
      )
    where
      both : (p q : Bool) → (not p || not q) ≡ false → (p ≡ true) × (q ≡ true)
      both p q k = ground arith

module _ (codec : Codec) {W : Type 0} where
  -- What `ArchiveMaterializer.Materialize` checked of an artifact.
  pub record BuiltFrom (x : Workshop W) (request : MaterializeRequest) (w : W)
      (artifact : ArtifactReference) : Type 0 where
    pub archive : Text
    pub read : (x.read_archive request.credential request.spec.source w).0 ≡ ok archive
    pub archive_digest : digest_of_archive codec archive ≡ request.spec.source.digest
    pub artifact_valid : validate_artifact artifact ≡ ok tt
    pub runtime : runtime_eq artifact.runtime request.spec.runtime_profile.runtime ≡ true
    pub spec : spec_digest codec request.spec ≡ ok artifact.built_from_spec_digest

  built-checked :
      (spec : RunnableSpec) (m : Result ArtifactReference × W) (artifact : ArtifactReference)
      → (built codec spec m).0 ≡ ok artifact
      → (made : ArtifactReference) × (check_built codec spec made ≡ ok artifact)
  unfolding built
  built-checked spec (err e, w) artifact h = absurd (ground arith)
  built-checked spec (ok made, w) artifact h = (made, h)

  build_from-eq-ok :
      (x : Workshop W) (spec : RunnableSpec) (m : Result Text × W) (artifact : ArtifactReference)
      → (build_from codec x spec m).0 ≡ ok artifact
      → (archive : Text) × (m.0 ≡ ok archive)
        × (digest_of_archive codec archive ≡ spec.source.digest)
        × (made : ArtifactReference) × (check_built codec spec made ≡ ok artifact)
  unfolding build_from
  build_from-eq-ok x spec (err e, w) artifact h = absurd (ground arith)
  build_from-eq-ok x spec (ok archive, w) artifact h =
      elim (Bool-cases (text_eq (digest_of_archive codec archive) spec.source.digest)) [
        | inr other ↦ absurd (ground arith)
        | inl same ↦
            let (made, checked) =
              built-checked spec (x.build spec archive w) artifact (ground arith) in
            (
              archive,
              refl,
              (text_eq_iff (digest_of_archive codec archive) spec.source.digest).0 same,
              made,
              checked,
            )
      ]

  bound_to-eq :
      (spec : RunnableSpec) (artifact : ArtifactReference) (m : Result ArtifactReference × W)
      → m.0 ≡ ok artifact
      → bound_to codec spec m ≡ (bind_artifact codec spec artifact, m.1)
  unfolding bound_to
  bound_to-eq spec artifact (err e, w) h = absurd (ground arith)
  bound_to-eq spec artifact (ok made, w) h =
      let same : made ≡ artifact = ok_injective h in
      ap (λ (a : ArtifactReference). (bind_artifact codec spec a, w)) same

  worker_made :
      (p : Providers W) (request : MaterializeRequest) (w : W)
      → validate_materialize codec request ≡ ok tt
      → worker_materialize codec p request w ≡ bound_to codec request.spec (p.make request w)
  unfolding worker_materialize
  worker_made p request w h = allowed_request (validate_materialize codec request) _ _ h

  -- An artifact that the archive materializer gives back is valid, for the runtime of the spec and
  -- built from the spec by its digest; the archive that was read has the digest that the spec states
  -- for its source. `Worker.Materialize` with that materializer then succeeds, with the revision of
  -- that spec and that artifact in the current format, and the world is as the materializer left it.
  pub materialize_archive-BuiltFrom :
      (x : Workshop W) (judge : VerifyRequest → W → Result VerificationReport × W)
      (request : MaterializeRequest) (w : W) (artifact : ArtifactReference)
      → (materialize_archive codec x request w).0 ≡ ok artifact
      → BuiltFrom x request w artifact
        × (worker_materialize codec
              (record { make = materialize_archive codec x; judge = judge })
              request
              w
            ≡ (
              ok (record {
                format = codes format_version;
                spec = request.spec;
                artifact = artifact;
              }),
              (materialize_archive codec x request w).1,
            ))
  unfolding materialize_archive
  materialize_archive-BuiltFrom x judge request w artifact h =
      elim (Result-cases (validate_materialize codec request)) [
        | inr (e, bad) ↦ absurd (ground arith)
        | inl (_, good) ↦
            let (archive, read, at, made, checked) =
              build_from-eq-ok x request.spec
                (x.read_archive request.credential request.spec.source w) artifact (ground arith) in
            let (valid, runtime, spec) =
              check_built-eq-ok codec request.spec made artifact checked in
            let p : Providers W = record { make = materialize_archive codec x; judge = judge } in
            (
              record {
                archive = archive;
                read = read;
                archive_digest = at;
                artifact_valid = valid;
                runtime = runtime;
                spec = spec;
              },
              worker_made p request w good
                  ∙ bound_to-eq request.spec artifact (materialize_archive codec x request w) h
                  ∙ ap
                      (λ (m : Result RunnableRevision).
                        (m, (materialize_archive codec x request w).1))
                      (accepted codec request.spec artifact valid runtime spec),
            )
      ]
