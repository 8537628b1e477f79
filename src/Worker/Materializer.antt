-- ===== src/Worker/Materializer.antt =====
-- internal/worker/runnable/materializer.go and worker.go: the two operations of a worker. The reader of
-- archives, the builder, the materializer and the verifier take and give back the world `W`.
pub mod Checked
pub mod Bound
pub mod Archive
use breakfix.Prelude.{Bool, true, false, not, ◌&&◌, ◌||◌, ◌++◌, Option, none, some, if◌then◌else◌}
use breakfix.Text.{Text, codes, text_eq}
use breakfix.Errors.{Error, Result, ok, err, Check, reject, map_err, ◌>>=◌, ◌>>◌}
use breakfix.Runnable.Kinds.{runtime_eq}
use breakfix.Runnable.Model.{
  SourceArchive, RunnableSpec, RunnableRevision, ArtifactReference, VerificationReport,
  format_version,
}
use breakfix.Runnable.Ident.{digest_prefix}
use breakfix.Runnable.Spec.{Codec, validate_artifact, spec_digest, validate_revision}
use breakfix.Runnable.Outcome.{contract_error, validate_report}
use breakfix.Runnable.Action.{
  LeaseCredential, MaterializeRequest, VerifyRequest, validate_materialize, validate_verify,
}

-- SourceReader and ArtifactBuilder
pub record Workshop (W : Type 0) : Type 0 where
  pub read_archive : LeaseCredential → SourceArchive → W → Result Text × W
  pub build : RunnableSpec → (archive : Text) → W → Result ArtifactReference × W

-- The fields of `Worker`: a Materializer and a Verifier.
pub record Providers (W : Type 0) : Type 0 where
  pub make : MaterializeRequest → W → Result ArtifactReference × W
  pub judge : VerifyRequest → W → Result VerificationReport × W

module _ (codec : Codec) where
  -- archiveDigest(archive) of the worker
  unfoldable pub digest_of_archive : Text → Text
  digest_of_archive archive = digest_prefix ++ codec.sha256_hex archive

  -- The tests of `ArchiveMaterializer.Materialize` on the artifact that was built.
  unfoldable pub check_built : RunnableSpec → ArtifactReference → Result ArtifactReference
  check_built spec artifact = do
    map_err (Error.wrapped "artifact builder returned an invalid reference")
        (validate_artifact artifact)
    digest ← spec_digest codec spec
    reject
        (not (runtime_eq artifact.runtime spec.runtime_profile.runtime)
          || not (text_eq artifact.built_from_spec_digest digest))
        (contract_error "artifact-spec-binding"
          "artifact builder returned a reference for another runnable spec")
    ok artifact

  unfoldable pub built :
      {W : Type 0} → RunnableSpec → Result ArtifactReference × W → Result ArtifactReference × W
  unfolding check_built
  built spec (err e, w) = (err e, w)
  built spec (ok artifact, w) = (check_built spec artifact, w)

  unfoldable pub build_from :
      {W : Type 0} → Workshop W → RunnableSpec → Result Text × W → Result ArtifactReference × W
  unfolding digest_of_archive built
  build_from x spec (err e, w) = (err (Error.wrapped "read runnable source archive" e), w)
  build_from x spec (ok archive, w) =
      let made = built spec (x.build spec archive w) in
      if text_eq (digest_of_archive archive) spec.source.digest then made else (
        err (
            contract_error "source-archive-digest"
              "source archive does not match the frozen runnable spec"),
        w,
      )

  -- `ArchiveMaterializer.Materialize`
  unfoldable pub materialize_archive :
      {W : Type 0} → Workshop W → MaterializeRequest → W → Result ArtifactReference × W
  unfolding build_from
  materialize_archive x request w =
      let made =
        build_from x request.spec (x.read_archive request.credential request.spec.source w) in
      elim (validate_materialize codec request) [ err e ↦ (err e, w) | ok t ↦ made ]

  -- The revision of an artifact, and its check.
  unfoldable pub bind_artifact : RunnableSpec → ArtifactReference → Result RunnableRevision
  bind_artifact spec artifact =
      let revision : RunnableRevision = record {
        format = codes format_version;
        spec = spec;
        artifact = artifact;
      } in
      do
        map_err (Error.wrapped "materializer returned an unbound artifact")
            (validate_revision codec revision)
        ok revision

  unfoldable pub bound_to :
      {W : Type 0} → RunnableSpec → Result ArtifactReference × W → Result RunnableRevision × W
  unfolding bind_artifact
  bound_to spec (err e, w) = (err e, w)
  bound_to spec (ok artifact, w) = (bind_artifact spec artifact, w)

  -- `Worker.Materialize`
  unfoldable pub worker_materialize :
      {W : Type 0} → Providers W → MaterializeRequest → W → Result RunnableRevision × W
  unfolding bound_to
  worker_materialize x request w =
      let made = bound_to request.spec (x.make request w) in
      elim (validate_materialize codec request) [ err e ↦ (err e, w) | ok t ↦ made ]

  unfoldable pub judged :
      {W : Type 0}
      → RunnableRevision
      → Result VerificationReport × W
      → Result VerificationReport × W
  judged revision (err e, w) = (err e, w)
  judged revision (ok report, w) = elim (validate_report codec revision report) [
    | err e ↦ (err (Error.wrapped "verifier returned an invalid report" e), w)
    | ok t ↦ (ok report, w)
  ]

  -- `Worker.Verify`
  unfoldable pub worker_verify :
      {W : Type 0} → Providers W → VerifyRequest → W → Result VerificationReport × W
  unfolding judged
  worker_verify x request w =
      let made = judged request.revision (x.judge request w) in
      elim (validate_verify codec request) [ err e ↦ (err e, w) | ok t ↦ made ]
