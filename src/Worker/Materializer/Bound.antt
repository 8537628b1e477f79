-- ===== src/Worker/Materializer/Bound.antt =====
-- internal/worker/runnable/worker.go: the revision that binds an artifact to its spec passes its check.
use breakfix.Prelude.{Bool, true, not, ◌≡◌, refl, arith, ap}
use breakfix.Text.{Text, codes, text_eq}
use breakfix.Text.Laws.{text_eq_self}
use breakfix.Errors.{Field, Error, ok, reject, map_err, >>-eq-ok, >>-ok_iff, bind_ok}
use breakfix.Runnable.Kinds.{runtime_eq}
use breakfix.Runnable.Model.{RunnableSpec, RunnableRevision, ArtifactReference, format_version}
use breakfix.Runnable.Ident.{validate_format}
use breakfix.Runnable.Spec.{Codec, validate_spec, validate_revision, validate_artifact, spec_digest}
use breakfix.Worker.Materializer.{bind_artifact}

allowed : (b : Bool) (e : Error) → b ≡ true → reject (not b) e ≡ ok tt
allowed b e h = ground arith

format_ok :
    (format : Text) (field : Field)
    → format ≡ codes format_version
    → validate_format format field ≡ ok tt
unfolding validate_format
format_ok format field h = rw (h, text_eq_self (codes format_version)) refl

digested_spec :
    (codec : Codec) (spec : RunnableSpec) (d : Text)
    → spec_digest codec spec ≡ ok d
    → validate_spec spec ≡ ok tt
unfolding spec_digest
digested_spec codec spec d h = (>>-eq-ok (validate_spec spec) _ h).0

-- The revision of a spec and its artifact.
abbrev revision_from : RunnableSpec → ArtifactReference → RunnableRevision
revision_from spec artifact = record {
  format = codes format_version;
  spec = spec;
  artifact = artifact;
}

module _ (codec : Codec) where
  bound_revision :
      (revision : RunnableRevision)
      → revision.format ≡ codes format_version
      → validate_artifact revision.artifact ≡ ok tt
      → runtime_eq revision.artifact.runtime revision.spec.runtime_profile.runtime ≡ true
      → spec_digest codec revision.spec ≡ ok revision.artifact.built_from_spec_digest
      → validate_revision codec revision ≡ ok tt
  unfolding validate_revision
  bound_revision revision format valid runtime digest =
      (>>-ok_iff (validate_format revision.format _) _).1 (
        format_ok revision.format _ format,
        (>>-ok_iff (map_err _ (validate_spec revision.spec)) _).1 (
          ap (map_err _)
              (digested_spec codec revision.spec revision.artifact.built_from_spec_digest digest),
          (>>-ok_iff (map_err _ (validate_artifact revision.artifact)) _).1 (
            ap (map_err _) valid,
            (>>-ok_iff
                  (reject
                    (not
                      (runtime_eq revision.artifact.runtime revision.spec.runtime_profile.runtime))
                    _)
                  _).1
                (
                  allowed
                      (runtime_eq revision.artifact.runtime revision.spec.runtime_profile.runtime) _
                      runtime,
                  bind_ok (map_err _ (spec_digest codec revision.spec)) _ (ap (map_err _) digest) (
                      allowed
                        (text_eq revision.artifact.built_from_spec_digest
                          revision.artifact.built_from_spec_digest)
                        _ (text_eq_self revision.artifact.built_from_spec_digest)),
                ),
          ),
        ),
      )

  pub accepted :
      (spec : RunnableSpec) (artifact : ArtifactReference)
      → validate_artifact artifact ≡ ok tt
      → runtime_eq artifact.runtime spec.runtime_profile.runtime ≡ true
      → spec_digest codec spec ≡ ok artifact.built_from_spec_digest
      → bind_artifact codec spec artifact ≡ ok (revision_from spec artifact)
  unfolding bind_artifact
  accepted spec artifact valid runtime digest =
      (>>-ok_iff (map_err _ (validate_revision codec (revision_from spec artifact))) _).1 (
        ap (map_err _) (bound_revision (revision_from spec artifact) refl valid runtime digest),
        refl,
      )
