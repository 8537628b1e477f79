-- ===== src/Runnable/Spec.antt =====
-- internal/domain/runnable/validate.go and digest.go: the spec, the artifact reference, the
-- revision, and their digests. JSON encoding and SHA-256 are the parameters of a `Codec`.
pub mod Isolation
pub mod Binding
use breakfix.Prelude.{
  ℕ, ℤ, pos, negsuc, suc, zero, ◌+◌, ◌<◌, ◌≤◌, ◌≤ℤ◌, String, Bool, true, false, not, ◌&&◌, ◌||◌,
  List, [], ◌∷◌, ◌++◌, ◌≡◌, refl, arith, map, Option, none, some, ltb, leb, ltb_ℤ, leb_ℤ, ◌==◌,
  length, if◌then◌else◌,
}
use breakfix.Text.{Text, codes, text_eq, is_empty, has_prefix, member, contains}
use breakfix.Text.Trim.{trim_space}
use breakfix.Errors.{Field, Error, Result, ok, err, Check, reject, map_err, ◌>>=◌, ◌>>◌}
use breakfix.Runnable.Kinds.{runtime_valid, runtime_text, runtime_eq}
use breakfix.Runnable.Model.{
  RuntimeProfile, ActionSpec, ValidationPhase, RunnableSpec, ArtifactReference, RunnableRevision,
  VerificationReport, LifecyclePolicy, max_actions_per_phase, max_reference_length, max_id_length,
}
use breakfix.Runnable.Ident.{valid_digest, required_string, validate_format, digest_prefix}
use breakfix.Runnable.Unique.{each_unique}
use breakfix.Runnable.Profile.{validate_identity, validate_profile, validate_source}
use breakfix.Runnable.Plan.{validate_action, validate_plan, validate_lifecycle}

unfoldable pub validate_initialization : RuntimeProfile → List ActionSpec → Result (List Text)
validate_initialization profile actions =
    each_unique (λ i a. validate_action profile (Field.index (Field.name "initialization") i) a)
      (λ a. a.id) (Error.invalid (Field.name "initialization") "contains a duplicate action id") 0
      [] actions

-- The inner loop: no action of a phase has the identifier of an initialization action.
unfoldable pub reject_reused : (initialization_ids : List Text) → List ActionSpec → Check
reject_reused ids [] = ok tt
reject_reused ids (a ∷ rest) =
    let others = reject_reused ids rest in
    do
      reject (member a.id ids)
          (Error.invalid (Field.name "validation_plan") "reuses an initialization action id")
      others

-- The loop over the phases after the plan is valid.
unfoldable pub reject_reserved : (initialization_ids : List Text) → List ValidationPhase → Check
unfolding reject_reused
reject_reserved ids [] = ok tt
reject_reserved ids (phase ∷ rest) =
    let others = reject_reserved ids rest in
    do
      reject (text_eq phase.id (codes "initialization")) (
          Error.invalid (Field.name "validation_plan.phases")
            "must not use the reserved initialization phase id")
      reject_reused ids phase.actions
      others

unfoldable pub validate_spec : RunnableSpec → Check
validate_spec s = do
  validate_format s.format (Field.name "spec.format_version")
  validate_identity s.identity
  validate_profile s.runtime_profile
  validate_source s.source
  reject (length s.initialization == 0 || ltb max_actions_per_phase (length s.initialization))
      (Error.invalid (Field.name "initialization") "must contain bounded initialization actions")
  initialization_ids ← validate_initialization s.runtime_profile s.initialization
  validate_plan s.runtime_profile s.validation_plan
  reject_reserved initialization_ids s.validation_plan.phases
  validate_lifecycle s.lifecycle_policy

-- "@" + digest
abbrev pub pin : Text → Text
pin digest = b'@' ∷ digest

unfoldable pub validate_artifact : ArtifactReference → Check
validate_artifact a = do
  validate_format a.format (Field.name "artifact.format_version")
  reject (not (runtime_valid a.runtime))
      (Error.unsupported (runtime_text a.runtime) (Field.name "artifact.runtime"))
  required_string a.provider_reference (Field.name "artifact.provider_reference")
      max_reference_length
  reject (not (valid_digest a.artifact_digest) || not (valid_digest a.built_from_spec_digest))
      (Error.invalid (Field.name "artifact") "must bind valid artifact and spec digests")
  reject (not (contains a.provider_reference (pin a.artifact_digest)))
      (Error.invalid (Field.name "artifact.provider_reference") "must be pinned to artifact_digest")
  required_string a.builder_version (Field.name "artifact.builder_version") max_id_length

-- The plan of internal/domain/runnable/blank.go, which the environment of a blank runtime binds.
pub record BlankRuntimePlan : Type 0 where
  pub profile : RuntimeProfile
  pub lifecycle : LifecyclePolicy
  pub image : Text

unfoldable pub validate_blank : BlankRuntimePlan → Check
validate_blank p = do
  validate_profile p.profile
  validate_lifecycle p.lifecycle
  reject (is_empty (trim_space p.image))
      (Error.plain "blank runtime plan requires a management terminal image")
  reject (not (text_eq p.profile.base_image p.image))
      (Error.plain "blank runtime profile must pin the management terminal image as its base image")

-- json.Marshal of each type that is digested, and the hexadecimal form of SHA-256.
pub record Codec : Type 0 where
  pub marshal_spec : RunnableSpec → Result Text
  pub marshal_profile : RuntimeProfile → Result Text
  pub marshal_revision : RunnableRevision → Result Text
  pub marshal_report : VerificationReport → Result Text
  pub marshal_blank : BlankRuntimePlan → Result Text
  pub sha256_hex : Text → Text

module _ (codec : Codec) where
  -- digest(value), on the result of the encoding
  unfoldable pub digest_bytes : Result Text → Result Text
  digest_bytes encoded = do
    canonical ← map_err (Error.wrapped "canonical JSON") encoded
    ok (digest_prefix ++ codec.sha256_hex canonical)

  unfoldable pub spec_digest : RunnableSpec → Result Text
  spec_digest s = do validate_spec s; digest_bytes (codec.marshal_spec s)

  unfoldable pub profile_digest : RuntimeProfile → Result Text
  profile_digest p = do validate_profile p; digest_bytes (codec.marshal_profile p)

  unfoldable pub validate_revision : RunnableRevision → Check
  validate_revision r = do
    validate_format r.format (Field.name "revision.format_version")
    map_err (Error.wrapped "runnable revision spec") (validate_spec r.spec)
    map_err (Error.wrapped "runnable revision artifact") (validate_artifact r.artifact)
    reject (not (runtime_eq r.artifact.runtime r.spec.runtime_profile.runtime))
        (Error.plain "runnable revision artifact runtime does not match spec")
    digest ← map_err (Error.wrapped "runnable revision spec digest") (spec_digest r.spec)
    reject (not (text_eq r.artifact.built_from_spec_digest digest))
        (Error.plain "runnable revision artifact was built from another spec")

  unfoldable pub revision_digest : RunnableRevision → Result Text
  revision_digest r = do validate_revision r; digest_bytes (codec.marshal_revision r)

  unfoldable pub blank_digest : BlankRuntimePlan → Result Text
  blank_digest p = do validate_blank p; digest_bytes (codec.marshal_blank p)
