-- ===== src/Runnable/Spec/Binding.antt =====
-- internal/domain/runnable/validate.go and digest.go: how a revision binds its spec, its artifact and
-- their digests.
use breakfix.Prelude.{Bool, true, false, not, ◌||◌, ◌++◌, ◌≡◌, refl, arith, ap, sym, ◌∙◌}
use breakfix.Text.{Text, text_eq, contains}
use breakfix.Text.Laws.{text_eq_iff}
use breakfix.Errors.{
  Error, Result, ok, err, reject, map_err, >>-eq-ok, >>=-eq-ok, reject-eq-ok, reject-not,
  map_err-eq-ok,
}
use breakfix.Runnable.Kinds.{Runtime, runtime_eq, runtime_valid}
use breakfix.Runnable.Model.{RunnableSpec, ArtifactReference, RunnableRevision, RuntimeProfile}
use breakfix.Runnable.Ident.{valid_digest, required_string, validate_format, digest_prefix}
use breakfix.Runnable.Ident.Laws.{HexHash, valid_digest-prefix}
use breakfix.Runnable.Profile.{validate_profile}
use breakfix.Runnable.Spec.{
  Codec, BlankRuntimePlan, validate_spec, validate_artifact, pin, digest_bytes, spec_digest,
  profile_digest, validate_revision, revision_digest, blank_digest, validate_blank,
}

-- An artifact whose provider reference is pinned to its own digest.
pub record Pinned (a : ArtifactReference) : Type 0 where
  pub runtime : runtime_valid a.runtime ≡ true
  pub digest : valid_digest a.artifact_digest ≡ true
  pub from_spec : valid_digest a.built_from_spec_digest ≡ true
  pub pinned : contains a.provider_reference (pin a.artifact_digest) ≡ true

validate_artifact-Pinned : (a : ArtifactReference) → validate_artifact a ≡ ok tt → Pinned a
unfolding validate_artifact
validate_artifact-Pinned a h =
    let (_, h1) = >>-eq-ok (validate_format a.format _) _ h in
    let (runtime, h2) = >>-eq-ok (reject (not (runtime_valid a.runtime)) _) _ h1 in
    let (_, h3) = >>-eq-ok (required_string a.provider_reference _ _) _ h2 in
    let (digests, h4) =
      >>-eq-ok
        (reject
          (not (valid_digest a.artifact_digest) || not (valid_digest a.built_from_spec_digest)) _)
        _ h3 in
    let (pinned, _) =
      >>-eq-ok (reject (not (contains a.provider_reference (pin a.artifact_digest))) _) _ h4 in
    let (artifact, from_spec) =
      both (valid_digest a.artifact_digest) (valid_digest a.built_from_spec_digest)
        (reject-eq-ok _ _ digests) in
    record {
      runtime = reject-not (runtime_valid a.runtime) _ runtime;
      digest = artifact;
      from_spec = from_spec;
      pinned = reject-not (contains a.provider_reference (pin a.artifact_digest)) _ pinned;
    }
  where
    both : (p q : Bool) → (not p || not q) ≡ false → (p ≡ true) × (q ≡ true)
    both p q h' = ground arith

runtime_eq_sound : (r s : Runtime) → runtime_eq r s ≡ true → r ≡ s
unfolding runtime_eq
runtime_eq_sound Runtime.node Runtime.node h = refl
runtime_eq_sound Runtime.k8s Runtime.k8s h = refl
runtime_eq_sound (Runtime.other s) (Runtime.other t) h = ap Runtime.other ((text_eq_iff s t).0 h)
runtime_eq_sound Runtime.node Runtime.k8s h = absurd (ground arith)
runtime_eq_sound Runtime.node (Runtime.other t) h = absurd (ground arith)
runtime_eq_sound Runtime.k8s Runtime.node h = absurd (ground arith)
runtime_eq_sound Runtime.k8s (Runtime.other t) h = absurd (ground arith)
runtime_eq_sound (Runtime.other s) Runtime.node h = absurd (ground arith)
runtime_eq_sound (Runtime.other s) Runtime.k8s h = absurd (ground arith)

module _ (codec : Codec) where
  -- The parts of a revision belong together.
  pub record Bound (r : RunnableRevision) : Type 0 where
    pub spec : validate_spec r.spec ≡ ok tt
    pub artifact : Pinned r.artifact
    pub runtime : r.artifact.runtime ≡ r.spec.runtime_profile.runtime
    pub built_from : spec_digest codec r.spec ≡ ok r.artifact.built_from_spec_digest

  -- A revision that passes its check has a valid spec; its artifact is for the runtime of the spec's
  -- profile, was built from exactly that spec by digest, and is pinned by its provider reference.
  pub validate_revision-Bound : (r : RunnableRevision) → validate_revision codec r ≡ ok tt → Bound r
  unfolding validate_revision
  validate_revision-Bound r h =
      let (_, h1) = >>-eq-ok (validate_format r.format _) _ h in
      let (spec, h2) =
        >>-eq-ok (map_err (Error.wrapped "runnable revision spec") (validate_spec r.spec)) _ h1 in
      let (artifact, h3) =
        >>-eq-ok
          (map_err (Error.wrapped "runnable revision artifact") (validate_artifact r.artifact)) _
          h2 in
      let (runtime, h4) =
        >>-eq-ok (reject (not (runtime_eq r.artifact.runtime r.spec.runtime_profile.runtime)) _) _
          h3 in
      let (d, digest, built) =
        >>=-eq-ok
          (map_err (Error.wrapped "runnable revision spec digest") (spec_digest codec r.spec)) _
          h4 in
      record {
        spec = map_err-eq-ok _ (validate_spec r.spec) spec;
        artifact =
            validate_artifact-Pinned r.artifact
              (map_err-eq-ok _ (validate_artifact r.artifact) artifact);
        runtime =
            runtime_eq_sound r.artifact.runtime r.spec.runtime_profile.runtime
              (reject-not (runtime_eq r.artifact.runtime r.spec.runtime_profile.runtime) _ runtime);
        built_from =
            map_err-eq-ok _ (spec_digest codec r.spec) digest
            ∙ ap ok (
                sym (
                  (text_eq_iff r.artifact.built_from_spec_digest d).0
                    (reject-not (text_eq r.artifact.built_from_spec_digest d) _ built)));
      }

  module _ (hash : HexHash codec.sha256_hex) where
    pub digest_bytes-valid :
        (encoded : Result Text) (d : Text)
        → digest_bytes codec encoded ≡ ok d
        → valid_digest d ≡ true
    unfolding digest_bytes
    digest_bytes-valid (err e) d h = absurd (ground arith)
    digest_bytes-valid (ok t) d h =
        let made : digest_prefix ++ codec.sha256_hex t ≡ d = ok_injective h in
        rw made at (valid_digest-prefix (codec.sha256_hex t) (hash.hex t) (hash.size t))
      where
        ok_injective : {a b : Text} → ok a ≡ ok b → a ≡ b
        ok_injective e = ground arith

    -- A digest is only made of a value that passes its check, and passes `ValidDigest` itself: so it
    -- is for specs, profiles, revisions and blank plans. The hash is taken to give 64 hexadecimal
    -- digits.
    pub digests_valid :
        ((s : RunnableSpec) (d : Text)
          → spec_digest codec s ≡ ok d
          → (validate_spec s ≡ ok tt) × (valid_digest d ≡ true))
        × ((p : RuntimeProfile) (d : Text)
            → profile_digest codec p ≡ ok d
            → (validate_profile p ≡ ok tt) × (valid_digest d ≡ true))
        × ((r : RunnableRevision) (d : Text)
            → revision_digest codec r ≡ ok d
            → (validate_revision codec r ≡ ok tt) × (valid_digest d ≡ true))
        × ((b : BlankRuntimePlan) (d : Text)
            → blank_digest codec b ≡ ok d
            → (validate_blank b ≡ ok tt) × (valid_digest d ≡ true))
    unfolding spec_digest profile_digest revision_digest blank_digest
    digests_valid = (
      λ s d h. let (v, e) = >>-eq-ok (validate_spec s) _ h in (v, digest_bytes-valid _ d e),
      λ p d h. let (v, e) = >>-eq-ok (validate_profile p) _ h in (v, digest_bytes-valid _ d e),
      λ r d h.
          let (v, e) = >>-eq-ok (validate_revision codec r) _ h in (v, digest_bytes-valid _ d e),
      λ b d h. let (v, e) = >>-eq-ok (validate_blank b) _ h in (v, digest_bytes-valid _ d e),
    )
