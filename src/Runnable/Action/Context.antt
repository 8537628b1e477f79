-- ===== src/Runnable/Action/Context.antt =====
-- internal/domain/runnable/action_context.go and action.go: what a context that passed its check
-- binds together.
use breakfix.Prelude.{
  Bool, true, false, not, ◌||◌, ◌&&◌, [], ◌∷◌, ◌≡◌, ◌⊎◌, inl, inr, refl, arith, ap, sym, ◌∙◌,
  Option, none, some,
}
use breakfix.Text.{Text, is_empty, text_eq}
use breakfix.Text.Laws.{text_eq_iff}
use breakfix.Errors.{ok, reject, is_ok, is_ok-eq, >>-eq-ok, >>=-eq-ok, reject-eq-ok}
use breakfix.Runnable.Kinds.{ActionPhase, is_materialize, is_verify}
use breakfix.Runnable.Model.{RunnableSpec, RunnableRevision}
use breakfix.Runnable.Ident.{valid_digest}
use breakfix.Runnable.Profile.{is_positive, identity_eq}
use breakfix.Runnable.Profile.Approved.{identity_eq_sound}
use breakfix.Runnable.Spec.{Codec, validate_spec, spec_digest, validate_revision, revision_digest}
use breakfix.Runnable.Action.{
  ActionContext, MaterializeRequest, VerifyRequest, validate_credential,
  validate_revision_reference, validate_materialize, validate_verify, materialize_input,
  verify_input, validate_input, validate_context,
}

-- The context carries exactly a spec, whose digest and identity are those of the credential: its
-- other fields are zero values.
pub record MaterializeInput (codec : Codec) (c : ActionContext) : Type 0 where
  pub spec : RunnableSpec
  pub given : c.spec ≡ some spec
  pub no_revision : c.revision ≡ none
  pub no_digest : c.digest ≡ []
  pub no_reference_id : c.revision_ref.id ≡ []
  pub no_reference_digest : c.revision_ref.digest ≡ []
  pub valid : validate_spec spec ≡ ok tt
  pub bound : spec_digest codec spec ≡ ok c.credential.identity.spec_digest
  pub content : c.credential.identity.content ≡ spec.identity

-- The context carries exactly a revision; the digests that it states are those of the revision.
pub record VerifyInput (codec : Codec) (c : ActionContext) : Type 0 where
  pub revision : RunnableRevision
  pub given : c.revision ≡ some revision
  pub no_spec : c.spec ≡ none
  pub valid : validate_revision codec revision ≡ ok tt
  pub bound : revision_digest codec revision ≡ ok c.digest
  pub referenced : c.revision_ref.digest ≡ c.digest
  pub reference_valid : validate_revision_reference c.revision_ref ≡ ok tt
  pub spec_bound : spec_digest codec revision.spec ≡ ok c.credential.identity.spec_digest
  pub content : c.credential.identity.content ≡ revision.spec.identity

both : (a b : Bool) → (not a || not b) ≡ false → (a ≡ true) × (b ≡ true)
both a b h = ground arith

nothing_else :
    (a b c : Bool) → (not a || not (b && c)) ≡ false → (a ≡ true) × (b ≡ true) × (c ≡ true)
nothing_else a b c h = ground arith

first_of_two : (a b : Bool) → (not a || b) ≡ false → (a ≡ true) × (b ≡ false)
first_of_two a b h = ground arith

all_of_five :
    (a b c d e : Bool)
    → (not a || (not b || (not c || (not d || not e)))) ≡ false
    → (a ≡ true) × (b ≡ true) × (c ≡ true) × (d ≡ true) × (e ≡ true)
all_of_five a b c d e h = ground arith

nothing : (t : Text) → is_empty t ≡ true → t ≡ []
nothing [] h = refl
nothing (c ∷ t) h = absurd (ground arith)

module _ (codec : Codec) where
  materialize_bound :
      (r : MaterializeRequest)
      → validate_materialize codec r ≡ ok tt
      → (validate_spec r.spec ≡ ok tt)
        × (spec_digest codec r.spec ≡ ok r.credential.identity.spec_digest)
        × (r.credential.identity.content ≡ r.spec.identity)
  unfolding validate_materialize
  materialize_bound r h =
      let (_, h1) = >>-eq-ok (validate_credential r.credential) _ h in
      let (_, h2) = >>-eq-ok (reject (not (is_materialize r.credential.identity.phase)) _) _ h1 in
      let (valid, h3) = >>-eq-ok (validate_spec r.spec) _ h2 in
      let (d, digest, h4) = >>=-eq-ok (spec_digest codec r.spec) _ h3 in
      let (same, owned) =
        both (text_eq r.credential.identity.spec_digest d) _ (reject-eq-ok _ _ h4) in
      (
        valid,
        digest ∙ ap ok (sym ((text_eq_iff r.credential.identity.spec_digest d).0 same)),
        identity_eq_sound r.credential.identity.content r.spec.identity owned,
      )

  pub verify_bound :
      (r : VerifyRequest)
      → validate_verify codec r ≡ ok tt
      → (validate_revision codec r.revision ≡ ok tt)
        × (revision_digest codec r.revision ≡ ok r.digest)
        × (r.revision_ref.digest ≡ r.digest)
        × (spec_digest codec r.revision.spec ≡ ok r.credential.identity.spec_digest)
        × (r.credential.identity.content ≡ r.revision.spec.identity)
        × (is_positive r.attempt ≡ true)
  unfolding validate_verify
  verify_bound r h =
      let (_, h1) = >>-eq-ok (validate_credential r.credential) _ h in
      let (_, h2) = >>-eq-ok (reject (not (is_verify r.credential.identity.phase)) _) _ h1 in
      let (valid, h3) = >>-eq-ok (validate_revision codec r.revision) _ h2 in
      let (d, of_spec, h4) = >>=-eq-ok (spec_digest codec r.revision.spec) _ h3 in
      let (e, of_revision, h5) = >>=-eq-ok (revision_digest codec r.revision) _ h4 in
      let (_, t1) =
        first_of_two (is_ok (validate_revision_reference r.revision_ref)) _ (reject-eq-ok _ _ h5) in
      let (same_spec, owned, same_digest, same_ref, attempted) =
        all_of_five (text_eq r.credential.identity.spec_digest d)
          (identity_eq r.credential.identity.content r.revision.spec.identity) (text_eq r.digest e)
          (text_eq r.revision_ref.digest e) _ t1 in
      let digest : r.digest ≡ e = (text_eq_iff r.digest e).0 same_digest in
      (
        valid,
        of_revision ∙ ap ok (sym digest),
        (text_eq_iff r.revision_ref.digest e).0 same_ref ∙ sym digest,
        of_spec ∙ ap ok (sym ((text_eq_iff r.credential.identity.spec_digest d).0 same_spec)),
        identity_eq_sound r.credential.identity.content r.revision.spec.identity owned,
        attempted,
      )

  materialize_case :
      (c : ActionContext) (spec : Option RunnableSpec) (revision : Option RunnableRevision)
      → c.spec ≡ spec
      → c.revision ≡ revision
      → materialize_input codec c spec revision ≡ ok tt
      → MaterializeInput codec c
  unfolding materialize_input
  materialize_case c (some spec) none s r h =
      let (blank, h1) =
        >>-eq-ok
          (reject
            (not (is_empty c.digest)
              || not (is_empty c.revision_ref.id && is_empty c.revision_ref.digest))
            _)
          _ h in
      let (empty, no_id, no_text) =
        nothing_else (is_empty c.digest) (is_empty c.revision_ref.id)
          (is_empty c.revision_ref.digest) (reject-eq-ok _ _ blank) in
      let (valid, bound, content) =
        materialize_bound (record { credential = c.credential; spec = spec }) h1 in
      record {
        spec = spec;
        given = s;
        no_revision = r;
        no_digest = nothing c.digest empty;
        no_reference_id = nothing c.revision_ref.id no_id;
        no_reference_digest = nothing c.revision_ref.digest no_text;
        valid = valid;
        bound = bound;
        content = content;
      }
  materialize_case c none revision s r h = absurd (ground arith)
  materialize_case c (some spec) (some revision) s r h = absurd (ground arith)

  verify_case :
      (c : ActionContext) (spec : Option RunnableSpec) (revision : Option RunnableRevision)
      → c.spec ≡ spec
      → c.revision ≡ revision
      → verify_input codec c spec revision ≡ ok tt
      → VerifyInput codec c
  unfolding verify_input
  verify_case c none (some revision) s r h =
      let (given, h1) =
        >>-eq-ok
          (reject
            (not (is_ok (validate_revision_reference c.revision_ref))
              || (not (valid_digest c.digest) || not (text_eq c.revision_ref.digest c.digest)))
            _)
          _ h in
      let (reference, _) =
        first_of_two (is_ok (validate_revision_reference c.revision_ref)) _
          (reject-eq-ok _ _ given) in
      let (valid, bound, referenced, spec_bound, content, _) =
        verify_bound
          (record {
            credential = c.credential;
            revision = revision;
            revision_ref = c.revision_ref;
            digest = c.digest;
            attempt = c.attempt;
          })
          h1 in
      record {
        revision = revision;
        given = r;
        no_spec = s;
        valid = valid;
        bound = bound;
        referenced = referenced;
        reference_valid = is_ok-eq (validate_revision_reference c.revision_ref) reference;
        spec_bound = spec_bound;
        content = content;
      }
  verify_case c none none s r h = absurd (ground arith)
  verify_case c (some spec) revision s r h = absurd (ground arith)

  input_case :
      (c : ActionContext) (phase : ActionPhase)
      → validate_input codec c phase ≡ ok tt
      → ((phase ≡ ActionPhase.materialize_artifact) × MaterializeInput codec c)
        ⊎ ((phase ≡ ActionPhase.verify) × VerifyInput codec c)
  unfolding validate_input
  input_case c ActionPhase.materialize_artifact h =
      inl (refl, materialize_case c c.spec c.revision refl refl h)
  input_case c ActionPhase.verify h = inr (refl, verify_case c c.spec c.revision refl refl h)
  input_case c (ActionPhase.other s) h = absurd (ground arith)

  -- A context that passes its check is for one of the two phases, and carries exactly what that phase
  -- works on: to materialize, a valid spec and nothing else, no revision, digest or reference; to
  -- verify, a valid revision with a valid reference and no spec.
  -- The digests and the identity that the credential and the references state are those of the spec
  -- or the revision carried.
  pub validate_context-input :
      (c : ActionContext)
      → validate_context codec c ≡ ok tt
      → ((c.credential.identity.phase ≡ ActionPhase.materialize_artifact)
          × MaterializeInput codec c)
        ⊎ ((c.credential.identity.phase ≡ ActionPhase.verify) × VerifyInput codec c)
  unfolding validate_context
  validate_context-input c h =
      let (_, h1) = >>-eq-ok (validate_credential c.credential) _ h in
      let (_, h2) = >>-eq-ok (reject (not (is_positive c.attempt)) _) _ h1 in
      input_case c c.credential.identity.phase h2
