-- ===== src/Repository/Contexts.antt =====
-- internal/adapter/postgres/runnable_repository.go: the contexts of stored actions pass their check.
use breakfix.Prelude.{ℕ, pos, ◌<◌, Bool, true, not, ◌||◌, [], none, some, ◌≡◌, refl, arith, ap, ◌∙◌}
use breakfix.Text.{Text, text_eq}
use breakfix.Text.Laws.{text_eq_iff, text_eq_self}
use breakfix.Text.Dict.{Values-lookup}
use breakfix.Errors.{Field, Error, ok, reject, is_ok, >>-eq-ok, >>-ok_iff, reject-not, bind_ok}
use breakfix.Runnable.Kinds.{ActionPhase, is_materialize, is_verify}
use breakfix.Runnable.Model.{RunnableSpec, RunnableRevision, ContentIdentity, max_id_length}
use breakfix.Runnable.Ident.{required_string, valid_digest, validate_id}
use breakfix.Runnable.Profile.{is_positive, identity_eq}
use breakfix.Runnable.Spec.{Codec, validate_spec, spec_digest, validate_revision, revision_digest}
use breakfix.Runnable.Action.{
  LeaseCredential, RevisionReference, VerifyRequest, ActionContext, validate_action_identity,
  validate_credential, validate_materialize, validate_verify, validate_revision_reference,
  validate_context, validate_input, materialize_input, verify_input,
}
use breakfix.Repository.{ActionRow, Tables}
use breakfix.Repository.Actions.{no_reference}
use breakfix.Repository.Valid.{IsSpec, IsRevision, IsTables, SpecOf, RevisionOf, revision_of-All}

identity_self : (v : ContentIdentity) → identity_eq v v ≡ true
unfolding identity_eq
identity_self v = ground (arith, text_eq_self v.kind, text_eq_self v.id, text_eq_self v.revision)

same_content : (v w : ContentIdentity) → v ≡ w → identity_eq v w ≡ true
same_content v w h = rw h (identity_self w)

positive : (n : ℕ) → 0 < n → is_positive (pos n) ≡ true
positive n h = ground arith

attempted : (n : ℕ) (e : Error) → 0 < n → reject (not (is_positive (pos n))) e ≡ ok tt
attempted n e h = ground arith

reference_digest :
    (r : RevisionReference) → validate_revision_reference r ≡ ok tt → valid_digest r.digest ≡ true
unfolding validate_revision_reference
reference_digest r h =
    let (_, h1) = >>-eq-ok (validate_id r.id _) _ h in reject-not (valid_digest r.digest) _ h1

referenced :
    (r : RevisionReference) (e : Error)
    → validate_revision_reference r ≡ ok tt
    → reject
        (not (is_ok (validate_revision_reference r))
          || (not (valid_digest r.digest) || not (text_eq r.digest r.digest)))
        e
      ≡ ok tt
referenced r e h = rw (h, reference_digest r h, text_eq_self r.digest) refl

none_rejected : (p q : Bool) (e : Error) → p ≡ true → q ≡ true → reject (not p || not q) e ≡ ok tt
none_rejected p q e h k = ground arith

module _ (codec : Codec) where
  spec_of_digest :
      (spec : RunnableSpec) (d : Text) → spec_digest codec spec ≡ ok d → validate_spec spec ≡ ok tt
  unfolding spec_digest
  spec_of_digest spec d h = (>>-eq-ok (validate_spec spec) _ h).0

  materialize_at :
      (c : ActionContext) (p : ActionPhase)
      → p ≡ ActionPhase.materialize_artifact
      → validate_input codec c p ≡ materialize_input codec c c.spec c.revision
  unfolding validate_input
  materialize_at c p h = rw h refl

  verify_at :
      (c : ActionContext) (p : ActionPhase)
      → p ≡ ActionPhase.verify
      → validate_input codec c p ≡ verify_input codec c c.spec c.revision
  unfolding validate_input
  verify_at c p h = rw h refl

  -- A request to materialize a stored spec passes its check.
  materialize_valid :
      (c : LeaseCredential) (spec : RunnableSpec)
      → validate_credential c ≡ ok tt
      → c.identity.phase ≡ ActionPhase.materialize_artifact
      → spec_digest codec spec ≡ ok c.identity.spec_digest
      → c.identity.content ≡ spec.identity
      → validate_materialize codec (record { credential = c; spec = spec }) ≡ ok tt
  unfolding validate_materialize is_materialize
  materialize_valid c spec valid phase digest content = (>>-ok_iff (validate_credential c) _).1 (
    valid,
    (>>-ok_iff (reject (not (is_materialize c.identity.phase)) _) _).1 (
      ground arith,
      (>>-ok_iff (validate_spec spec) _).1 (
        spec_of_digest spec c.identity.spec_digest digest,
        bind_ok (spec_digest codec spec) _ digest (
            none_rejected (text_eq c.identity.spec_digest c.identity.spec_digest)
              (identity_eq c.identity.content spec.identity) _ (text_eq_self c.identity.spec_digest)
              (same_content c.identity.content spec.identity content)),
      ),
    ),
  )

  -- A request to verify a stored revision passes its check.
  verify_valid :
      (r : VerifyRequest)
      → validate_credential r.credential ≡ ok tt
      → r.credential.identity.phase ≡ ActionPhase.verify
      → validate_revision codec r.revision ≡ ok tt
      → spec_digest codec r.revision.spec ≡ ok r.credential.identity.spec_digest
      → revision_digest codec r.revision ≡ ok r.digest
      → r.credential.identity.content ≡ r.revision.spec.identity
      → validate_revision_reference r.revision_ref ≡ ok tt
      → r.revision_ref.digest ≡ r.digest
      → is_positive r.attempt ≡ true
      → validate_verify codec r ≡ ok tt
  unfolding validate_verify is_verify
  verify_valid r valid phase v of_spec of_revision content reference at attempted =
      (>>-ok_iff (validate_credential r.credential) _).1 (
        valid,
        (>>-ok_iff (reject (not (is_verify r.credential.identity.phase)) _) _).1 (
          ground arith,
          (>>-ok_iff (validate_revision codec r.revision) _).1 (
            v,
            bind_ok (spec_digest codec r.revision.spec) _ of_spec (
                bind_ok (revision_digest codec r.revision) _ of_revision (
                  ground (
                    arith,
                    text_eq_self r.credential.identity.spec_digest,
                    same_content r.credential.identity.content r.revision.spec.identity content,
                    text_eq_self r.digest,
                    text_eq_iff r.revision_ref.digest r.digest,
                  ))),
          ),
        ),
      )

  revision_of_digest :
      (revision : RunnableRevision) (d : Text)
      → revision_digest codec revision ≡ ok d
      → validate_revision codec revision ≡ ok tt
  unfolding revision_digest
  revision_of_digest revision d h = (>>-eq-ok (validate_revision codec revision) _ h).0

  module _ (t : Tables) (owner : Text) (r : ActionRow)
      (owned : required_string owner (Field.name "action.lease_owner") max_id_length ≡ ok tt)
      (identity : validate_action_identity r.identity ≡ ok tt) (tried : 0 < r.attempt)
      (valid : IsTables codec t) where
    abbrev held : LeaseCredential
    held = record { identity = r.identity; lease_owner = owner }

    abbrev pub spec_input : SpecOf codec t r.identity → ActionContext
    spec_input s = record {
      credential = held;
      attempt = pos (r.attempt);
      spec = some (s.row.spec);
      revision = none;
      revision_ref = no_reference;
      digest = [];
    }

    abbrev pub revision_input : (d : Text) → RevisionOf codec t r.identity d → ActionContext
    revision_input d s = record {
      credential = held;
      attempt = pos (r.attempt);
      spec = none;
      revision = some (s.row.revision);
      revision_ref = record { id = s.row.id; digest = d };
      digest = d;
    }

    held_valid : validate_credential held ≡ ok tt
    unfolding validate_credential
    held_valid = (>>-ok_iff (validate_action_identity r.identity) _).1 (identity, owned)

    context_of_input :
        (c : ActionContext)
        → c.credential ≡ held
        → c.attempt ≡ pos (r.attempt)
        → validate_input codec c r.identity.phase ≡ ok tt
        → validate_context codec c ≡ ok tt
    unfolding validate_context
    context_of_input c k a h = (>>-ok_iff (validate_credential c.credential) _).1 (
      ap (validate_credential) k ∙ held_valid,
      (>>-ok_iff (reject (not (is_positive c.attempt)) _) _).1 (
        ap
              (λ n.
                reject (not (is_positive n)) (Error.plain "runnable action has an invalid attempt"))
              a
            ∙ attempted r.attempt _ tried,
        ap (λ i. validate_input codec c i.identity.phase) k ∙ h,
      ),
    )

    -- The context of a stored spec passes its check.
    pub spec_context :
        (s : SpecOf codec t r.identity)
        → r.identity.phase ≡ ActionPhase.materialize_artifact
        → validate_context codec (spec_input s) ≡ ok tt
    unfolding validate_context materialize_input
    spec_context s phase = context_of_input (spec_input s) refl refl (
        materialize_at (spec_input s) r.identity.phase phase
        ∙ materialize_valid held s.row.spec held_valid phase
            (Values-lookup (IsSpec codec) r.identity.spec_digest t.specs valid.specs s.found)
            s.content)

    pub revision_context :
        (d : Text) (s : RevisionOf codec t r.identity d)
        → r.identity.phase ≡ ActionPhase.verify
        → validate_context codec (revision_input d s) ≡ ok tt
    unfolding verify_input
    revision_context d s phase =
        let (v, at) =
          revision_of-All (IsRevision codec) d t.revisions {r = s.row} valid.revisions s.found in
        let reference : validate_revision_reference (record { id = s.row.id; digest = d }) ≡ ok tt =
          rw at at (v.reference) in
        let digest : revision_digest codec s.row.revision ≡ ok d = v.digest ∙ ap ok at in
        let request : VerifyRequest = record {
          credential = held;
          revision = s.row.revision;
          revision_ref = record { id = s.row.id; digest = d };
          digest = d;
          attempt = pos (r.attempt);
        } in
        context_of_input (revision_input d s) refl refl (
          verify_at (revision_input d s) r.identity.phase phase
          ∙ (>>-ok_iff (reject _ _) _).1 (
            referenced (record { id = s.row.id; digest = d }) _ reference,
            verify_valid request held_valid phase (revision_of_digest s.row.revision d digest)
                s.bound digest s.content reference refl (positive r.attempt tried),
          ))
