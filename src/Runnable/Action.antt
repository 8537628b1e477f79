-- ===== src/Runnable/Action.antt =====
-- internal/domain/runnable/action.go, action_context.go and persistence.go: the identity of an
-- action, the requests of a worker, the context that it is given, and the stored records.
pub mod Context
pub mod RecordId
use breakfix.Prelude.{
  ℕ, ℤ, pos, negsuc, suc, zero, ◌+◌, ◌-◌, ◌<◌, ◌≤◌, ◌≤ℤ◌, String, Bool, true, false, not, ◌&&◌,
  ◌||◌, List, [], ◌∷◌, ◌++◌, ◌≡◌, refl, arith, map, Option, none, some, ltb, leb, ltb_ℤ, leb_ℤ,
  ◌==◌, length, if◌then◌else◌, take,
}
use breakfix.Text.{Text, codes, text_eq, is_empty}
use breakfix.Text.Path.{join}
use breakfix.Errors.{Field, Error, Result, ok, err, Check, reject, map_err, is_ok, ◌>>=◌, ◌>>◌}
use breakfix.Errors.Render.{digits}
use breakfix.Runnable.Kinds.{
  ActionPhase, phase_valid, phase_text, is_materialize, is_verify, FailureClass,
}
use breakfix.Runnable.Model.{
  ContentIdentity, RunnableSpec, RunnableRevision, VerificationReport, Time, max_id_length,
}
use breakfix.Runnable.Ident.{valid_digest, validate_id, required_string}
use breakfix.Runnable.Profile.{is_positive, validate_identity, identity_eq}
use breakfix.Runnable.Spec.{Codec, validate_spec, spec_digest, validate_revision, revision_digest}
use breakfix.Runnable.Outcome.{validate_report, report_digest}

pub record ActionIdentity : Type 0 where
  pub content : ContentIdentity
  pub spec_digest : Text
  pub phase : ActionPhase
  pub state_version : ℤ

unfoldable pub validate_action_identity : ActionIdentity → Check
validate_action_identity i = do
  map_err (Error.wrapped "runnable action content") (validate_identity i.content)
  reject (not (valid_digest i.spec_digest))
      (Error.invalid (Field.name "action.spec_digest") "must be a sha256 digest")
  reject (not (phase_valid i.phase) || not (is_positive i.state_version))
      (Error.invalid (Field.name "action") "has an invalid phase or state version")

-- fmt.Sprintf("%d", n)
unfoldable pub int_text : ℤ → Text
unfolding digits
int_text (pos n) = digits (suc n) n
int_text (negsuc n) = codes "-" ++ digits (suc (suc n)) (suc n)

-- `ActionIdentity.Key`: strings.Join of the parts with a slash
unfoldable pub action_key : ActionIdentity → Text
unfolding int_text join
action_key i = join (
    i.content.kind
    ∷ i.content.id
    ∷ i.content.revision
    ∷ i.spec_digest
    ∷ phase_text i.phase
    ∷ int_text i.state_version
    ∷ [])

pub record LeaseCredential : Type 0 where
  pub identity : ActionIdentity
  pub lease_owner : Text

unfoldable pub validate_credential : LeaseCredential → Check
validate_credential c = do
  validate_action_identity c.identity
  required_string c.lease_owner (Field.name "action.lease_owner") max_id_length

pub record RevisionReference : Type 0 where
  pub id : Text
  pub digest : Text

unfoldable pub validate_revision_reference : RevisionReference → Check
validate_revision_reference r = do
  validate_id r.id (Field.name "runnable_revision_reference.id")
  reject (not (valid_digest r.digest))
      (Error.invalid (Field.name "runnable_revision_reference.digest") "must be a sha256 digest")

-- VerificationReportReference
pub record ReportReference : Type 0 where
  pub id : Text
  pub digest : Text

unfoldable pub validate_report_reference : ReportReference → Check
validate_report_reference r = do
  validate_id r.id (Field.name "verification_report_reference.id")
  reject (not (valid_digest r.digest))
      (Error.invalid (Field.name "verification_report_reference.digest") "must be a sha256 digest")

pub record MaterializeRequest : Type 0 where
  pub credential : LeaseCredential
  pub spec : RunnableSpec

pub record VerifyRequest : Type 0 where
  pub credential : LeaseCredential
  pub revision : RunnableRevision
  pub revision_ref : RevisionReference
  pub digest : Text
  pub attempt : ℤ

pub record StoredRevision : Type 0 where
  pub reference : RevisionReference
  pub revision : RunnableRevision
  pub created_at : Time

-- StoredVerificationReport
pub record StoredReport : Type 0 where
  pub reference : ReportReference
  pub report : VerificationReport
  pub revision : RunnableRevision
  pub created_at : Time

-- The pointers of the context are nil where the option is `none`; a reference that was left out is
-- the zero reference.
pub record ActionContext : Type 0 where
  pub credential : LeaseCredential
  pub attempt : ℤ
  pub spec : Option RunnableSpec
  pub revision : Option RunnableRevision
  pub revision_ref : RevisionReference
  pub digest : Text

abbrev pub quote : ℕ
quote = 34

module _ (codec : Codec) where
  -- `RecordID`
  unfoldable pub record_id : (prefix : Text) → ActionIdentity → Text
  unfolding action_key
  record_id prefix identity =
      prefix
      ++ codes "-"
      ++ take (max_id_length - length prefix - 1) (codec.sha256_hex (action_key identity))

  -- `VerificationEnvironmentName`
  unfoldable pub environment_name : RevisionReference → (attempt : ℤ) → Text
  unfolding int_text
  environment_name reference attempt =
      codes "run-" ++ take 24 (codec.sha256_hex (reference.id ++ 0 ∷ int_text attempt))

  unfoldable pub validate_materialize : MaterializeRequest → Check
  validate_materialize r = do
    validate_credential r.credential
    reject (not (is_materialize r.credential.identity.phase))
        (Error.plain "runnable materialize request has the wrong action phase")
    validate_spec r.spec
    digest ← spec_digest codec r.spec
    reject
        (not (text_eq r.credential.identity.spec_digest digest)
          || not (identity_eq r.credential.identity.content r.spec.identity))
        (Error.plain "runnable materialize request identity does not match spec")

  unfoldable pub validate_verify : VerifyRequest → Check
  validate_verify r = do
    validate_credential r.credential
    reject (not (is_verify r.credential.identity.phase))
        (Error.plain "runnable verify request has the wrong action phase")
    validate_revision codec r.revision
    of_spec ← spec_digest codec r.revision.spec
    of_revision ← revision_digest codec r.revision
    reject
        (not (is_ok (validate_revision_reference r.revision_ref))
          || (not (text_eq r.credential.identity.spec_digest of_spec)
              || (not (identity_eq r.credential.identity.content r.revision.spec.identity)
                  || (not (text_eq r.digest of_revision)
                      || (not (text_eq r.revision_ref.digest of_revision)
                          || not (is_positive r.attempt))))))
        (Error.plain "runnable verify request identity does not match revision")

  unfoldable pub validate_stored_revision : StoredRevision → Check
  validate_stored_revision r = do
    validate_revision_reference r.reference
    validate_revision codec r.revision
    digest ← revision_digest codec r.revision
    reject (not (text_eq r.reference.digest digest) || r.created_at == 0)
        (Error.plain "stored runnable revision has an invalid digest or creation time")

  unfoldable pub validate_stored_report : StoredReport → Check
  validate_stored_report r = do
    validate_report_reference r.reference
    validate_report codec r.revision r.report
    digest ← report_digest codec r.revision r.report
    reject (not (text_eq r.reference.digest digest) || r.created_at == 0)
        (Error.plain "stored verification report has an invalid digest or creation time")

  -- The case of ActionMaterializeArtifact.
  unfoldable pub materialize_input :
      ActionContext → Option RunnableSpec → Option RunnableRevision → Check
  materialize_input c (some spec) none = do
    reject
        (not (is_empty c.digest)
          || not (is_empty c.revision_ref.id && is_empty c.revision_ref.digest))
        (Error.plain "runnable materialization action has an invalid input")
    validate_materialize (record { credential = c.credential; spec = spec })
  materialize_input c _ _ = err (Error.plain "runnable materialization action has an invalid input")

  -- The case of ActionVerify.
  unfoldable pub verify_input :
      ActionContext → Option RunnableSpec → Option RunnableRevision → Check
  verify_input c none (some revision) = do
    reject
        (not (is_ok (validate_revision_reference c.revision_ref))
          || (not (valid_digest c.digest) || not (text_eq c.revision_ref.digest c.digest)))
        (Error.plain "runnable verification action has an invalid input")
    validate_verify (record {
      credential = c.credential;
      revision = revision;
      revision_ref = c.revision_ref;
      digest = c.digest;
      attempt = c.attempt;
    })
  verify_input c _ _ = err (Error.plain "runnable verification action has an invalid input")

  -- The switch on the phase.
  unfoldable pub validate_input : ActionContext → ActionPhase → Check
  unfolding materialize_input verify_input
  validate_input c ActionPhase.materialize_artifact = materialize_input c c.spec c.revision
  validate_input c ActionPhase.verify = verify_input c c.spec c.revision
  validate_input c (ActionPhase.other s) =
      err
        (Error.external (codes "runnable action has unsupported phase " ++ quote ∷ s ++ quote ∷ []))

  unfoldable pub validate_context : ActionContext → Check
  unfolding validate_input
  validate_context c = do
    validate_credential c.credential
    reject (not (is_positive c.attempt)) (Error.plain "runnable action has an invalid attempt")
    validate_input c c.credential.identity.phase
