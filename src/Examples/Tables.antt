-- ===== src/Examples/Tables.antt =====
-- The tables of the repository over a few calls: a source is stored, a materialization is scheduled,
-- claimed, and completed.
use breakfix.Prelude.{
  ◌≡◌, refl, ◌∷◌, [], none, some, false, pos, arith, sym, ◌∙◌, ◌++◌, if◌then◌else◌,
}
use breakfix.Text.{Text, codes}
use breakfix.Errors.{Error, ok, err, >>-eq-ok}
use breakfix.Runnable.Kinds.{ActionPhase, FailureClass}
use breakfix.Runnable.Model.{RunnableSpec}
use breakfix.Runnable.Profile.{identity_eq}
use breakfix.Runnable.Profile.Approved.{identity_eq_sound}
use breakfix.Runnable.Spec.{Codec, spec_digest, validate_spec, digest_bytes}
use breakfix.Runnable.Action.{
  ActionIdentity, ActionContext, LeaseCredential, StoredRevision, action_key,
}
use breakfix.Repository.{ActionState, ActionRow, Tables, Backend, held_row, row_completed}
use breakfix.Repository.Records.{store_source}
use breakfix.Repository.Actions.{claim_action, no_reference}
use breakfix.Repository.Scheduling.{schedule_materialization}
use breakfix.Repository.Completions.{complete_materialization}
use breakfix.Repository.Schedules.{SpecsApart}
use breakfix.Repository.History.{no_tables}
use breakfix.Examples.Data.{spec, revision, codec, digest, identity}

-- The encoding of the data, for the content of the spec only.
abbrev pub narrow : Codec
narrow = record codec {
  marshal_spec = λ s. if identity_eq s.identity identity then ok [] else err (Error.plain "other");
}

abbrev pub backend : Backend
backend = record {
  codec = narrow;
  marshal_capture = λ c. ok [];
  parse_capture = λ t. ok (record { stdout = []; stderr = [] });
  decode_capture = λ t. ok (record { stdout = []; stderr = [] });
  collate = λ k j. false;
}

encoded_content :
    (s : RunnableSpec) (d : Text) → spec_digest narrow s ≡ ok d → s.identity ≡ identity
unfolding spec_digest digest_bytes
encoded_content s d h =
    let (_, h1) = >>-eq-ok (validate_spec s) _ h in
    identity_eq_sound s.identity identity (ground arith)

pub apart : SpecsApart narrow
apart = record { content = λ s s' d h k. encoded_content s d h ∙ sym (encoded_content s' d k) }

abbrev pub source_stored : Tables
source_stored = record no_tables { sources = (digest, codes "zip") ∷ [] }

abbrev pub action : ActionIdentity
action = record {
  content = identity;
  spec_digest = digest;
  phase = ActionPhase.materialize_artifact;
  state_version = pos 1;
}

abbrev pub key : Text
key = codes "lab/disk/1/" ++ digest ++ codes "/materialize-artifact/1"

abbrev queued_row : ActionRow
queued_row = record {
  identity = action;
  revision_digest = none;
  state = ActionState.queued;
  attempt = 0;
  lease_owner = [];
  lease_expires = none;
  next_run_at = 5;
  failure_class = none;
  failure_code = [];
  failure_summary = [];
  created_at = 5;
  updated_at = 5;
  completed_at = none;
}

abbrev pub scheduled : Tables
scheduled = record source_stored {
  specs = (digest, record { spec = spec; created_at = 5 }) ∷ [];
  actions = (key, queued_row) ∷ [];
}

abbrev pub running_row : ActionRow
running_row = record queued_row {
  state = ActionState.running;
  attempt = 1;
  lease_owner = codes "w";
  lease_expires = some 106;
  updated_at = 6;
}

abbrev pub running : Tables
running = record scheduled { actions = (key, running_row) ∷ [] }

abbrev pub context : ActionContext
context = record {
  credential = record { identity = action; lease_owner = codes "w" };
  attempt = pos 1;
  spec = some spec;
  revision = none;
  revision_ref = no_reference;
  digest = [];
}

abbrev pub stored : StoredRevision
stored = record {
  reference = record { id = codes "rr-1"; digest = digest };
  revision = revision;
  created_at = 7;
}

abbrev pub finished_row : ActionRow
finished_row = record running_row {
  revision_digest = some digest;
  state = ActionState.completed;
  lease_owner = [];
  lease_expires = none;
  updated_at = 8;
  completed_at = some 8;
}

abbrev pub completed : Tables
completed = record running {
  revisions =
      record {
        id = codes "rr-1";
        digest = digest;
        spec_digest = digest;
        revision = revision;
        created_at = 7;
      }
      ∷ [];
  actions = (key, finished_row) ∷ [];
}

pub source_kept : store_source narrow spec.source (codes "zip") 4 no_tables ≡ ok source_stored
unfolding breakfix.Text.contains breakfix.Text.all breakfix.Runnable.Ident.valid_digest
    breakfix.Runnable.Ident.required_string breakfix.Runnable.Ident.validate_format
    breakfix.Runnable.Profile.validate_source breakfix.Text.Dict.lookup breakfix.Text.Dict.insert
    breakfix.Repository.Records.store_source
source_kept = refl

pub action_enqueued :
    schedule_materialization backend spec (pos 1) 5 source_stored ≡ (ok action, scheduled)
unfolding breakfix.Text.all breakfix.Text.member breakfix.Runnable.Ident.valid_digest
    breakfix.Runnable.Ident.validate_id breakfix.Runnable.Ident.required_string
    breakfix.Runnable.Ident.validate_format breakfix.Runnable.Kinds.runtime_valid
    breakfix.Runnable.Kinds.permission_valid breakfix.Runnable.Kinds.network_valid
    breakfix.Runnable.Kinds.execution_valid breakfix.Runnable.Kinds.phase_valid
    breakfix.Runnable.Kinds.is_read_write breakfix.Runnable.Kinds.is_read_only
    breakfix.Runnable.Kinds.phase_text breakfix.Runnable.Profile.validate_identity
    breakfix.Runnable.Profile.identity_eq breakfix.Runnable.Profile.validate_resources
    breakfix.Runnable.Profile.validate_target breakfix.Runnable.Profile.validate_boundary
    breakfix.Runnable.Profile.validate_versions breakfix.Runnable.Profile.validate_boundaries
    breakfix.Runnable.Profile.validate_profile breakfix.Runnable.Profile.validate_source
    breakfix.Runnable.Plan.validate_entrypoint breakfix.Runnable.Plan.select_boundary
    breakfix.Runnable.Plan.timeout_ok breakfix.Runnable.Plan.is_sorted
    breakfix.Runnable.Plan.exit_codes_ok breakfix.Runnable.Plan.validate_action
    breakfix.Runnable.Plan.validate_assertion breakfix.Runnable.Plan.validate_phase_shape
    breakfix.Runnable.Plan.validate_phase breakfix.Runnable.Plan.validate_phases
    breakfix.Runnable.Plan.validate_plan breakfix.Runnable.Plan.validate_lifecycle
    breakfix.Runnable.Unique.each_unique breakfix.Runnable.Spec.validate_initialization
    breakfix.Runnable.Spec.reject_reserved breakfix.Runnable.Spec.validate_spec
    breakfix.Runnable.Spec.digest_bytes breakfix.Runnable.Spec.spec_digest breakfix.Text.Dict.lookup
    breakfix.Text.Dict.insert breakfix.Runnable.Action.validate_action_identity
    breakfix.Runnable.Action.action_key breakfix.Repository.Records.store_spec
    breakfix.Repository.Records.require_source
    breakfix.Repository.Scheduling.schedule_materialization
action_enqueued = refl

pub action_claimed :
    claim_action backend (codes "w") (pos 100) 6 (λ k. false) scheduled ≡ ok (some context, running)
unfolding breakfix.Text.all breakfix.Text.member breakfix.Runnable.Ident.valid_digest
    breakfix.Runnable.Ident.validate_id breakfix.Runnable.Ident.required_string
    breakfix.Runnable.Ident.validate_format breakfix.Runnable.Kinds.runtime_valid
    breakfix.Runnable.Kinds.permission_valid breakfix.Runnable.Kinds.network_valid
    breakfix.Runnable.Kinds.execution_valid breakfix.Runnable.Kinds.phase_valid
    breakfix.Runnable.Kinds.is_read_write breakfix.Runnable.Kinds.is_read_only
    breakfix.Runnable.Kinds.is_materialize breakfix.Runnable.Profile.validate_identity
    breakfix.Runnable.Profile.identity_eq breakfix.Runnable.Profile.validate_resources
    breakfix.Runnable.Profile.validate_target breakfix.Runnable.Profile.validate_boundary
    breakfix.Runnable.Profile.validate_versions breakfix.Runnable.Profile.validate_boundaries
    breakfix.Runnable.Profile.validate_profile breakfix.Runnable.Profile.validate_source
    breakfix.Runnable.Plan.validate_entrypoint breakfix.Runnable.Plan.select_boundary
    breakfix.Runnable.Plan.timeout_ok breakfix.Runnable.Plan.is_sorted
    breakfix.Runnable.Plan.exit_codes_ok breakfix.Runnable.Plan.validate_action
    breakfix.Runnable.Plan.validate_assertion breakfix.Runnable.Plan.validate_phase_shape
    breakfix.Runnable.Plan.validate_phase breakfix.Runnable.Plan.validate_phases
    breakfix.Runnable.Plan.validate_plan breakfix.Runnable.Plan.validate_lifecycle
    breakfix.Runnable.Unique.each_unique breakfix.Runnable.Spec.validate_initialization
    breakfix.Runnable.Spec.reject_reserved breakfix.Runnable.Spec.validate_spec
    breakfix.Runnable.Spec.digest_bytes breakfix.Runnable.Spec.spec_digest breakfix.Text.Dict.lookup
    breakfix.Text.Dict.insert breakfix.Runnable.Action.validate_action_identity
    breakfix.Runnable.Action.validate_credential breakfix.Runnable.Action.validate_materialize
    breakfix.Runnable.Action.validate_context breakfix.Repository.row_queued
    breakfix.Repository.Actions.claim_action
action_claimed = refl

pub action_completed :
    complete_materialization backend context.credential stored 8 running ≡ ok completed
unfolding breakfix.Text.contains breakfix.Text.all breakfix.Text.member
    breakfix.Runnable.Ident.valid_digest breakfix.Runnable.Ident.validate_id
    breakfix.Runnable.Ident.required_string breakfix.Runnable.Ident.validate_format
    breakfix.Runnable.Kinds.runtime_valid breakfix.Runnable.Kinds.permission_valid
    breakfix.Runnable.Kinds.network_valid breakfix.Runnable.Kinds.execution_valid
    breakfix.Runnable.Kinds.phase_valid breakfix.Runnable.Kinds.runtime_eq
    breakfix.Runnable.Kinds.is_read_write breakfix.Runnable.Kinds.is_read_only
    breakfix.Runnable.Kinds.is_materialize breakfix.Runnable.Kinds.phase_text
    breakfix.Runnable.Profile.validate_identity breakfix.Runnable.Profile.identity_eq
    breakfix.Runnable.Profile.validate_resources breakfix.Runnable.Profile.validate_target
    breakfix.Runnable.Profile.validate_boundary breakfix.Runnable.Profile.validate_versions
    breakfix.Runnable.Profile.validate_boundaries breakfix.Runnable.Profile.validate_profile
    breakfix.Runnable.Profile.validate_source breakfix.Runnable.Plan.validate_entrypoint
    breakfix.Runnable.Plan.select_boundary breakfix.Runnable.Plan.timeout_ok
    breakfix.Runnable.Plan.is_sorted breakfix.Runnable.Plan.exit_codes_ok
    breakfix.Runnable.Plan.validate_action breakfix.Runnable.Plan.validate_assertion
    breakfix.Runnable.Plan.validate_phase_shape breakfix.Runnable.Plan.validate_phase
    breakfix.Runnable.Plan.validate_phases breakfix.Runnable.Plan.validate_plan
    breakfix.Runnable.Plan.validate_lifecycle breakfix.Runnable.Unique.each_unique
    breakfix.Runnable.Spec.validate_initialization breakfix.Runnable.Spec.reject_reserved
    breakfix.Runnable.Spec.validate_spec breakfix.Runnable.Spec.validate_artifact
    breakfix.Runnable.Spec.digest_bytes breakfix.Runnable.Spec.spec_digest
    breakfix.Runnable.Spec.validate_revision breakfix.Runnable.Spec.revision_digest
    breakfix.Text.Dict.lookup breakfix.Text.Dict.insert
    breakfix.Runnable.Action.validate_action_identity breakfix.Runnable.Action.validate_credential
    breakfix.Runnable.Action.validate_revision_reference breakfix.Runnable.Action.record_id
    breakfix.Runnable.Action.validate_stored_revision breakfix.Repository.held_row
    breakfix.Repository.revision_of breakfix.Repository.revision_with
    breakfix.Repository.Records.store_revision breakfix.Repository.Actions.report_action_failure
    breakfix.Repository.Completions.complete_materialization
action_completed = refl
