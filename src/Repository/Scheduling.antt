-- ===== src/Repository/Scheduling.antt =====
-- internal/adapter/postgres/runnable_repository.go: the scheduling of actions.
use breakfix.Prelude.{ℤ, Bool, false, not, ◌&&◌, ◌||◌, [], Option, none, some, ◌==◌, if◌then◌else◌}
use breakfix.Text.{Text}
use breakfix.Text.Dict.{lookup, insert}
use breakfix.Errors.{Error, Result, ok, err, reject, is_ok, ◌>>=◌, ◌>>◌}
use breakfix.Runnable.Kinds.{ActionPhase, FailureClass, is_infrastructure}
use breakfix.Runnable.Model.{RunnableSpec, Time}
use breakfix.Runnable.Profile.{is_positive}
use breakfix.Runnable.Spec.{spec_digest}
use breakfix.Runnable.Action.{
  ActionIdentity, RevisionReference, action_key, validate_action_identity,
  validate_revision_reference,
}
use breakfix.Repository.{ActionState, ActionRow, Tables, Backend, row_failed}
use breakfix.Repository.Records.{store_spec, require_source, resolve_revision}

-- The row that the INSERT of a schedule makes.
unfoldable pub new_row : ActionIdentity → (revision : Option Text) → Time → ActionRow
new_row identity revision now = record {
  identity = identity;
  revision_digest = revision;
  state = ActionState.queued;
  attempt = 0;
  lease_owner = [];
  lease_expires = none;
  next_run_at = now;
  failure_class = none;
  failure_code = [];
  failure_summary = [];
  created_at = now;
  updated_at = now;
  completed_at = none;
}

-- failure_class = 'infrastructure'
unfoldable pub failed_by_world : Option FailureClass → Bool
failed_by_world none = false
failed_by_world (some class) = is_infrastructure class

-- `runnableActionReschedule` on the row that has the key already.
unfoldable pub reschedule : Time → ActionRow → ActionRow
unfolding failed_by_world
reschedule now r =
    if row_failed r.state && failed_by_world r.failure_class
    then record r {
      state = ActionState.queued;
      attempt = 0;
      lease_owner = [];
      lease_expires = none;
      next_run_at = now;
      failure_class = none;
      failure_code = [];
      failure_summary = [];
      updated_at = now;
    }
    else r

-- The INSERT of a schedule with its ON CONFLICT clause.
unfoldable pub schedule : ActionIdentity → (revision : Option Text) → Time → Tables → Tables
unfolding new_row reschedule
schedule identity revision now t = record t {
  actions =
      insert (action_key identity)
        (elim (lookup (action_key identity) t.actions) [
          | none ↦ new_row identity revision now
          | some r ↦ reschedule now r
        ])
        t.actions;
}

module _ (b : Backend) where
  -- The action of ScheduleMaterialization once the spec is stored.
  unfoldable pub materialization_of :
      RunnableSpec → (digest : Text) → (version : ℤ) → Tables → Result ActionIdentity
  materialization_of spec digest version t = do
    require_source b.codec spec.source.digest t
    let identity : ActionIdentity = record {
      content = spec.identity;
      spec_digest = digest;
      phase = ActionPhase.materialize_artifact;
      state_version = version;
    }
    validate_action_identity identity
    ok identity

  unfoldable pub schedule_made :
      Time → Tables → Result ActionIdentity → Result ActionIdentity × Tables
  unfolding schedule
  schedule_made now t (err e) = (err e, t)
  schedule_made now t (ok identity) = (ok identity, schedule identity none now t)

  unfoldable pub schedule_stored :
      RunnableSpec
      → (version : ℤ) → Time
      → Tables
      → Result (Text × Tables)
      → Result ActionIdentity × Tables
  unfolding materialization_of schedule_made
  schedule_stored spec version now t (err e) = (err e, t)
  schedule_stored spec version now t (ok (digest, stored)) =
      schedule_made now stored (materialization_of spec digest version stored)

  -- `ScheduleMaterialization`; its statements commit one by one, so the spec stays stored when a
  -- later test fails.
  unfoldable pub schedule_materialization :
      RunnableSpec → (version : ℤ) → Time → Tables → Result ActionIdentity × Tables
  unfolding schedule_stored
  schedule_materialization spec version now t =
      if not (is_positive version) || now == 0
      then (err (Error.plain "schedule runnable materialization is invalid"), t)
      else schedule_stored spec version now t (store_spec b.codec spec now t)

  -- `ScheduleVerification`
  unfoldable pub schedule_verification :
      RevisionReference → (version : ℤ) → Time → Tables → Result (ActionIdentity × Tables)
  unfolding schedule
  schedule_verification reference version now t = do
    reject
        (not (is_ok (validate_revision_reference reference))
          || (not (is_positive version) || now == 0))
        (Error.plain "schedule runnable verification is invalid")
    revision ← resolve_revision b.codec reference.id reference.digest t
    digest ← spec_digest b.codec revision.spec
    let identity : ActionIdentity = record {
      content = revision.spec.identity;
      spec_digest = digest;
      phase = ActionPhase.verify;
      state_version = version;
    }
    ok (identity, schedule identity (some reference.digest) now t)
