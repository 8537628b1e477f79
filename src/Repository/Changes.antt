-- ===== src/Repository/Changes.antt =====
-- internal/adapter/postgres/runnable_repository.go: what one step changes: records are only added, and
-- at most one row of the actions is written.
use breakfix.Prelude.{ℕ, true, false, map, Option, none, some, ◌≡◌, All, Distinct, ◌⊎◌}
use breakfix.Text.{Text}
use breakfix.Text.Dict.{lookup, insert, Values}
use breakfix.Errors.{ok}
use breakfix.Runnable.Kinds.{FailureClass, class_valid}
use breakfix.Runnable.Model.{Time}
use breakfix.Runnable.Spec.{Codec}
use breakfix.Runnable.Reap.{is_blank}
use breakfix.Runnable.Action.{ActionIdentity, action_key, validate_action_identity}
use breakfix.Repository.{
  ActionState, ActionRow, SpecRow, RevisionRow, Tables, holds_row, revision_of,
}
use breakfix.Repository.Actions.{claimed_row, is_due, failed_row}
use breakfix.Repository.Scheduling.{new_row, reschedule}
use breakfix.Repository.Completions.{completed_row}
use breakfix.Repository.Valid.{IsSpec, IsRevision, Source, IsRow}

module _ (codec : Codec) where
  -- The records of the first tables are those of the second, where it finds them.
  pub record Grows (t t' : Tables) : Type 0 where
    pub specs :
        (d : Text) (row : SpecRow) → lookup d t.specs ≡ some row → lookup d t'.specs ≡ some row
    pub revisions :
        (d : Text) (row : RevisionRow)
        → revision_of d t.revisions ≡ some row
        → revision_of d t'.revisions ≡ some row
    pub valid_specs : Values (IsSpec codec) t.specs → Values (IsSpec codec) t'.specs
    pub valid_revisions : All (IsRevision codec) t.revisions → All (IsRevision codec) t'.revisions
    pub distinct :
        Distinct (map (λ r. r.digest) t.revisions) → Distinct (map (λ r. r.digest) t'.revisions)
    pub distinct_ids :
        Distinct (map (λ r. r.id) t.revisions) → Distinct (map (λ r. r.id) t'.revisions)

  -- How the row of a key is written.
  pub data RowChange (t t' : Tables) (key : Text) (after : ActionRow) : Type 0 where
    added :
        (i : ActionIdentity) (revision : Option Text) (now : Time)
        → lookup key t.actions ≡ none
        → key ≡ action_key i
        → validate_action_identity i ≡ ok tt
        → Source codec t' i i.phase ActionState.queued revision
        → after ≡ new_row i revision now
        → RowChange t t' key after
    revived :
        (r : ActionRow) (now : Time)
        → lookup key t.actions ≡ some r
        → after ≡ reschedule now r
        → RowChange t t' key after
    claimed :
        (r : ActionRow) (owner : Text) (ttl : ℕ) (now : Time)
        → lookup key t.actions ≡ some r
        → is_blank owner ≡ false
        → is_due now r ≡ true
        → after ≡ claimed_row owner ttl now r
        → RowChange t t' key after
    renewed :
        (r : ActionRow) (owner : Text) (now until : Time)
        → lookup key t.actions ≡ some r
        → holds_row owner now r ≡ true
        → after ≡ record r { lease_expires = some until; updated_at = now }
        → RowChange t t' key after
    reported :
        (r : ActionRow) (owner : Text) (class : FailureClass) (code summary : Text) (now : Time)
        → lookup key t.actions ≡ some r
        → holds_row owner now r ≡ true
        → class_valid class ≡ true
        → after ≡ failed_row class code summary now r
        → RowChange t t' key after
    finished :
        (r : ActionRow) (owner : Text) (d : Option Text) (now : Time)
        → lookup key t.actions ≡ some r
        → holds_row owner now r ≡ true
        → (IsRow codec t key r
            → Source codec t' r.identity r.identity.phase ActionState.completed d)
        → after ≡ completed_row d now r
        → RowChange t t' key after

  pub record Moves (t t' : Tables) : Type 0 where
    pub grows : Grows t t'
    pub change :
        (t'.actions ≡ t.actions)
        ⊎ ((key : Text) × (after : ActionRow) × RowChange t t' key after
            × (t'.actions ≡ insert key after t.actions))
