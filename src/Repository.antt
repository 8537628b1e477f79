-- ===== src/Repository.antt =====
-- internal/adapter/postgres/runnable_repository.go and schema_runnable.go: the tables of the runnable
-- contract. A JSON column holds the value that it encodes, and NULL is `none`. Each method is one
-- step on the tables; an error leaves them as they are, where nothing else is said. The failure of
-- a statement and time zones are left out. Texts are taken to be valid UTF-8, of which encoding/json
-- keeps every byte, and instants to be whole microseconds, which TIMESTAMPTZ keeps.
pub mod Records
pub mod Actions
pub mod Scheduling
pub mod Outputs
pub mod Completions
pub mod Resolve
pub mod Keys
pub mod Valid
pub mod Changes
pub mod Shapes
pub mod Kept
pub mod Growth
pub mod Steps
pub mod Schedules
pub mod Rechecks
pub mod Finishes
pub mod Stores
pub mod History
pub mod Final
pub mod Contexts
pub mod Claims
pub mod Retries
pub mod Order
pub mod Taken
use breakfix.Prelude.{
  ℕ, Bool, true, false, ◌&&◌, ◌||◌, List, [], ◌∷◌, Option, none, some, ltb, leb, ◌==◌,
  if◌then◌else◌,
}
use breakfix.Text.{Text, text_eq}
use breakfix.Text.Dict.{lookup}
use breakfix.Errors.{Error, Result}
use breakfix.Runnable.Kinds.{FailureClass}
use breakfix.Runnable.Model.{
  RunnableSpec, RunnableRevision, VerificationReport, Time, ImmutableReference,
}
use breakfix.Runnable.Spec.{Codec}
use breakfix.Runnable.Output.{OutputCapture}
use breakfix.Runnable.Action.{ActionIdentity, LeaseCredential, action_key}

-- The CHECK on the column `state` admits these four.
pub data ActionState : Type 0 where
  queued running completed failed : ActionState

-- A row of runnable_actions less its key; an empty failure class is `none`.
pub record ActionRow : Type 0 where
  pub identity : ActionIdentity
  pub revision_digest : Option Text
  pub state : ActionState
  pub attempt : ℕ
  pub lease_owner : Text
  pub lease_expires : Option Time
  pub next_run_at : Time
  pub failure_class : Option FailureClass
  pub failure_code : Text
  pub failure_summary : Text
  pub created_at : Time
  pub updated_at : Time
  pub completed_at : Option Time

-- A row of runnable_specs less its key; the columns that repeat parts of the spec are left out.
pub record SpecRow : Type 0 where
  pub spec : RunnableSpec
  pub created_at : Time

-- A row of runnable_revisions
pub record RevisionRow : Type 0 where
  pub id : Text
  pub digest : Text
  pub spec_digest : Text
  pub revision : RunnableRevision
  pub created_at : Time

-- A row of runnable_verification_reports
pub record ReportRow : Type 0 where
  pub id : Text
  pub digest : Text
  pub revision_digest : Text
  pub report : VerificationReport
  pub created_at : Time

-- The tables; those with a text as the primary key and no other unique column are maps.
pub record Tables : Type 0 where
  pub specs : List (Text × SpecRow)
  pub sources : List (Text × Text)
  pub revisions : List RevisionRow
  pub reports : List ReportRow
  pub outputs : List (Text × Text)
  pub actions : List (Text × ActionRow)

-- What the repository calls: the encodings, ParseOutputCapture and json.Unmarshal on a stored
-- capture, and the order of two keys under the collation of the database.
pub record Backend : Type 0 where
  pub codec : Codec
  pub marshal_capture : OutputCapture → Result Text
  pub parse_capture : Text → Result OutputCapture
  pub decode_capture : Text → Result OutputCapture
  pub collate : Text → Text → Bool

-- state = 'queued'
unfoldable pub row_queued : ActionState → Bool
row_queued ActionState.queued = true
row_queued _ = false

-- state = 'running'
unfoldable pub row_running : ActionState → Bool
row_running ActionState.running = true
row_running _ = false

-- state = 'completed'
unfoldable pub row_completed : ActionState → Bool
row_completed ActionState.completed = true
row_completed _ = false

-- state = 'failed'
unfoldable pub row_failed : ActionState → Bool
row_failed ActionState.failed = true
row_failed _ = false

-- lease_expires_at > now
unfoldable pub lease_after : Time → Option Time → Bool
lease_after now none = false
lease_after now (some t) = ltb now t

-- lease_expires_at <= now
unfoldable pub lease_over : Time → Option Time → Bool
lease_over now none = false
lease_over now (some t) = leb t now

-- state = 'running' AND lease_owner = owner AND lease_expires_at > now
unfoldable pub holds_row : (owner : Text) → Time → ActionRow → Bool
unfolding row_running lease_after
holds_row owner now r =
    row_running r.state && (text_eq r.lease_owner owner && lease_after now r.lease_expires)

-- The row, if it passes the test.
unfoldable pub if_held : (owner : Text) → Time → Option ActionRow → Option ActionRow
unfolding holds_row
if_held owner now none = none
if_held owner now (some r) = if holds_row owner now r then some r else none

-- The row of an action that the credential holds.
unfoldable pub held_row : LeaseCredential → Time → Tables → Option ActionRow
unfolding if_held
held_row c now t = if_held c.lease_owner now (lookup (action_key c.identity) t.actions)

-- SELECT ... FROM runnable_revisions WHERE runnable_revision_digest = digest
unfoldable pub revision_of : (digest : Text) → List RevisionRow → Option RevisionRow
revision_of digest [] = none
revision_of digest (r ∷ rest) = if text_eq r.digest digest then some r else revision_of digest rest

-- SELECT ... FROM runnable_revisions WHERE id = id
unfoldable pub revision_with : (id : Text) → List RevisionRow → Option RevisionRow
revision_with id [] = none
revision_with id (r ∷ rest) = if text_eq r.id id then some r else revision_with id rest

-- SELECT ... FROM runnable_verification_reports WHERE id = id
unfoldable pub report_with : (id : Text) → List ReportRow → Option ReportRow
report_with id [] = none
report_with id (r ∷ rest) = if text_eq r.id id then some r else report_with id rest

-- SELECT ... FROM runnable_verification_reports WHERE verification_report_digest = digest
unfoldable pub report_of_digest : (digest : Text) → List ReportRow → Option ReportRow
report_of_digest digest [] = none
report_of_digest digest (r ∷ rest) =
    if text_eq r.digest digest then some r else report_of_digest digest rest
