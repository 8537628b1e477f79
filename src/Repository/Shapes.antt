-- ===== src/Repository/Shapes.antt =====
-- internal/adapter/postgres/runnable_repository.go: the columns of a row that its state determines, over its changes.
use breakfix.Prelude.{
  ℕ, ◌<◌, ◌≤◌, ltb, leb, Bool, true, false, Option, none, some, ◌≡◌, refl, arith, ◌⊎◌, inl, inr,
  Bool-cases, ◌&&◌,
}
use breakfix.Text.{Text}
use breakfix.Runnable.Kinds.{FailureClass, class_valid, is_infrastructure}
use breakfix.Runnable.Model.{Time}
use breakfix.Repository.{
  ActionState, ActionRow, row_queued, row_running, row_completed, row_failed, holds_row,
}
use breakfix.Repository.Actions.{max_attempts, is_due, failed_row}
use breakfix.Repository.Valid.{IsShape, waits, runs, ended, gave_up}

pub holds_row-running :
    (owner : Text) (now : Time) (r : ActionRow)
    → holds_row owner now r ≡ true
    → r.state ≡ ActionState.running
unfolding holds_row row_running
holds_row-running owner now r h = ground arith

pub is_due-open : (now : Time) (r : ActionRow) → is_due now r ≡ true → row_completed r.state ≡ false
unfolding is_due row_queued row_running row_completed
is_due-open now r h = ground arith

pub running_open : (s : ActionState) → s ≡ ActionState.running → row_completed s ≡ false
unfolding row_completed
running_open s e = ground arith

-- A running row keeps its shape when its lease is prolonged, and has no completion time.
pub prolonged :
    {s : ActionState} {attempt : ℕ} {owner : Text} {e : Option Time} {class : Option FailureClass}
    {code : Text} {done : Option Time}
    → IsShape s attempt owner e class code done
    → s ≡ ActionState.running
    → (until : Time) → IsShape s attempt owner (some until) class code done
prolonged (waits n) h until = absurd (ground arith)
prolonged (runs n o) h until = runs n o
prolonged ended h until = absurd (ground arith)
prolonged (gave_up x) h until = absurd (ground arith)

pub unfinished :
    {s : ActionState} {attempt : ℕ} {owner : Text} {e : Option Time} {class : Option FailureClass}
    {code : Text} {done : Option Time}
    → IsShape s attempt owner e class code done
    → row_completed s ≡ false
    → done ≡ none
unfolding row_completed
unfinished (waits n) h = refl
unfinished (runs n o) h = refl
unfinished ended h = absurd (ground arith)
unfinished (gave_up x) h = refl

-- The shape of a row.
abbrev RowShape : ActionRow → Type 0
RowShape r =
    IsShape r.state r.attempt r.lease_owner r.lease_expires r.failure_class r.failure_code
      r.completed_at

pub failed_shape :
    (class : FailureClass) (code summary : Text) (now : Time) (r : ActionRow)
    → class_valid class ≡ true
    → r.completed_at ≡ none
    → RowShape (failed_row class code summary now r)
unfolding failed_row class_valid is_infrastructure
failed_shape FailureClass.artifact code summary now r v o = rw o (gave_up tt)
failed_shape FailureClass.infrastructure code summary now r v o = elim (tried r.attempt) [
  | inl (few, below, above) ↦ rw (o, below, above) (waits few)
  | inr (many, below, above) ↦ rw (o, below, above) (gave_up (many, refl))
]
  where
    tried :
        (n : ℕ)
        → ((n < max_attempts) × (ltb n max_attempts ≡ true) × (leb max_attempts n ≡ false))
          ⊎ ((max_attempts ≤ n) × (ltb n max_attempts ≡ false) × (leb max_attempts n ≡ true))
    tried n = elim (Bool-cases (ltb n max_attempts)) [
      | inl h ↦ inl (ground arith, ground arith, ground arith)
      | inr h ↦ inr (ground arith, ground arith, ground arith)
    ]
failed_shape (FailureClass.other s) code summary now r v o = absurd (ground arith)

pub failed_open :
    (s : ActionState) (b : Bool) → (row_failed s && b) ≡ true → row_completed s ≡ false
unfolding row_failed row_completed
failed_open s b h = ground arith
