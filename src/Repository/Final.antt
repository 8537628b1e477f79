-- ===== src/Repository/Final.antt =====
-- internal/adapter/postgres/runnable_repository.go: an action that is completed stays as it is.
use breakfix.Prelude.{
  true, false, ◌&&◌, some, ◌≡◌, refl, arith, ◌⊎◌, inl, inr, sym, ap, ◌∙◌, Bool-cases,
}
use breakfix.Text.{Text, text_eq}
use breakfix.Text.Laws.{text_eq_iff}
use breakfix.Text.Dict.{lookup, insert, lookup-insert}
use breakfix.Runnable.Model.{Time}
use breakfix.Runnable.Spec.{Codec}
use breakfix.Repository.{
  ActionState, ActionRow, Tables, Backend, row_completed, row_running, row_queued, row_failed,
  holds_row,
}
use breakfix.Repository.Actions.{is_due}
use breakfix.Repository.Scheduling.{reschedule, failed_by_world}
use breakfix.Repository.Valid.{IsTables}
use breakfix.Repository.Changes.{
  RowChange, added, revived, claimed, renewed, reported, finished, Moves,
}
use breakfix.Repository.Shapes.{holds_row-running}
use breakfix.Repository.Schedules.{SpecsApart}
use breakfix.Repository.History.{Reach, here, next, Reach-IsTables, Step-Moves}

some_injective : {r s : ActionRow} → some r ≡ some s → r ≡ s
some_injective h = ground arith

kept : (now : Time) (r : ActionRow) → row_completed r.state ≡ true → reschedule now r ≡ r
unfolding reschedule row_completed row_failed
kept now r k =
    let closed : (row_failed r.state && failed_by_world r.failure_class) ≡ false = ground arith in
    rw closed refl

due_closed : (now : Time) (r : ActionRow) → is_due now r ≡ true → row_completed r.state ≡ true → ⊥
unfolding is_due row_completed row_queued row_running
due_closed now r h k = ground arith

held_closed :
    (owner : Text) (now : Time) (r : ActionRow)
    → holds_row owner now r ≡ true
    → row_completed r.state ≡ true
    → ⊥
unfolding row_completed
held_closed owner now r h k =
    let running : r.state ≡ ActionState.running = holds_row-running owner now r h in ground arith

-- A change of a completed row leaves it.
change_closed :
    {codec : Codec} {t t' : Tables} {key : Text} {after : ActionRow} (r : ActionRow)
    → RowChange codec t t' key after
    → lookup key t.actions ≡ some r
    → row_completed r.state ≡ true
    → after ≡ r
unfolding row_completed
change_closed r (added i d now absent keyed valid source e) h k = absurd (ground arith)
change_closed {t = t} {key = key} r (revived s now found e) h k =
    let same : s ≡ r = some_injective (sym found ∙ h) in e ∙ ap (reschedule now) same ∙ kept now r k
change_closed r (claimed s owner ttl now found owned due e) h k =
    let same : s ≡ r = some_injective (sym found ∙ h) in
    absurd (due_closed now r (ap (is_due now) (sym same) ∙ due) k)
change_closed r (renewed s owner now until found held e) h k =
    let same : s ≡ r = some_injective (sym found ∙ h) in
    absurd (held_closed owner now r (ap (holds_row owner now) (sym same) ∙ held) k)
change_closed r (reported s owner class code summary now found held valid e) h k =
    let same : s ≡ r = some_injective (sym found ∙ h) in
    absurd (held_closed owner now r (ap (holds_row owner now) (sym same) ∙ held) k)
change_closed r (finished s owner d now found held source e) h k =
    let same : s ≡ r = some_injective (sym found ∙ h) in
    absurd (held_closed owner now r (ap (holds_row owner now) (sym same) ∙ held) k)

Moves-closed :
    {codec : Codec} {t t' : Tables} (key : Text) (r : ActionRow)
    → Moves codec t t'
    → lookup key t.actions ≡ some r
    → row_completed r.state ≡ true
    → lookup key t'.actions ≡ some r
Moves-closed {codec = codec} {t = t} {t' = t'} key r m h k = closed m.change
  where
    closed :
        (t'.actions ≡ t.actions)
          ⊎ ((j : Text) × (after : ActionRow) × RowChange codec t t' j after
              × (t'.actions ≡ insert j after t.actions))
        → lookup key t'.actions ≡ some r
    closed (inl same) = ap (lookup key) same ∙ h
    closed (inr (j, after, c, e)) =
        ap (lookup key) e
        ∙ lookup-insert j key after t.actions
        ∙ elim (Bool-cases (text_eq j key)) [
          | inr other ↦ rw other h
          | inl equal ↦
              let at : j ≡ key = (text_eq_iff j key).0 equal in
              rw equal (ap some (change_closed r c (ap (λ x. lookup x t.actions) at ∙ h) k))
        ]

module _ {b : Backend} (apart : SpecsApart b.codec) where
  -- From tables that keep the constraints, any sequence of calls leaves the row of a completed action
  -- exactly as it is: it is never claimed, failed, scheduled or completed again. Two specs with one
  -- digest are taken to be for the same content.
  pub completed_final :
      {t t' : Tables} (key : Text) (r : ActionRow)
      → IsTables b.codec t
      → Reach b t t'
      → lookup key t.actions ≡ some r
      → row_completed r.state ≡ true
      → lookup key t'.actions ≡ some r
  completed_final key r v here h k = h
  completed_final key r v (next s step) h k =
      Moves-closed key r (Step-Moves apart (Reach-IsTables apart v s) step)
        (completed_final key r v s h k) k
