-- ===== src/Repository/Kept.antt =====
-- internal/adapter/postgres/runnable_repository.go: a step keeps the invariant of the tables.
use breakfix.Prelude.{
  ltb, if◌then◌else◌, Bool, true, false, Option, ◌≡◌, refl, arith, ◌⊎◌, inl, inr, Bool-cases,
  Distinct, ◌&&◌,
}
use breakfix.Text.{Text}
use breakfix.Text.Dict.{
  insert, Values, Values-lookup, Values-insert, Values-map, Values-at, keys, Distinct-insert,
}
use breakfix.Runnable.Kinds.{ActionPhase, FailureClass, class_valid, is_infrastructure}
use breakfix.Runnable.Model.{Time}
use breakfix.Runnable.Spec.{Codec}
use breakfix.Runnable.Action.{ActionIdentity}
use breakfix.Repository.{ActionState, ActionRow, Tables, row_completed, row_failed}
use breakfix.Repository.Actions.{max_attempts, claimed_row, failed_row}
use breakfix.Repository.Scheduling.{new_row, reschedule, failed_by_world}
use breakfix.Repository.Completions.{completed_row}
use breakfix.Repository.Valid.{
  waits, runs, ended, SpecOf, Source, builds, built, verifies, IsRow, IsTables,
}
use breakfix.Repository.Changes.{
  Grows, RowChange, added, revived, claimed, renewed, reported, finished, Moves,
}
use breakfix.Repository.Shapes.{
  holds_row-running, is_due-open, running_open, prolonged, unfinished, failed_shape, failed_open,
}

module _ (codec : Codec) where
  pub SpecOf-Grows :
      {t t' : Tables} {i : ActionIdentity} → Grows codec t t' → SpecOf codec t i → SpecOf codec t' i
  SpecOf-Grows {i = i} g s = record {
    row = s.row;
    found = g.specs i.spec_digest s.row s.found;
    content = s.content;
  }

  pub Source-grows :
      {t t' : Tables} {i : ActionIdentity} {p : ActionPhase} {s : ActionState} {d : Option Text}
      → Grows codec t t'
      → Source codec t i p s d
      → Source codec t' i p s d
  Source-grows g (builds spec o) = builds (SpecOf-Grows g spec) o
  Source-grows g (built d spec (row, found)) =
      built d (SpecOf-Grows g spec) (row, g.revisions d row found)
  Source-grows g (verifies d r) = verifies d (record {
    row = r.row;
    found = g.revisions d r.row r.found;
    bound = r.bound;
    content = r.content;
  })

  -- The source of a row that is not completed, before and after.
  Source-open :
      {t : Tables} {i : ActionIdentity} {p : ActionPhase} {s s' : ActionState} {d : Option Text}
      → Source codec t i p s d
      → row_completed s ≡ false
      → row_completed s' ≡ false
      → Source codec t i p s' d
  unfolding row_completed
  Source-open (builds spec o) h k = builds spec k
  Source-open (built d spec known) h k = absurd (ground arith)
  Source-open (verifies d r) h k = verifies d r

  IsRow-Grows :
      {t t' : Tables}
      → Grows codec t t'
      → (key : Text) (r : ActionRow) → IsRow codec t key r
      → IsRow codec t' key r
  IsRow-Grows g key r v = record {
    keyed = v.keyed;
    identity = v.identity;
    shape = v.shape;
    source = Source-grows g v.source;
  }

  revived-IsRow :
      {t : Tables} (key : Text) (now : Time) (r : ActionRow)
      → IsRow codec t key r
      → IsRow codec t key (reschedule now r)
  unfolding reschedule row_completed
  revived-IsRow key now r v =
      elim (Bool-cases (row_failed r.state && failed_by_world r.failure_class)) [
        | inr other ↦ rw other v
        | inl again ↦
            let o : row_completed r.state ≡ false = failed_open r.state _ again in
            rw again (record {
              keyed = v.keyed;
              identity = v.identity;
              shape = rw (unfinished v.shape o) (waits (omega arith));
              source = Source-open v.source o refl;
            })
      ]

  reported-IsRow :
      {t : Tables} (key : Text) (class : FailureClass) (code summary : Text) (now : Time)
      (r : ActionRow)
      → IsRow codec t key r
      → row_completed r.state ≡ false
      → class_valid class ≡ true
      → IsRow codec t key (failed_row class code summary now r)
  unfolding failed_row row_completed
  reported-IsRow key class code summary now r v o valid = record {
    keyed = v.keyed;
    identity = v.identity;
    shape = failed_shape class code summary now r valid (unfinished v.shape o);
    source =
        Source-open v.source o (still_open (is_infrastructure class && ltb r.attempt max_attempts));
  }
    where
      still_open :
          (again : Bool)
          → row_completed (if again then ActionState.queued else ActionState.failed) ≡ false
      still_open again = ground arith

  -- The row that is written is again a row of the tables.
  RowChange-IsRow :
      {t t' : Tables} {key : Text} {after : ActionRow}
      → Grows codec t t'
      → Values (IsRow codec t) t.actions
      → RowChange codec t t' key after
      → IsRow codec t' key after
  unfolding new_row claimed_row completed_row row_completed
  RowChange-IsRow g v (added i revision now absent k valid source e) =
      rw e (record { keyed = k; identity = valid; shape = waits (omega arith); source = source })
  RowChange-IsRow {t} {key = key} g v (revived r now found e) =
      let old = Values-lookup (IsRow codec t) key t.actions v found in
      rw e (revived-IsRow key now r (IsRow-Grows g key r old))
  RowChange-IsRow {t} {key = key} g v (claimed r owner ttl now found owned due e) =
      let old = IsRow-Grows g key r (Values-lookup (IsRow codec t) key t.actions v found) in
      let o : row_completed r.state ≡ false = is_due-open now r due in
      rw e (record {
        keyed = old.keyed;
        identity = old.identity;
        shape = rw (unfinished old.shape o) (runs (omega arith) owned);
        source = Source-open old.source o refl;
      })
  RowChange-IsRow {t} {key = key} g v (renewed r owner now until found held e) =
      let old = IsRow-Grows g key r (Values-lookup (IsRow codec t) key t.actions v found) in
      let running : r.state ≡ ActionState.running = holds_row-running owner now r held in
      rw e (record {
        keyed = old.keyed;
        identity = old.identity;
        shape = prolonged old.shape running until;
        source = old.source;
      })
  RowChange-IsRow {t} {key = key} g v (reported r owner class code summary now found held valid e) =
      let old = IsRow-Grows g key r (Values-lookup (IsRow codec t) key t.actions v found) in
      let o : row_completed r.state ≡ false =
        running_open r.state (holds_row-running owner now r held) in
      rw e (reported-IsRow key class code summary now r old o valid)
  RowChange-IsRow {t} {key = key} g v (finished r owner d now found held source e) =
      let old = Values-lookup (IsRow codec t) key t.actions v found in
      rw e
        (record { keyed = old.keyed; identity = old.identity; shape = ended; source = source old })

  -- A step keeps the constraints of the tables.
  pub Moves-IsTables : {t t' : Tables} → IsTables codec t → Moves codec t t' → IsTables codec t'
  Moves-IsTables {t} {t'} v m = record {
    specs = m.grows.valid_specs v.specs;
    revisions = m.grows.valid_revisions v.revisions;
    distinct = m.grows.distinct v.distinct;
    distinct_ids = m.grows.distinct_ids v.distinct_ids;
    one_row = one m.change;
    actions = rows m.change;
  }
    where
      one :
          (t'.actions ≡ t.actions)
            ⊎ ((key : Text) × (after : ActionRow) × RowChange codec t t' key after
                × (t'.actions ≡ insert key after t.actions))
          → Distinct (keys t'.actions)
      one (inl same) = rw same (v.one_row)
      one (inr (key, after, c, e)) = rw e (Distinct-insert key after t.actions v.one_row)

      grown : Values (IsRow codec t') t.actions
      grown = Values-map (IsRow codec t) (IsRow codec t') (IsRow-Grows m.grows) t.actions v.actions

      rows :
          (t'.actions ≡ t.actions)
            ⊎ ((key : Text) × (after : ActionRow) × RowChange codec t t' key after
                × (t'.actions ≡ insert key after t.actions))
          → Values (IsRow codec t') t'.actions
      rows (inl same) = Values-at (IsRow codec t') same grown
      rows (inr (key, after, c, e)) = Values-at (IsRow codec t') e (
          Values-insert (IsRow codec t') key after t.actions (RowChange-IsRow m.grows v.actions c)
            grown)
