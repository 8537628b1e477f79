-- ===== src/Repository/Schedules.antt =====
-- internal/adapter/postgres/runnable_repository.go: what the schedules change.
use breakfix.Prelude.{
  ℤ, not, ◌||◌, Option, none, ◌≡◌, refl, inl, inr, Bool-cases, Option-cases, ◌==◌,
}
use breakfix.Text.{Text}
use breakfix.Text.Dict.{lookup, Values-lookup}
use breakfix.Errors.{Result, ok, err, reject, ok_injective, >>-eq-ok}
use breakfix.Runnable.Kinds.{ActionPhase}
use breakfix.Runnable.Model.{RunnableSpec, Time}
use breakfix.Runnable.Profile.{is_positive}
use breakfix.Runnable.Spec.{Codec, spec_digest}
use breakfix.Runnable.Action.{ActionIdentity, action_key, validate_action_identity}
use breakfix.Repository.{ActionState, Tables, Backend, row_completed}
use breakfix.Repository.Records.{store_spec, require_source}
use breakfix.Repository.Scheduling.{
  new_row, reschedule, schedule, materialization_of, schedule_made, schedule_stored,
  schedule_materialization,
}
use breakfix.Repository.Valid.{IsTables, IsSpec, Source, builds}
use breakfix.Repository.Changes.{Grows, added, revived, Moves}
use breakfix.Repository.Kept.{Source-grows}
use breakfix.Repository.Growth.{Grows-same, Stored, insert_spec-Stored}

-- What the code relies on of its digests: two specs with one digest are for the same content.
pub record SpecsApart (codec : Codec) : Type 0 where
  pub content :
      (s s' : RunnableSpec) (d : Text)
      → spec_digest codec s ≡ ok d
      → spec_digest codec s' ≡ ok d
      → s.identity ≡ s'.identity

module _ (codec : Codec) where
  -- The row of an action whose source is stored is added or revived.
  pub schedule-Moves :
      (t s : Tables) (identity : ActionIdentity) (revision : Option Text) (now : Time)
      → Grows codec t s
      → s.actions ≡ t.actions
      → validate_action_identity identity ≡ ok tt
      → Source codec s identity identity.phase ActionState.queued revision
      → Moves codec t (schedule identity revision now s)
  unfolding schedule
  schedule-Moves t s identity revision now g same valid source = record {
    grows = record {
      specs = g.specs;
      revisions = g.revisions;
      valid_specs = g.valid_specs;
      valid_revisions = g.valid_revisions;
      distinct = g.distinct;
      distinct_ids = g.distinct_ids;
    };
    change = elim (Option-cases (lookup (action_key identity) t.actions)) [
      | inl absent ↦ inr (
        action_key identity,
        new_row identity revision now,
        added identity revision now absent refl valid
            (Source-grows codec (Grows-same codec refl refl) source) refl,
        rw (same, absent) refl,
      )
      | inr (r, found) ↦
          inr
            (action_key identity, reschedule now r, revived r now found refl, rw (same, found) refl)
    ];
  }

module _ (b : Backend) (apart : SpecsApart b.codec) where
  -- The action that is scheduled, with its stored spec.
  materialization_of-Source :
      (spec : RunnableSpec) (version : ℤ) (t : Tables) (made : Text × Tables)
      (identity : ActionIdentity)
      → IsTables b.codec t
      → Stored b.codec spec t made
      → materialization_of b spec made.0 version made.1 ≡ ok identity
      → (validate_action_identity identity ≡ ok tt)
        × Source b.codec made.1 identity identity.phase ActionState.queued none
  unfolding materialization_of row_completed
  materialization_of-Source spec version t made identity v s h =
      let i : ActionIdentity = record {
        content = spec.identity;
        spec_digest = made.0;
        phase = ActionPhase.materialize_artifact;
        state_version = version;
      } in
      let (_, h1) = >>-eq-ok (require_source b.codec spec.source.digest made.1) _ h in
      let (valid, h2) = >>-eq-ok (validate_action_identity i) _ h1 in
      let same : i ≡ identity = ok_injective h2 in
      rw (← same) (
        valid,
        builds
            (record {
              row = s.row;
              found = s.found;
              content = apart.content spec s.row.spec made.0 s.digest (
                  Values-lookup (IsSpec b.codec) made.0 made.1.specs (s.grows.valid_specs v.specs)
                    s.found);
            })
            refl,
      )

  -- Tables that only have more records.
  grown : (t s : Tables) → Grows b.codec t s → s.actions ≡ t.actions → Moves b.codec t s
  grown t s g same = record { grows = g; change = inl same }

  schedule_made-Moves :
      (spec : RunnableSpec) (version : ℤ) (now : Time) (t : Tables) (made : Text × Tables)
      (m : Result ActionIdentity)
      → IsTables b.codec t
      → Stored b.codec spec t made
      → materialization_of b spec made.0 version made.1 ≡ m
      → Moves b.codec t (schedule_made b now made.1 m).1
  unfolding schedule_made
  schedule_made-Moves spec version now t made (err e) v s h = grown t made.1 s.grows s.actions
  schedule_made-Moves spec version now t made (ok identity) v s h =
      let (valid, source) = materialization_of-Source spec version t made identity v s h in
      schedule-Moves b.codec t made.1 identity none now s.grows s.actions valid source

  schedule_stored-Moves :
      (spec : RunnableSpec) (version : ℤ) (now : Time) (t : Tables) (m : Result (Text × Tables))
      → IsTables b.codec t
      → store_spec b.codec spec now t ≡ m
      → Moves b.codec t (schedule_stored b spec version now t m).1
  unfolding schedule_stored store_spec
  schedule_stored-Moves spec version now t (err e) v h =
      grown t t (Grows-same b.codec refl refl) refl
  schedule_stored-Moves spec version now t (ok (d, stored)) v h =
      let (_, inserted) = >>-eq-ok (reject (now == 0) _) _ h in
      schedule_made-Moves spec version now t (d, stored)
        (materialization_of b spec d version stored) v
        (insert_spec-Stored b.codec spec now t (d, stored) inserted) refl

  pub materialization-Moves :
      (spec : RunnableSpec) (version : ℤ) (now : Time) (t : Tables)
      → IsTables b.codec t
      → Moves b.codec t (schedule_materialization b spec version now t).1
  unfolding schedule_materialization
  materialization-Moves spec version now t v =
      elim (Bool-cases (not (is_positive version) || now == 0)) [
        | inl bad ↦ rw bad (grown t t (Grows-same b.codec refl refl) refl)
        | inr fit ↦
            rw fit (schedule_stored-Moves spec version now t (store_spec b.codec spec now t) v refl)
      ]
