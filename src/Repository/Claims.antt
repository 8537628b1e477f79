-- ===== src/Repository/Claims.antt =====
-- internal/adapter/postgres/runnable_repository.go: the claims that succeed, and what they take.
use breakfix.Prelude.{
  ℤ, pos, pos_part, ◌<◌, Bool, true, not, ◌||◌, [], Option, none, some, ◌≡◌, refl, arith, inl, inr,
  ap, Option-cases, ◌==◌,
}
use breakfix.Text.{Text}
use breakfix.Text.Dict.{lookup-Among, Values-lookup}
use breakfix.Errors.{Field, Error, ok, reject, >>-ok_iff, bind_ok}
use breakfix.Runnable.Kinds.{ActionPhase}
use breakfix.Runnable.Model.{Time, max_id_length}
use breakfix.Runnable.Ident.{required_string}
use breakfix.Runnable.Profile.{is_positive}
use breakfix.Runnable.Reap.{is_blank}
use breakfix.Runnable.Action.{ActionContext, validate_action_identity, validate_context}
use breakfix.Repository.{ActionState, ActionRow, Tables, Backend}
use breakfix.Repository.Actions.{
  no_reference, coalesce, claimed_row, context_at, context_of, first_due, write_row, claim_action,
}
use breakfix.Repository.Valid.{IsRow, IsTables, SpecOf, RevisionOf, Source, builds, built, verifies}
use breakfix.Repository.Steps.{first_due-due}
use breakfix.Repository.Contexts.{spec_input, revision_input, spec_context, revision_context}

claim_fit :
    (owner : Text) (ttl : ℤ) (now : Time) (e : Error)
    → required_string owner (Field.name "action.lease_owner") max_id_length ≡ ok tt
    → is_positive ttl ≡ true
    → 0 < now
    → reject (is_blank owner || (not (is_positive ttl) || now == 0)) e ≡ ok tt
unfolding required_string
claim_fit owner ttl now e h k n = ground arith

module _ (b : Backend) where
  spec_found :
      (t : Tables) (owner : Text) (r : ActionRow) (p : ActionPhase)
      (s : SpecOf b.codec t r.identity)
      → p ≡ ActionPhase.materialize_artifact
      → context_at b t owner r p
        ≡ ok (record {
          credential = record { identity = r.identity; lease_owner = owner };
          attempt = pos (r.attempt);
          spec = some (s.row.spec);
          revision = none;
          revision_ref = no_reference;
          digest = [];
        })
  unfolding context_at
  spec_found t owner r ActionPhase.materialize_artifact s h = let found = s.found in ground arith
  spec_found t owner r ActionPhase.verify s h = absurd (ground arith)
  spec_found t owner r (ActionPhase.other x) s h = absurd (ground arith)

  revision_found :
      (t : Tables) (owner : Text) (r : ActionRow) (p : ActionPhase) (d : Text)
      (s : RevisionOf b.codec t r.identity d)
      → p ≡ ActionPhase.verify
      → coalesce r.revision_digest ≡ d
      → context_at b t owner r p
        ≡ ok (record {
          credential = record { identity = r.identity; lease_owner = owner };
          attempt = pos (r.attempt);
          spec = none;
          revision = some (s.row.revision);
          revision_ref = record { id = s.row.id; digest = d };
          digest = d;
        })
  unfolding context_at
  revision_found t owner r ActionPhase.materialize_artifact d s h k = absurd (ground arith)
  revision_found t owner r ActionPhase.verify d s h k = let found = s.found in ground arith
  revision_found t owner r (ActionPhase.other x) d s h k = absurd (ground arith)

  module _ (t : Tables) (owner : Text)
      (owned : required_string owner (Field.name "action.lease_owner") max_id_length ≡ ok tt)
      (v : IsTables b.codec t) where
    -- A row that was tried and whose source is stored gives a valid context.
    context_case :
        (r : ActionRow) (p : ActionPhase) (s : ActionState) (d : Option Text)
        → validate_action_identity r.identity ≡ ok tt
        → 0 < r.attempt
        → r.identity.phase ≡ p
        → r.revision_digest ≡ d
        → Source b.codec t r.identity p s d
        → (c : ActionContext) × (context_of b t owner r ≡ ok c)
    unfolding context_of
    context_case r p s d i n h k (builds spec o) = (
      spec_input b.codec t owner r owned i n v spec,
      bind_ok (context_at b t owner r r.identity.phase) _
          (spec_found t owner r r.identity.phase spec h)
          ((>>-ok_iff (validate_context b.codec (spec_input b.codec t owner r owned i n v spec))
              _).1
            (spec_context b.codec t owner r owned i n v spec h, refl)),
    )
    context_case r p s d i n h k (built e spec known) = (
      spec_input b.codec t owner r owned i n v spec,
      bind_ok (context_at b t owner r r.identity.phase) _
          (spec_found t owner r r.identity.phase spec h)
          ((>>-ok_iff (validate_context b.codec (spec_input b.codec t owner r owned i n v spec))
              _).1
            (spec_context b.codec t owner r owned i n v spec h, refl)),
    )
    context_case r p s d i n h k (verifies e revision) = (
      revision_input b.codec t owner r owned i n v e revision,
      bind_ok (context_at b t owner r r.identity.phase) _
          (revision_found t owner r r.identity.phase e revision h
            (unfold coalesce in ap coalesce k))
          ((>>-ok_iff
              (validate_context b.codec (revision_input b.codec t owner r owned i n v e revision))
              _).1
            (revision_context b.codec t owner r owned i n v e revision h, refl)),
    )

    -- In tables that keep the constraints, no claim fails whose owner is a valid lease owner, whose
    -- time to live is positive and whose clock is set.
    pub claim_succeeds :
        (ttl : ℤ) (now : Time) (locked : Text → Bool)
        → is_positive ttl ≡ true
        → 0 < now
        → (made : Option ActionContext × Tables) × (claim_action b owner ttl now locked t ≡ ok made)
    unfolding claim_action claimed_row
    claim_succeeds ttl now locked positive_ttl timed =
        let fit : reject (is_blank owner || (not (is_positive ttl) || now == 0))
              (Error.plain "runnable action claim is invalid")
            ≡ ok tt =
          claim_fit owner ttl now _ owned positive_ttl timed in
        elim (Option-cases (first_due b.collate now locked t.actions)) [
          | inl idle ↦ ((none, t), (>>-ok_iff (reject _ _) _).1 (fit, rw idle refl))
          | inr (e, found) ↦
              let (there, _, _) = first_due-due b.collate now locked t.actions e found in
              let row =
                Values-lookup (IsRow b.codec t) e.0 t.actions v.actions
                  (lookup-Among e.0 e.1 t.actions v.one_row there) in
              let after : ActionRow = claimed_row owner (pos_part ttl) now e.1 in
              let (c, made) =
                context_case after e.1.identity.phase e.1.state e.1.revision_digest row.identity
                  (omega arith) refl refl row.source in
              (
                (some c, write_row e.0 after t),
                (>>-ok_iff (reject _ _) _).1
                    (fit, rw found (bind_ok (context_of b t owner after) _ made refl)),
              )
        ]
