-- ===== src/Repository/Taken.antt =====
-- internal/adapter/postgres/runnable_repository.go: which row a claim takes, and what its holder gets.
use breakfix.Prelude.{
  ℕ, ℤ, pos, pos_part, ◌+◌, ◌<◌, Bool, true, false, not, ◌||◌, some, ◌≡◌, refl, arith, Among, inl,
  inr, sym, ap, ◌∙◌, Option-cases, ◌==◌,
}
use breakfix.Text.{Text}
use breakfix.Text.Laws.{text_eq_self}
use breakfix.Text.Dict.{lookup, insert, lookup-Among, Values-lookup, lookup-insert_self}
use breakfix.Errors.{ok, reject, ok_injective, >>-eq-ok, >>=-eq-ok, Result-cases}
use breakfix.Runnable.Kinds.{ActionPhase}
use breakfix.Runnable.Model.{Time}
use breakfix.Runnable.Profile.{is_positive}
use breakfix.Runnable.Reap.{is_blank}
use breakfix.Runnable.Action.{ActionContext, validate_context, action_key}
use breakfix.Repository.{
  ActionRow, Tables, Backend, held_row, if_held, holds_row, row_running, lease_after, revision_of,
}
use breakfix.Repository.Actions.{
  coalesce, claimed_row, is_due, first_due, context_at, context_of, write_row, claim_action,
}
use breakfix.Repository.Valid.{IsRow, IsTables}
use breakfix.Repository.Steps.{first_due-due}
use breakfix.Repository.Order.{NotAfter, first_due_least}

module _ (b : Backend) where
  -- What a claim that takes a row leaves: the row, which was due, was held by no other transaction and
  -- waited longest; the context of exactly that row; and the lease.
  pub record Taken (owner : Text) (ttl : ℤ) (now : Time) (locked : Text → Bool) (t : Tables)
      (c : ActionContext) (t' : Tables) : Type 0 where
    pub key : Text
    pub row : ActionRow
    pub found : lookup key t.actions ≡ some row
    pub due : is_due now row ≡ true
    pub free : locked key ≡ false
    pub earliest : (f : Text × ActionRow) → Among f t.actions → NotAfter now locked (key, row) f
    pub credential : c.credential ≡ record { identity = row.identity; lease_owner = owner }
    pub attempt : c.attempt ≡ pos (row.attempt + 1)
    pub valid : validate_context b.codec c ≡ ok tt
    pub written : t' ≡ write_row key (claimed_row owner (pos_part ttl) now row) t
    pub held :
        (later : Time)
        → later < now + pos_part ttl
        → held_row c.credential later t' ≡ some (claimed_row owner (pos_part ttl) now row)

  context_at-row :
      (t : Tables) (owner : Text) (r : ActionRow) (p : ActionPhase) (c : ActionContext)
      → context_at b t owner r p ≡ ok c
      → (c.credential ≡ record { identity = r.identity; lease_owner = owner })
        × (c.attempt ≡ pos (r.attempt))
  unfolding context_at
  context_at-row t owner r ActionPhase.materialize_artifact c h =
      elim (Option-cases (lookup r.identity.spec_digest t.specs)) [
        | inl absent ↦ absurd (ground arith)
        | inr (row, found) ↦ (ground arith, ground arith)
      ]
  context_at-row t owner r ActionPhase.verify c h =
      elim (Option-cases (revision_of (coalesce r.revision_digest) t.revisions)) [
        | inl absent ↦ absurd (ground arith)
        | inr (row, found) ↦ (ground arith, ground arith)
      ]
  context_at-row t owner r (ActionPhase.other s) c h = absurd (ground arith)

  context_of-row :
      (t : Tables) (owner : Text) (r : ActionRow) (c : ActionContext)
      → context_of b t owner r ≡ ok c
      → (c.credential ≡ record { identity = r.identity; lease_owner = owner })
        × (c.attempt ≡ pos (r.attempt))
        × (validate_context b.codec c ≡ ok tt)
  unfolding context_of
  context_of-row t owner r c h =
      let (v, made, h1) = >>=-eq-ok (context_at b t owner r r.identity.phase) _ h in
      let (valid, h2) = >>-eq-ok (validate_context b.codec v) _ h1 in
      let same : v ≡ c = ok_injective h2 in
      let (credential, attempt) = context_at-row t owner r r.identity.phase v made in
      rw (← same) (credential, attempt, valid)

  holder :
      (owner : Text) (ttl : ℕ) (now later : Time) (r : ActionRow)
      → later < now + ttl
      → if_held owner later (some (claimed_row owner ttl now r))
        ≡ some (claimed_row owner ttl now r)
  unfolding if_held holds_row claimed_row row_running lease_after
  holder owner ttl now later r h = rw (text_eq_self owner) (ground arith)

  Taken-row :
      (owner : Text) (ttl : ℤ) (now : Time) (locked : Text → Bool) (t : Tables)
      (e : Text × ActionRow) (c : ActionContext)
      → IsTables b.codec t
      → first_due b.collate now locked t.actions ≡ some e
      → context_of b t owner (claimed_row owner (pos_part ttl) now e.1) ≡ ok c
      → Taken owner ttl now locked t c (write_row e.0 (claimed_row owner (pos_part ttl) now e.1) t)
  unfolding claimed_row
  Taken-row owner ttl now locked t e c v found context =
      let after : ActionRow = claimed_row owner (pos_part ttl) now e.1 in
      let (there, due, free) = first_due-due b.collate now locked t.actions e found in
      let at_key = lookup-Among e.0 e.1 t.actions v.one_row there in
      let row = Values-lookup (IsRow b.codec t) e.0 t.actions v.actions at_key in
      let (credential, attempt, valid) = context_of-row t owner after c context in
      record {
        key = e.0;
        row = e.1;
        found = at_key;
        due = due;
        free = free;
        earliest = λ f x. first_due_least b.collate now locked t.actions e f found x;
        credential = credential;
        attempt = attempt;
        valid = valid;
        written = refl;
        held = λ later h.
            ap (λ k. held_row k later (write_row e.0 after t)) credential
            ∙ held_at owner later t e.0 e.1 after row.keyed
            ∙ holder owner (pos_part ttl) now later e.1 h;
      }
    where
      held_at :
          (owner : Text) (later : Time) (t : Tables) (key : Text) (r after : ActionRow)
          → key ≡ action_key r.identity
          → held_row
              (record { identity = r.identity; lease_owner = owner })
              later
              (write_row key after t)
            ≡ if_held owner later (some after)
      held_at owner later t key r after k =
          unfold held_row write_row in
          ap (λ j. if_held owner later (lookup j (insert key after t.actions))) (sym k)
          ∙ ap (if_held owner later) (lookup-insert_self key after t.actions)

  -- A claim that answers with a context, in tables that keep the constraints, took a row that was due
  -- and that no other transaction held; no such row had an earlier time to run. The context passes
  -- its check, and is that of the row with one more attempt. The row is written as running, and until
  -- the time to live is over, the credential of the context holds it.
  pub claim_takes :
      (owner : Text) (ttl : ℤ) (now : Time) (locked : Text → Bool) (t t' : Tables)
      (c : ActionContext)
      → IsTables b.codec t
      → claim_action b owner ttl now locked t ≡ ok (some c, t')
      → Taken owner ttl now locked t c t'
  unfolding claim_action
  claim_takes owner ttl now locked t t' c v h =
      let (fit, h1) =
        >>-eq-ok (reject (is_blank owner || (not (is_positive ttl) || now == 0)) _) _ h in
      elim (Option-cases (first_due b.collate now locked t.actions)) [
        | inl idle ↦ absurd (ground arith)
        | inr (e, found) ↦
            let after : ActionRow = claimed_row owner (pos_part ttl) now e.1 in
            elim (Result-cases (context_of b t owner after)) [
              | inr (bad, failed) ↦ absurd (ground arith)
              | inl (value, context) ↦
                  let at : value ≡ c = ground arith in
                  let made : write_row e.0 after t ≡ t' = ground arith in
                  rw (← at, ← made) (Taken-row owner ttl now locked t e value v found context)
            ]
      ]
