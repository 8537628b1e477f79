-- ===== src/Repository/Steps.antt =====
-- internal/adapter/postgres/runnable_repository.go: what each method changes, when it succeeds.
use breakfix.Prelude.{
  ℤ, pos_part, ◌+◌, Bool, true, false, not, ◌&&◌, ◌||◌, List, [], ◌∷◌, Option, none, some, ◌≡◌,
  refl, arith, Among, ◌⊎◌, inl, inr, Bool-cases, Option-cases, ◌==◌,
}
use breakfix.Text.{Text}
use breakfix.Text.Dict.{lookup, lookup-Among}
use breakfix.Errors.{ok, reject, is_ok, >>-eq-ok, Result-cases}
use breakfix.Runnable.Kinds.{FailureClass, class_valid}
use breakfix.Runnable.Model.{Time}
use breakfix.Runnable.Profile.{is_positive}
use breakfix.Runnable.Reap.{is_blank}
use breakfix.Runnable.Action.{LeaseCredential, ActionContext, action_key, validate_credential}
use breakfix.Repository.{ActionRow, Tables, Backend, holds_row, if_held, held_row}
use breakfix.Repository.Actions.{
  comes_first, failed_row, claimed_row, is_due, sooner, first_due, write_row, context_of,
  claim_action, renew, report_action_failure,
}
use breakfix.Repository.Valid.{IsTables}
use breakfix.Repository.Changes.{RowChange, claimed, renewed, reported, Moves}
use breakfix.Repository.Growth.{Grows-same}

-- A row that the credential holds stands under the key of its action.
pub held_row-found :
    (c : LeaseCredential) (now : Time) (t : Tables) {r : ActionRow}
    → held_row c now t ≡ some r
    → (lookup (action_key c.identity) t.actions ≡ some r) × (holds_row c.lease_owner now r ≡ true)
unfolding held_row if_held
held_row-found c now t {r} h = elim (Option-cases (lookup (action_key c.identity) t.actions)) [
  | inl absent ↦ absurd (ground arith)
  | inr (s, found) ↦ elim (Bool-cases (holds_row c.lease_owner now s)) [
    | inr other ↦ absurd (ground arith)
    | inl held ↦ let same : s ≡ r = ground arith in rw (← same) (found, held)
  ]
]

first_of :
    (collate : Text → Text → Bool) (e f : Text × ActionRow) (o : Option (Text × ActionRow))
    → sooner collate e o ≡ some f
    → (e ≡ f) ⊎ (o ≡ some f)
unfolding sooner
first_of collate e f none h = inl (ground arith)
first_of collate e f (some g) h = elim (Bool-cases (comes_first collate e g)) [
  | inl before ↦ inl (ground arith)
  | inr after ↦ inr (ground arith)
]

-- The row that a claim takes is one of the rows, is due, and no other transaction holds it.
pub first_due-due :
    (collate : Text → Text → Bool) (now : Time) (locked : Text → Bool) (m : List (Text × ActionRow))
    (f : Text × ActionRow)
    → first_due collate now locked m ≡ some f
    → Among f m × (is_due now f.1 ≡ true) × (locked f.0 ≡ false)
unfolding first_due
first_due-due collate now locked [] f h = absurd (ground arith)
first_due-due collate now locked ((j, s) ∷ m) f h =
    elim (Bool-cases (is_due now s && not (locked j))) [
      | inr other ↦
          let (there, due, free) = first_due-due collate now locked m f (ground arith) in
          (inr there, due, free)
      | inl good ↦
          elim (first_of collate (j, s) f (first_due collate now locked m) (ground arith)) [
            | inl e ↦ (inl e, rw (← e) (ground arith), rw (← e) (ground arith))
            | inr later ↦
                let (there, due, free) = first_due-due collate now locked m f later in
                (inr there, due, free)
          ]
    ]

module _ (b : Backend) where
  -- A step that writes one row, and no record.
  written :
      (t : Tables) (key : Text) (after : ActionRow)
      → RowChange b.codec t (write_row key after t) key after
      → Moves b.codec t (write_row key after t)
  unfolding write_row
  written t key after c = record {
    grows = Grows-same b.codec refl refl;
    change = inr (key, after, c, refl);
  }

  pub claim-Moves :
      (owner : Text) (ttl : ℤ) (now : Time) (locked : Text → Bool) (t : Tables)
      (made : Option ActionContext × Tables)
      → IsTables b.codec t
      → claim_action b owner ttl now locked t ≡ ok made
      → Moves b.codec t made.1
  unfolding claim_action
  claim-Moves owner ttl now locked t made v h =
      let (fit, h1) =
        >>-eq-ok (reject (is_blank owner || (not (is_positive ttl) || now == 0)) _) _ h in
      elim (Option-cases (first_due b.collate now locked t.actions)) [
        | inl idle ↦
            let same : (none, t) ≡ made = ground arith in
            rw (← same) (record { grows = Grows-same b.codec refl refl; change = inl refl })
        | inr (e, found) ↦
            let after : ActionRow = claimed_row owner (pos_part ttl) now e.1 in
            let (there, due, _) = first_due-due b.collate now locked t.actions e found in
            elim (Result-cases (context_of b t owner after)) [
              | inr (bad, failed) ↦ absurd (ground arith)
              | inl (value, context) ↦
                  let same : (some value, write_row e.0 after t) ≡ made = ground arith in
                  rw (← same) (
                    written t e.0 after (
                      claimed e.1 owner (pos_part ttl) now
                        (lookup-Among e.0 e.1 t.actions v.one_row there) (ground arith) due refl))
            ]
      ]

  pub renew-Moves :
      (c : LeaseCredential) (ttl : ℤ) (now : Time) (t t' : Tables)
      → renew b c ttl now t ≡ ok t'
      → Moves b.codec t t'
  unfolding renew
  renew-Moves c ttl now t t' h =
      let (fit, h1) =
        >>-eq-ok
          (reject (not (is_ok (validate_credential c)) || (not (is_positive ttl) || now == 0)) _) _
          h in
      elim (Option-cases (held_row c now t)) [
        | inl absent ↦ absurd (ground arith)
        | inr (r, held) ↦
            let (found, holds) = held_row-found c now t held in
            let after : ActionRow = record r {
              lease_expires = some (now + pos_part ttl);
              updated_at = now;
            } in
            let same : write_row (action_key c.identity) after t ≡ t' = ground arith in
            rw (← same) (
              written t (action_key c.identity) after
                (renewed r c.lease_owner now (now + pos_part ttl) found holds refl))
      ]

  pub report-Moves :
      (c : LeaseCredential) (class : FailureClass) (code summary : Text) (now : Time)
      (t t' : Tables)
      → report_action_failure b c class code summary now t ≡ ok t'
      → Moves b.codec t t'
  unfolding report_action_failure
  report-Moves c class code summary now t t' h =
      let (fit, h1) =
        >>-eq-ok
          (reject
            (not (is_ok (validate_credential c))
              || (not (class_valid class) || (is_blank code || (is_blank summary || now == 0))))
            _)
          _ h in
      elim (Option-cases (held_row c now t)) [
        | inl absent ↦ absurd (ground arith)
        | inr (r, held) ↦
            let (found, holds) = held_row-found c now t held in
            let after : ActionRow = failed_row class code summary now r in
            let same : write_row (action_key c.identity) after t ≡ t' = ground arith in
            rw (← same) (
              written t (action_key c.identity) after
                (reported r c.lease_owner class code summary now found holds (ground arith) refl))
      ]
