-- ===== src/Repository/Finishes.antt =====
-- internal/adapter/postgres/runnable_repository.go: what the completions change, and the stores of
-- records.
use breakfix.Prelude.{
  true, not, ◌||◌, Option, some, ◌≡◌, refl, arith, inl, inr, ◌∙◌, Bool-cases, Option-cases, ◌==◌,
}
use breakfix.Text.{Text, text_eq}
use breakfix.Text.Dict.{lookup}
use breakfix.Errors.{
  ok, reject, map_err, is_ok, ok_injective, >>-eq-ok, >>=-eq-ok, is_ok-eq, Result-cases,
}
use breakfix.Runnable.Kinds.{ActionPhase, phase_valid, is_materialize, is_verify}
use breakfix.Runnable.Model.{Time}
use breakfix.Runnable.Ident.{valid_digest}
use breakfix.Runnable.Profile.{validate_identity}
use breakfix.Runnable.Action.{
  ActionIdentity, LeaseCredential, StoredRevision, StoredReport, action_key,
  validate_action_identity, validate_credential, validate_stored_revision,
}
use breakfix.Repository.{ActionState, ActionRow, Tables, Backend, held_row, holds_row}
use breakfix.Repository.Records.{insert_revision}
use breakfix.Repository.Actions.{write_row}
use breakfix.Repository.Outputs.{check_phase_outputs}
use breakfix.Repository.Completions.{
  completed_row, check_materialization, complete_materialization, check_verification,
  complete_verification, finish_report, insert_report,
}
use breakfix.Repository.Keys.{action_key-phase}
use breakfix.Repository.Valid.{IsRow, Known, Source, builds, built, verifies}
use breakfix.Repository.Changes.{Grows, finished, Moves}
use breakfix.Repository.Kept.{SpecOf-Grows, Source-grows}
use breakfix.Repository.Growth.{Grows-same, insert_revision-Added}
use breakfix.Repository.Steps.{held_row-found}

identity_phase :
    (i : ActionIdentity) → validate_action_identity i ≡ ok tt → phase_valid i.phase ≡ true
unfolding validate_action_identity
identity_phase i h =
    let (_, h1) = >>-eq-ok (map_err _ (validate_identity i.content)) _ h in
    let (_, h2) = >>-eq-ok (reject (not (valid_digest i.spec_digest)) _) _ h1 in ground arith

credential_phase :
    (c : LeaseCredential)
    → is_ok (validate_credential c) ≡ true
    → phase_valid c.identity.phase ≡ true
unfolding validate_credential
credential_phase c h =
    identity_phase c.identity
      (>>-eq-ok (validate_action_identity c.identity) _ (is_ok-eq (validate_credential c) h)).0

module _ (b : Backend) where
  -- The row that a credential holds is in the phase of the credential.
  held_phase :
      (c : LeaseCredential) (t : Tables) (r : ActionRow)
      → is_ok (validate_credential c) ≡ true
      → IsRow b.codec t (action_key c.identity) r
      → c.identity.phase ≡ r.identity.phase
  held_phase c t r h v =
      action_key-phase c.identity r.identity (credential_phase c h)
        (identity_phase r.identity v.identity) v.keyed

  -- The completion of a row, where records were added.
  finish_row :
      (c : LeaseCredential) (t u : Tables) (r : ActionRow) (d : Option Text) (now : Time)
      → Grows b.codec t u
      → u.actions ≡ t.actions
      → lookup (action_key c.identity) t.actions ≡ some r
      → holds_row c.lease_owner now r ≡ true
      → (IsRow b.codec t (action_key c.identity) r
          → Source b.codec u r.identity r.identity.phase ActionState.completed d)
      → Moves b.codec t (write_row (action_key c.identity) (completed_row d now r) u)
  unfolding write_row
  finish_row c t u r d now g same found holds source = record {
    grows = record {
      specs = g.specs;
      revisions = g.revisions;
      valid_specs = g.valid_specs;
      valid_revisions = g.valid_revisions;
      distinct = g.distinct;
      distinct_ids = g.distinct_ids;
    };
    change = inr (
      action_key c.identity,
      completed_row d now r,
      finished r c.lease_owner d now found holds
          (λ v. Source-grows b.codec (Grows-same b.codec refl refl) (source v)) refl,
      rw same refl,
    );
  }

  built_source :
      {t t' : Tables} {i : ActionIdentity} {p : ActionPhase} {s : ActionState} {d : Option Text}
      (e : Text)
      → Grows b.codec t t'
      → Source b.codec t i p s d
      → ActionPhase.materialize_artifact ≡ p
      → Known t' e
      → Source b.codec t' i p ActionState.completed (some e)
  built_source e g (builds spec o) m k = built e (SpecOf-Grows b.codec g spec) k
  built_source e g (built d spec known) m k = built e (SpecOf-Grows b.codec g spec) k
  built_source e g (verifies d r) m k = absurd (ground arith)

  verified_source :
      {t t' : Tables} {i : ActionIdentity} {p : ActionPhase} {s : ActionState} {d : Option Text}
      → Grows b.codec t t'
      → Source b.codec t i p s d
      → ActionPhase.verify ≡ p
      → Source b.codec t' i p ActionState.completed d
  verified_source g (builds spec o) m = absurd (ground arith)
  verified_source g (built d spec known) m = absurd (ground arith)
  verified_source g (verifies d r) m = Source-grows b.codec g (verifies d r)

  materialize_phase :
      (p : ActionPhase) → is_materialize p ≡ true → ActionPhase.materialize_artifact ≡ p
  unfolding is_materialize
  materialize_phase p h = ground arith

  verify_phase : (p : ActionPhase) → is_verify p ≡ true → ActionPhase.verify ≡ p
  unfolding is_verify
  verify_phase p h = ground arith

  -- What the tests before the transaction of a materialization say.
  pub record Fits (c : LeaseCredential) (value : StoredRevision) : Type 0 where
    pub credential : is_ok (validate_credential c) ≡ true
    pub phase : ActionPhase.materialize_artifact ≡ c.identity.phase
    pub value_valid : validate_stored_revision b.codec value ≡ ok tt

  check_materialization-Fits :
      (c : LeaseCredential) (value : StoredRevision) (now : Time) (d : Text)
      → check_materialization b c value now ≡ ok d
      → Fits c value
  unfolding check_materialization
  check_materialization-Fits c value now d h =
      let (fit, h1) =
        >>-eq-ok
          (reject
            (not (is_ok (validate_credential c))
              || (not (is_materialize c.identity.phase) || now == 0))
            _)
          _ h in
      let (valid, _) = >>-eq-ok (validate_stored_revision b.codec value) _ h1 in
      record {
        credential = ground arith;
        phase = materialize_phase c.identity.phase (ground arith);
        value_valid = valid;
      }

  pub complete_materialization-Moves :
      (c : LeaseCredential) (value : StoredRevision) (now : Time) (t t' : Tables)
      → complete_materialization b c value now t ≡ ok t'
      → Moves b.codec t t'
  unfolding complete_materialization write_row
  complete_materialization-Moves c value now t t' h =
      let (d, checked, h1) = >>=-eq-ok (check_materialization b c value now) _ h in
      let fits = check_materialization-Fits c value now d checked in
      elim (Option-cases (held_row c now t)) [
        | inl absent ↦ absurd (ground arith)
        | inr (r, held) ↦
            let (found, holds) = held_row-found c now t held in
            elim (Bool-cases (text_eq r.identity.spec_digest d)) [
              | inr other ↦ absurd (ground arith)
              | inl equal ↦ elim (Result-cases (insert_revision b.codec value d t.revisions)) [
                | inr (e, failed) ↦ absurd (ground arith)
                | inl (rows, inserted) ↦
                    let stored =
                      insert_revision-Added b.codec value d t rows fits.value_valid inserted in
                    let u : Tables = record t { revisions = rows } in
                    let after : ActionRow = completed_row (some (value.reference.digest)) now r in
                    let same : write_row (action_key c.identity) after u ≡ t' = ground arith in
                    rw (← same) (
                      finish_row c t u r (some (value.reference.digest)) now stored.grows refl found
                        holds
                        (λ v.
                          built_source value.reference.digest stored.grows v.source
                            (fits.phase ∙ held_phase c t r fits.credential v)
                            (stored.row, stored.found)))
              ]
            ]
      ]

  -- What the tests before the transaction of a verification say.
  check_verification-phase :
      (c : LeaseCredential) (value : StoredReport) (now : Time) (d : Text)
      → check_verification b c value now ≡ ok d
      → (is_ok (validate_credential c) ≡ true) × (ActionPhase.verify ≡ c.identity.phase)
  unfolding check_verification
  check_verification-phase c value now d h =
      let (fit, h1) =
        >>-eq-ok
          (reject
            (not (is_ok (validate_credential c)) || (not (is_verify c.identity.phase) || now == 0))
            _)
          _ h in
      (ground arith, verify_phase c.identity.phase (ground arith))

  pub complete_verification-Moves :
      (c : LeaseCredential) (value : StoredReport) (now : Time) (t t' : Tables)
      → complete_verification b c value now t ≡ ok t'
      → Moves b.codec t t'
  unfolding complete_verification finish_report
  complete_verification-Moves c value now t t' h =
      let (d, checked, h1) = >>=-eq-ok (check_verification b c value now) _ h in
      let (credential, phase) = check_verification-phase c value now d checked in
      elim (Option-cases (held_row c now t)) [
        | inl absent ↦ absurd (ground arith)
        | inr (r, held) ↦
            let (found, holds) = held_row-found c now t held in
            let h2 : finish_report b c value now d t r ≡ ok t' = ground arith in
            let (_, h3) = >>-eq-ok (reject _ _) _ h2 in
            let (_, h4) = >>-eq-ok (check_phase_outputs b t value.report.phases) _ h3 in
            let (rows, _, h5) = >>=-eq-ok (insert_report value d t.reports) _ h4 in
            let u : Tables = record t { reports = rows } in
            let same : write_row (action_key c.identity) (completed_row r.revision_digest now r) u
                ≡ t' =
              ok_injective h5 in
            rw (← same) (
              finish_row c t u r r.revision_digest now (Grows-same b.codec refl refl) refl found
                holds
                (λ v.
                  verified_source (Grows-same b.codec refl refl) v.source
                    (phase ∙ held_phase c t r credential v)))
      ]
