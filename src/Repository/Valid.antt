-- ===== src/Repository/Valid.antt =====
-- internal/adapter/postgres/schema_runnable.go: the constraints of the tables, and what the code keeps
-- of the rows beyond them.
use breakfix.Prelude.{
  ℕ, ◌≤◌, ◌<◌, false, List, [], ◌∷◌, map, Option, none, some, ◌≡◌, arith, All, Among, Distinct, inl,
  inr, Bool-cases,
}
use breakfix.Text.{Text, codes, text_eq}
use breakfix.Text.Laws.{text_eq_iff}
use breakfix.Text.Dict.{lookup, Values, keys}
use breakfix.Errors.{ok}
use breakfix.Runnable.Kinds.{ActionPhase, FailureClass}
use breakfix.Runnable.Model.{Time}
use breakfix.Runnable.Spec.{Codec, spec_digest, revision_digest}
use breakfix.Runnable.Reap.{is_blank}
use breakfix.Runnable.Action.{
  ActionIdentity, action_key, validate_action_identity, validate_revision_reference,
}
use breakfix.Repository.{
  ActionState, ActionRow, SpecRow, RevisionRow, Tables, revision_of, revision_with, row_completed,
}
use breakfix.Repository.Actions.{max_attempts}

-- How often a failed row was tried: the world's failures are final only at the ceiling.
abbrev pub Exhausted : FailureClass → (attempt : ℕ) (code : Text) → Type 0
Exhausted FailureClass.artifact attempt code = Unit
Exhausted FailureClass.infrastructure attempt code =
    (max_attempts ≤ attempt) × (code ≡ codes "attempts-exhausted")
Exhausted (FailureClass.other s) attempt code = ⊥

-- The columns of a row that its state determines.
pub data IsShape
    : ActionState
      → (attempt : ℕ) (owner : Text) (expires : Option Time) (class : Option FailureClass)
        (code : Text) (completed : Option Time)
      → Type 0 where
  waits :
      {attempt : ℕ} {class : Option FailureClass} {code : Text}
      → attempt < max_attempts
      → IsShape ActionState.queued attempt [] none class code none
  runs :
      {attempt : ℕ} {owner : Text} {until : Time} {class : Option FailureClass} {code : Text}
      → 0 < attempt
      → is_blank owner ≡ false
      → IsShape ActionState.running attempt owner (some until) class code none
  ended :
      {attempt : ℕ} {at : Time} {class : Option FailureClass} {code : Text}
      → IsShape ActionState.completed attempt [] none class code (some at)
  gave_up :
      {attempt : ℕ} {class : FailureClass} {code : Text}
      → Exhausted class attempt code
      → IsShape ActionState.failed attempt [] none (some class) code none

-- A row of the revisions has the digest: the foreign key of an action.
abbrev pub Known : Tables → Text → Type 0
Known t d = (row : RevisionRow) × (revision_of d t.revisions ≡ some row)

module _ (codec : Codec) where
  abbrev pub IsSpec : Text → SpecRow → Type 0
  IsSpec d row = spec_digest codec row.spec ≡ ok d

  pub record IsRevision (r : RevisionRow) : Type 0 where
    pub reference : validate_revision_reference (record { id = r.id; digest = r.digest }) ≡ ok tt
    pub digest : revision_digest codec r.revision ≡ ok r.digest

  -- The stored spec of an action.
  pub record SpecOf (t : Tables) (i : ActionIdentity) : Type 0 where
    pub row : SpecRow
    pub found : lookup i.spec_digest t.specs ≡ some row
    pub content : i.content ≡ row.spec.identity

  -- The stored revision of an action.
  pub record RevisionOf (t : Tables) (i : ActionIdentity) (d : Text) : Type 0 where
    pub row : RevisionRow
    pub found : revision_of d t.revisions ≡ some row
    pub bound : spec_digest codec row.revision.spec ≡ ok i.spec_digest
    pub content : i.content ≡ row.revision.spec.identity

  -- What an action works on: to materialize, a spec, and a revision exactly once it is completed;
  -- to verify, a revision.
  pub data Source (t : Tables) (i : ActionIdentity)
      : ActionPhase → ActionState → Option Text → Type 0 where
    builds :
        {s : ActionState}
        → SpecOf t i
        → row_completed s ≡ false
        → Source t i ActionPhase.materialize_artifact s none
    built :
        (d : Text)
        → SpecOf t i
        → Known t d
        → Source t i ActionPhase.materialize_artifact ActionState.completed (some d)
    verifies :
        {s : ActionState} (d : Text) → RevisionOf t i d → Source t i ActionPhase.verify s (some d)

  pub record IsRow (t : Tables) (key : Text) (r : ActionRow) : Type 0 where
    pub keyed : key ≡ action_key r.identity
    pub identity : validate_action_identity r.identity ≡ ok tt
    pub shape :
        IsShape r.state r.attempt r.lease_owner r.lease_expires r.failure_class r.failure_code
          r.completed_at
    pub source : Source t r.identity r.identity.phase r.state r.revision_digest

  pub record IsTables (t : Tables) : Type 0 where
    pub specs : Values IsSpec t.specs
    pub revisions : All IsRevision t.revisions
    pub distinct : Distinct (map (λ r. r.digest) t.revisions)
    pub distinct_ids : Distinct (map (λ r. r.id) t.revisions)
    pub one_row : Distinct (keys t.actions)
    pub actions : Values (IsRow t) t.actions

pub revision_of-All :
    (P : RevisionRow → Type 0) (d : Text) (rows : List RevisionRow) {r : RevisionRow}
    → All P rows
    → revision_of d rows ≡ some r
    → P r × (r.digest ≡ d)
unfolding revision_of
revision_of-All P d [] h e = absurd (ground arith)
revision_of-All P d (s ∷ rows) {r} (p, h) e = elim (Bool-cases (text_eq s.digest d)) [
  | inl same ↦
      let here : s ≡ r = ground arith in
      (rw (← here) p, rw (← here) ((text_eq_iff s.digest d).0 same))
  | inr other ↦ revision_of-All P d rows h (ground arith)
]

-- A digest that no row has is not among the digests, and so for identifiers.
pub revision_of-absent :
    (d : Text) (rows : List RevisionRow)
    → revision_of d rows ≡ none
    → ¬ Among d (map (λ r. r.digest) rows)
unfolding revision_of
revision_of-absent d [] e x = elim x [ ]
revision_of-absent d (s ∷ rows) e (inl same) = ground (arith, text_eq_iff s.digest d)
revision_of-absent d (s ∷ rows) e (inr later) =
    revision_of-absent d rows (ground (arith, text_eq_iff s.digest d)) later

pub revision_with-absent :
    (i : Text) (rows : List RevisionRow)
    → revision_with i rows ≡ none
    → ¬ Among i (map (λ r. r.id) rows)
unfolding revision_with
revision_with-absent i [] e x = elim x [ ]
revision_with-absent i (s ∷ rows) e (inl same) = ground (arith, text_eq_iff s.id i)
revision_with-absent i (s ∷ rows) e (inr later) =
    revision_with-absent i rows (ground (arith, text_eq_iff s.id i)) later

-- The row under an identifier is one of the rows.
pub revision_with-known :
    (i d : Text) (rows : List RevisionRow) {r : RevisionRow}
    → revision_of d rows ≡ none
    → revision_with i rows ≡ some r
    → text_eq r.digest d ≡ false
unfolding revision_of revision_with
revision_with-known i d [] e f = absurd (ground arith)
revision_with-known i d (s ∷ rows) {r} e f = elim (Bool-cases (text_eq s.id i)) [
  | inl same ↦ let here : s ≡ r = ground arith in rw (← here) (ground arith)
  | inr other ↦ revision_with-known i d rows {r = r} (ground arith) (ground arith)
]
