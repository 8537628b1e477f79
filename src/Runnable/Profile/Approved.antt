-- ===== src/Runnable/Profile/Approved.antt =====
-- internal/domain/runnable/validate.go: what a runtime profile that passed its check guarantees.
use breakfix.Prelude.{
  pos, ◌<◌, ◌≤◌, ◌≤ℤ◌, true, List, [], ◌∷◌, ◌≡◌, arith, map, some, length, All, Distinct,
  Bool-cases, inl, inr, ap, sym, ◌∙◌,
}
use breakfix.Text.{Text, text_eq}
use breakfix.Text.Laws.{text_eq_iff}
use breakfix.Errors.{ok, Result-cases}
use breakfix.Runnable.Kinds.{permission_valid, network_valid, runtime_valid}
use breakfix.Runnable.Model.{
  ContentIdentity, TargetLocation, ExecutionBoundary, RuntimeProfile, max_actions_per_phase,
  max_action_timeout_seconds,
}
use breakfix.Runnable.Unique.{each_unique_sound, Checks-All, Fresh-Distinct}
use breakfix.Runnable.Profile.{
  validate_boundary, validate_boundaries, validate_profile, find_boundary, target_eq, identity_eq,
}

-- An execution boundary within the platform's limits.
pub record IsApproved (b : ExecutionBoundary) : Type 0 where
  pub permission : permission_valid b.permission ≡ true
  pub network : network_valid b.network ≡ true
  pub positive : pos 1 ≤ℤ b.max_timeout
  pub limited : b.max_timeout ≤ℤ pos max_action_timeout_seconds

validate_boundary-IsApproved : (b : ExecutionBoundary) → validate_boundary b ≡ ok tt → IsApproved b
unfolding validate_boundary
validate_boundary-IsApproved b h = ground arith

-- The profile's boundaries are approved, bounded in number, and have different identifiers.
pub record IsProfile (p : RuntimeProfile) : Type 0 where
  pub runtime : runtime_valid p.runtime ≡ true
  pub approved : All IsApproved p.execution_boundaries
  pub some_boundary : 0 < length p.execution_boundaries
  pub few_boundaries : length p.execution_boundaries ≤ max_actions_per_phase
  pub distinct : Distinct (map (λ b. b.id) p.execution_boundaries)

validate_boundaries-IsProfile :
    (bs : List ExecutionBoundary) {ids : List Text}
    → validate_boundaries bs ≡ ok ids
    → All IsApproved bs × Distinct (map (λ b. b.id) bs)
unfolding validate_boundaries
validate_boundaries-IsProfile bs h =
    let (checks, fresh, _) = each_unique_sound _ (λ (b : ExecutionBoundary). b.id) _ 0 [] bs h in
    (
      Checks-All IsApproved _ (λ i. validate_boundary-IsApproved) 0 bs checks,
      Fresh-Distinct (λ b. b.id) [] bs fresh,
    )

pub validate_profile-IsProfile : (p : RuntimeProfile) → validate_profile p ≡ ok tt → IsProfile p
unfolding validate_profile
validate_profile-IsProfile p h = elim (Result-cases (validate_boundaries p.execution_boundaries)) [
  | inr (e, bad) ↦ absurd (ground arith)
  | inl (ids, good) ↦
      let (approved, distinct) = validate_boundaries-IsProfile p.execution_boundaries good in
      record {
        runtime = ground arith;
        approved = approved;
        some_boundary = ground arith;
        few_boundaries = ground arith;
        distinct = distinct;
      }
]

pub find_boundary-All :
    (P : ExecutionBoundary → Type 0) (bs : List ExecutionBoundary) (id : Text)
    {b : ExecutionBoundary}
    → All P bs
    → find_boundary bs id ≡ some b
    → P b × (b.id ≡ id)
unfolding find_boundary
find_boundary-All P [] id a h = absurd (ground arith)
find_boundary-All P (c ∷ bs) id {b} (p, a) h = elim (Bool-cases (text_eq c.id id)) [
  | inl here ↦
      let same : c ≡ b = ground arith in
      (rw same at p, ap (λ (x : ExecutionBoundary). x.id) (sym same) ∙ (text_eq_iff c.id id).0 here)
  | inr there ↦ find_boundary-All P bs id a (ground arith)
]

pub target_eq_sound : (t u : TargetLocation) → target_eq t u ≡ true → t ≡ u
unfolding target_eq
target_eq_sound t u h = ground (arith, text_eq_iff t.kind u.kind, text_eq_iff t.id u.id)

pub identity_eq_sound : (v w : ContentIdentity) → identity_eq v w ≡ true → v ≡ w
unfolding identity_eq
identity_eq_sound v w h =
    ground
      (arith, text_eq_iff v.kind w.kind, text_eq_iff v.id w.id, text_eq_iff v.revision w.revision)
