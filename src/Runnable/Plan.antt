-- ===== src/Runnable/Plan.antt =====
-- internal/domain/runnable/validate.go: entrypoints, actions, assertions, the validation plan and
-- the lifecycle policy.
pub mod Actions
pub mod Phases
pub mod Lifecycle
use breakfix.Prelude.{
  ℕ, ℤ, pos, negsuc, suc, zero, ◌+◌, ◌<◌, ◌≤◌, ◌≤ℤ◌, String, Bool, true, false, not, ◌&&◌, ◌||◌,
  List, [], ◌∷◌, ◌≡◌, refl, arith, map, Option, none, some, ltb, leb, ltb_ℤ, leb_ℤ, ◌==◌, length,
  if◌then◌else◌,
}
use breakfix.Text.{Text, codes, text_eq, is_empty, has_prefix, member}
use breakfix.Text.Trim.{trim_space}
use breakfix.Text.Path.{clean, dot}
use breakfix.Errors.{Field, Error, Result, ok, err, Check, reject, ◌>>=◌, ◌>>◌}
use breakfix.Runnable.Kinds.{
  execution_valid, execution_text, Permission, is_read_write, is_read_only,
}
use breakfix.Runnable.Model.{
  TargetLocation, ExecutionBoundary, RuntimeProfile, ActionSpec, AssertionSpec, ValidationPhase,
  ValidationPlan, LifecyclePolicy, max_entrypoint_length, max_validation_phases,
  max_actions_per_phase, max_assertions_per_phase, max_action_timeout_seconds,
  max_phase_timeout_seconds, max_lifecycle_timeout, max_lifetime_seconds,
}
use breakfix.Runnable.Ident.{validate_id, validate_format}
use breakfix.Runnable.Unique.{each_unique}
use breakfix.Runnable.Profile.{is_positive, validate_target, target_eq, find_boundary}

unfoldable pub entrypoint_ok : Text → Bool
unfolding clean trim_space
entrypoint_ok value =
    let v = trim_space value in
    not (is_empty v)
    && (not (ltb max_entrypoint_length (length v))
        && (not (has_prefix v (codes "/"))
            && (text_eq (clean v) v && (not (text_eq v dot) && not (has_prefix v (codes "../"))))))

unfoldable pub validate_entrypoint : Text → Field → Check
unfolding entrypoint_ok
validate_entrypoint value field =
    reject (not (entrypoint_ok value)) (Error.invalid field "must be a safe relative archive path")

-- The boundary that was looked up has the target, and the permission passes the test.
unfoldable pub boundary_fits : (Permission → Bool) → TargetLocation → ExecutionBoundary → Bool
unfolding target_eq
boundary_fits permitted target b = target_eq b.target target && permitted b.permission

-- `boundary, ok := profile.boundary(id)` and the test that follows it.
unfoldable pub select_boundary :
    (Permission → Bool)
    → RuntimeProfile
    → (boundary_id : Text) → TargetLocation
    → Error
    → Result ExecutionBoundary
unfolding boundary_fits find_boundary
select_boundary permitted profile id target e =
    elim (find_boundary profile.execution_boundaries id) [
      | none ↦ err e
      | some b ↦ if boundary_fits permitted target b then ok b else err e
    ]

unfoldable pub timeout_ok : ℤ → ExecutionBoundary → Bool
timeout_ok t b =
    is_positive t && (not (ltb_ℤ b.max_timeout t) && not (ltb_ℤ (pos max_action_timeout_seconds) t))

-- slices.IsSorted
unfoldable pub is_sorted : List ℤ → Bool
is_sorted [] = true
is_sorted (a ∷ []) = true
is_sorted (a ∷ b ∷ cs) = not (ltb_ℤ b a) && is_sorted (b ∷ cs)

abbrev pub eq_ℤ : ℤ → ℤ → Bool
eq_ℤ a b = leb_ℤ a b && leb_ℤ b a

abbrev pub repeats : Option ℤ → ℤ → Bool
repeats none value = false
repeats (some previous) value = eq_ℤ value previous

-- The loop over the exit codes; `previous` is the code before, if there is one.
unfoldable pub exit_codes_ok : Option ℤ → List ℤ → Bool
exit_codes_ok previous [] = true
exit_codes_ok previous (value ∷ rest) =
    not (ltb_ℤ value (pos 0) || (ltb_ℤ (pos 255) value || repeats previous value))
    && exit_codes_ok (some value) rest

unfoldable pub validate_action : RuntimeProfile → Field → ActionSpec → Check
validate_action profile field a = do
  validate_id a.id (Field.sub field "id")
  validate_entrypoint a.entrypoint (Field.sub field "entrypoint")
  validate_target a.target (Field.sub field "target")
  boundary ←
      select_boundary is_read_write profile a.boundary_id a.target
        (Error.invalid (Field.sub field "boundary_id") "must select a read-write declared target")
  reject (not (timeout_ok a.timeout_seconds boundary))
      (Error.invalid (Field.sub field "timeout_seconds") "is outside its execution boundary")
  reject
      (length a.expected_exit_codes == 0
        || (ltb 16 (length a.expected_exit_codes) || not (is_sorted a.expected_exit_codes)))
      (Error.invalid (Field.sub field "expected_exit_codes") "must be a non-empty sorted set")
  reject (not (exit_codes_ok none a.expected_exit_codes)) (
      Error.invalid (Field.sub field "expected_exit_codes")
        "must contain unique process exit codes")

unfoldable pub validate_assertion : RuntimeProfile → Field → AssertionSpec → Check
validate_assertion profile field a = do
  validate_id a.id (Field.sub field "id")
  validate_entrypoint a.entrypoint (Field.sub field "entrypoint")
  validate_target a.target (Field.sub field "target")
  boundary ←
      select_boundary is_read_only profile a.boundary_id a.target
        (Error.invalid (Field.sub field "boundary_id") "must select a read-only declared target")
  reject (not (timeout_ok a.timeout_seconds boundary))
      (Error.invalid (Field.sub field "timeout_seconds") "is outside its execution boundary")

unfoldable pub validate_phase_shape : ValidationPhase → Field → Check
validate_phase_shape phase field = do
  reject (not (execution_valid phase.execution))
      (Error.unsupported (execution_text phase.execution) (Field.sub field "execution"))
  reject
      (not (is_positive phase.timeout_seconds)
        || ltb_ℤ (pos max_phase_timeout_seconds) phase.timeout_seconds)
      (Error.invalid (Field.sub field "timeout_seconds") "is outside the platform limit")
  reject
      (ltb max_actions_per_phase (length phase.actions)
        || (ltb max_assertions_per_phase (length phase.assertions)
            || (length phase.actions == 0 && length phase.assertions == 0)))
      (Error.invalid field "must have bounded actions or assertions")

-- The identifiers that the plan's loop has seen: of phases, of actions, of assertions.
pub record Seen : Type 0 where
  pub phases : List Text
  pub actions : List Text
  pub assertions : List Text

-- One round of the loop over the phases.
unfoldable pub validate_phase : RuntimeProfile → (index : ℕ) → Seen → ValidationPhase → Result Seen
validate_phase profile index seen phase =
    let field = Field.index (Field.name "validation_plan.phases") index in
    do
      validate_id phase.id (Field.sub field "id")
      reject (member phase.id seen.phases) (Error.invalid (Field.sub field "id") "is duplicated")
      validate_phase_shape phase field
      actions ←
          each_unique (λ i a. validate_action profile (Field.index (Field.sub field "actions") i) a)
            (λ a. a.id) (Error.invalid (Field.sub field "actions") "contains a duplicate action id")
            0 seen.actions phase.actions
      assertions ←
          each_unique
            (λ i a. validate_assertion profile (Field.index (Field.sub field "assertions") i) a)
            (λ a. a.id)
            (Error.invalid (Field.sub field "assertions") "contains a duplicate assertion id") 0
            seen.assertions phase.assertions
      ok (record { phases = phase.id ∷ seen.phases; actions = actions; assertions = assertions })

unfoldable pub validate_phases : RuntimeProfile → ℕ → Seen → List ValidationPhase → Result Seen
validate_phases profile index seen [] = ok seen
validate_phases profile index seen (phase ∷ rest) =
    validate_phase profile index seen phase >>= λ seen'.
    validate_phases profile (suc index) seen' rest

abbrev pub nothing_seen : Seen
nothing_seen = record { phases = []; actions = []; assertions = [] }

unfoldable pub validate_plan : RuntimeProfile → ValidationPlan → Check
validate_plan profile p = do
  validate_format p.format (Field.name "validation_plan.format_version")
  reject (length p.phases == 0 || ltb max_validation_phases (length p.phases))
      (Error.invalid (Field.name "validation_plan.phases") "must contain between one and 32 phases")
  validate_phases profile 0 nothing_seen p.phases >>= λ _. ok tt

-- The loop over the map of the four operation timeouts, in the order of the list.
unfoldable pub validate_timeouts : List (String × ℤ) → Check
validate_timeouts [] = ok tt
validate_timeouts ((name, value) ∷ rest) =
    let others = validate_timeouts rest in
    do
      reject (not (is_positive value) || ltb_ℤ (pos max_lifecycle_timeout) value) (
          Error.invalid (Field.sub (Field.name "lifecycle_policy") name)
            "is outside the platform limit")
      others

abbrev pub operation_timeouts : LifecyclePolicy → List (String × ℤ)
operation_timeouts p =
    ("create_timeout_seconds", p.create_timeout_seconds)
    ∷ ("reset_timeout_seconds", p.reset_timeout_seconds)
    ∷ ("stop_timeout_seconds", p.stop_timeout_seconds)
    ∷ ("reap_timeout_seconds", p.reap_timeout_seconds)
    ∷ []

unfoldable pub validate_lifecycle : LifecyclePolicy → Check
unfolding validate_timeouts
validate_lifecycle p = do
  validate_timeouts (operation_timeouts p)
  reject
      (not (is_positive p.idle_ttl_seconds)
        || (ltb_ℤ (pos max_lifetime_seconds) p.idle_ttl_seconds
            || (not (is_positive p.max_lifetime)
                || (ltb_ℤ (pos max_lifetime_seconds) p.max_lifetime
                    || ltb_ℤ p.max_lifetime p.idle_ttl_seconds))))
      (Error.invalid (Field.name "lifecycle_policy") "has invalid idle or maximum lifetime")
