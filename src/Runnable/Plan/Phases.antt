-- ===== src/Runnable/Plan/Phases.antt =====
-- internal/domain/runnable/validate.go: what a validation plan that passed its check guarantees.
use breakfix.Prelude.{
  ℕ, pos, suc, ◌+◌, ◌<◌, ◌≤◌, ◌≤ℤ◌, true, false, ◌||◌, List, [], ◌∷◌, ◌++◌, ◌≡◌, arith, map, ltb,
  ◌==◌, length, All, Among, Distinct, ap, sym, ◌∙◌,
}
use breakfix.Text.{member}
use breakfix.Text.Laws.{not-Among}
use breakfix.Errors.{Field, ok, reject, >>-eq-ok, >>=-eq-ok, reject-eq-ok}
use breakfix.Runnable.Model.{
  RuntimeProfile, ActionSpec, AssertionSpec, ValidationPhase, ValidationPlan,
  max_phase_timeout_seconds, max_actions_per_phase, max_assertions_per_phase, max_validation_phases,
}
use breakfix.Runnable.Kinds.{execution_valid}
use breakfix.Runnable.Ident.{validate_id, validate_format}
use breakfix.Runnable.Unique.{
  each_unique, each_unique_sound, Checks-All, Fresh, Fresh-Distinct, Fresh-append, seen_after,
}
use breakfix.Runnable.Plan.{
  Seen, nothing_seen, validate_phase, validate_phase_shape, validate_phases, validate_plan,
}
use breakfix.Runnable.Plan.Actions.{
  SafeAction, SafeAssertion, validate_action-SafeAction, validate_assertion-SafeAssertion,
}

unfoldable pub all_actions : List ValidationPhase → List ActionSpec
all_actions [] = []
all_actions (p ∷ ps) = p.actions ++ all_actions ps

unfoldable pub all_assertions : List ValidationPhase → List AssertionSpec
all_assertions [] = []
all_assertions (p ∷ ps) = p.assertions ++ all_assertions ps

-- A phase with bounded work, each action and assertion of which is within its boundary.
pub record SafePhase (profile : RuntimeProfile) (p : ValidationPhase) : Type 0 where
  pub execution : execution_valid p.execution ≡ true
  pub positive : pos 1 ≤ℤ p.timeout_seconds
  pub limited : p.timeout_seconds ≤ℤ pos max_phase_timeout_seconds
  pub few_actions : length p.actions ≤ max_actions_per_phase
  pub few_assertions : length p.assertions ≤ max_assertions_per_phase
  pub some_work : 0 < length p.actions + length p.assertions
  pub actions : All (SafeAction profile) p.actions
  pub assertions : All (SafeAssertion profile) p.assertions

record ShapeOk (p : ValidationPhase) : Type 0 where
  execution : execution_valid p.execution ≡ true
  positive : pos 1 ≤ℤ p.timeout_seconds
  limited : p.timeout_seconds ≤ℤ pos max_phase_timeout_seconds
  few_actions : length p.actions ≤ max_actions_per_phase
  few_assertions : length p.assertions ≤ max_assertions_per_phase
  some_work : 0 < length p.actions + length p.assertions

shape_ok : (p : ValidationPhase) (field : Field) → validate_phase_shape p field ≡ ok tt → ShapeOk p
unfolding validate_phase_shape
shape_ok p field h = ground arith

-- What one round of the loop adds to the sets.
record Round (profile : RuntimeProfile) (seen : Seen) (p : ValidationPhase) (seen' : Seen)
    : Type 0 where
  safe : SafePhase profile p
  new_phase : ¬ Among p.id seen.phases
  new_actions : Fresh (λ a. a.id) seen.actions p.actions
  new_assertions : Fresh (λ a. a.id) seen.assertions p.assertions
  phases : seen'.phases ≡ p.id ∷ seen.phases
  actions : seen'.actions ≡ seen_after (λ a. a.id) seen.actions p.actions
  assertions : seen'.assertions ≡ seen_after (λ a. a.id) seen.assertions p.assertions

safe_phase :
    (profile : RuntimeProfile) (p : ValidationPhase)
    → ShapeOk p
    → All (SafeAction profile) p.actions
    → All (SafeAssertion profile) p.assertions
    → SafePhase profile p
safe_phase profile p o a b = record {
  execution = o.execution;
  positive = o.positive;
  limited = o.limited;
  few_actions = o.few_actions;
  few_assertions = o.few_assertions;
  some_work = o.some_work;
  actions = a;
  assertions = b;
}

ok_injective : {a b : Seen} → ok a ≡ ok b → a ≡ b
ok_injective h = ground arith

validate_phase-Round :
    (profile : RuntimeProfile) (index : ℕ) (seen seen' : Seen) (p : ValidationPhase)
    → validate_phase profile index seen p ≡ ok seen'
    → Round profile seen p seen'
unfolding validate_phase
validate_phase-Round profile index seen seen' p h =
    let field = Field.index (Field.name "validation_plan.phases") index in
    let (_, h1) = >>-eq-ok (validate_id p.id (Field.sub field "id")) _ h in
    let (new, h2) = >>-eq-ok (reject (member p.id seen.phases) _) _ h1 in
    let (shape, h3) = >>-eq-ok (validate_phase_shape p field) _ h2 in
    let (ids, e1, h4) =
      >>=-eq-ok (each_unique _ (λ (a : ActionSpec). a.id) _ 0 seen.actions p.actions) _ h3 in
    let (ids', e2, h5) =
      >>=-eq-ok (each_unique _ (λ (a : AssertionSpec). a.id) _ 0 seen.assertions p.assertions) _
        h4 in
    let (c1, f1, a1) =
      each_unique_sound _ (λ (a : ActionSpec). a.id) _ 0 seen.actions p.actions e1 in
    let (c2, f2, a2) =
      each_unique_sound _ (λ (a : AssertionSpec). a.id) _ 0 seen.assertions p.assertions e2 in
    let after : record { phases = p.id ∷ seen.phases; actions = ids; assertions = ids' } ≡ seen' =
      ok_injective h5 in
    record {
      safe =
          safe_phase profile p (shape_ok p field shape)
            (Checks-All (SafeAction profile) _ (λ i. validate_action-SafeAction profile _) 0
              p.actions c1)
            (Checks-All (SafeAssertion profile) _ (λ i. validate_assertion-SafeAssertion profile _)
              0 p.assertions c2);
      new_phase = not-Among p.id seen.phases (reject-eq-ok _ _ new);
      new_actions = f1;
      new_assertions = f2;
      phases = sym (ap (λ (x : Seen). x.phases) after);
      actions = sym (ap (λ (x : Seen). x.actions) after) ∙ a1;
      assertions = sym (ap (λ (x : Seen). x.assertions) after) ∙ a2;
    }

-- What the loop over the phases adds up to.
record Rounds (profile : RuntimeProfile) (seen : Seen) (ps : List ValidationPhase) : Type 0 where
  safe : All (SafePhase profile) ps
  new_phases : Fresh (λ p. p.id) seen.phases ps
  new_actions : Fresh (λ a. a.id) seen.actions (all_actions ps)
  new_assertions : Fresh (λ a. a.id) seen.assertions (all_assertions ps)

Rounds-cons :
    {profile : RuntimeProfile} {seen seen' : Seen} {p : ValidationPhase} {ps : List ValidationPhase}
    → Round profile seen p seen'
    → Rounds profile seen' ps
    → Rounds profile seen (p ∷ ps)
unfolding all_actions all_assertions
Rounds-cons {seen} {p} {ps} r s = record {
  safe = (r.safe, s.safe);
  new_phases = (r.new_phase, rw r.phases at (s.new_phases));
  new_actions =
      Fresh-append (λ a. a.id) seen.actions p.actions (all_actions ps) r.new_actions
        (rw r.actions at (s.new_actions));
  new_assertions =
      Fresh-append (λ a. a.id) seen.assertions p.assertions (all_assertions ps) r.new_assertions
        (rw r.assertions at (s.new_assertions));
}

validate_phases-Rounds :
    (profile : RuntimeProfile) (index : ℕ) (seen : Seen) (ps : List ValidationPhase) {after : Seen}
    → validate_phases profile index seen ps ≡ ok after
    → Rounds profile seen ps
unfolding validate_phases all_actions all_assertions
validate_phases-Rounds profile index seen [] h = record {
  safe = tt;
  new_phases = tt;
  new_actions = tt;
  new_assertions = tt;
}
validate_phases-Rounds profile index seen (p ∷ ps) h =
    let (seen', e, h1) = >>=-eq-ok (validate_phase profile index seen p) _ h in
    Rounds-cons (validate_phase-Round profile index seen seen' p e)
      (validate_phases-Rounds profile (suc index) seen' ps h1)

-- A plan with at most 32 phases, each of them safe; the identifiers of the phases are different, and
-- so are those of all the actions and of all the assertions, over the whole plan.
pub record SafePlan (profile : RuntimeProfile) (plan : ValidationPlan) : Type 0 where
  pub some_phase : 0 < length plan.phases
  pub few_phases : length plan.phases ≤ max_validation_phases
  pub safe : All (SafePhase profile) plan.phases
  pub phase_ids : Distinct (map (λ p. p.id) plan.phases)
  pub action_ids : Distinct (map (λ a. a.id) (all_actions plan.phases))
  pub assertion_ids : Distinct (map (λ a. a.id) (all_assertions plan.phases))

phase_count :
    (n : ℕ)
    → (n == 0 || ltb max_validation_phases n) ≡ false
    → (0 < n) × (n ≤ max_validation_phases)
phase_count n h = ground arith

pub validate_plan-SafePlan :
    (profile : RuntimeProfile) (plan : ValidationPlan)
    → validate_plan profile plan ≡ ok tt
    → SafePlan profile plan
unfolding validate_plan
validate_plan-SafePlan profile plan h =
    let (_, h1) = >>-eq-ok (validate_format plan.format _) _ h in
    let (n, h2) =
      >>-eq-ok
        (reject (length plan.phases == 0 || ltb max_validation_phases (length plan.phases)) _) _
        h1 in
    let (after, e, _) = >>=-eq-ok (validate_phases profile 0 nothing_seen plan.phases) _ h2 in
    let (several, few) = phase_count (length plan.phases) (reject-eq-ok _ _ n) in
    let r : Rounds profile nothing_seen plan.phases =
      validate_phases-Rounds profile 0 nothing_seen plan.phases e in
    record {
      some_phase = several;
      few_phases = few;
      safe = r.safe;
      phase_ids = Fresh-Distinct (λ p. p.id) [] plan.phases r.new_phases;
      action_ids = Fresh-Distinct (λ a. a.id) [] (all_actions plan.phases) r.new_actions;
      assertion_ids = Fresh-Distinct (λ a. a.id) [] (all_assertions plan.phases) r.new_assertions;
    }
