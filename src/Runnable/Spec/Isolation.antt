-- ===== src/Runnable/Spec/Isolation.antt =====
-- internal/domain/runnable/validate.go: what a spec that passed its check guarantees of all the work
-- that it declares, initialization included.
use breakfix.Prelude.{
  ℕ, ◌<◌, ◌≤◌, false, ◌||◌, List, [], ◌∷◌, ◌++◌, ◌≡◌, ◌≢◌, arith, map, ltb, ◌==◌, length, All,
  All-append, Among, Distinct,
}
use breakfix.Text.{Text, member, text_eq, codes}
use breakfix.Text.Laws.{not-Among, text_eq_iff}
use breakfix.Errors.{ok, reject, >>-eq-ok, >>=-eq-ok, reject-eq-ok}
use breakfix.Runnable.Model.{ActionSpec, ValidationPhase, RunnableSpec, max_actions_per_phase}
use breakfix.Runnable.Ident.{validate_format}
use breakfix.Runnable.Unique.{
  each_unique, each_unique_sound, Checks-All, Fresh, Fresh-Distinct, Fresh-append, Distinct-Fresh,
  seen_after,
}
use breakfix.Runnable.Profile.{validate_identity, validate_profile, validate_source}
use breakfix.Runnable.Profile.Approved.{IsProfile, validate_profile-IsProfile}
use breakfix.Runnable.Plan.{validate_plan}
use breakfix.Runnable.Plan.Actions.{SafeAction, validate_action-SafeAction}
use breakfix.Runnable.Plan.Phases.{SafePlan, all_actions, validate_plan-SafePlan}
use breakfix.Runnable.Plan.Lifecycle.{IsPolicy, validate_lifecycle-IsPolicy}
use breakfix.Runnable.Spec.{validate_initialization, reject_reused, reject_reserved, validate_spec}

-- The identifiers of all actions, those of the initialization first.
abbrev pub action_ids : RunnableSpec → List Text
action_ids s = map (λ a. a.id) (s.initialization ++ all_actions s.validation_plan.phases)

pub record Isolated (s : RunnableSpec) : Type 0 where
  pub profile : IsProfile s.runtime_profile
  pub policy : IsPolicy s.lifecycle_policy
  pub plan : SafePlan s.runtime_profile s.validation_plan
  pub some_initialization : 0 < length s.initialization
  pub few_initializations : length s.initialization ≤ max_actions_per_phase
  pub initialization : All (SafeAction s.runtime_profile) s.initialization
  pub distinct_actions : Distinct (action_ids s)
  pub not_reserved :
      All (λ (p : ValidationPhase). p.id ≢ codes "initialization") s.validation_plan.phases

reject_reused_sound :
    (ids : List Text) (rest : List ActionSpec)
    → reject_reused ids rest ≡ ok tt
    → All (λ (a : ActionSpec). ¬ Among a.id ids) rest
unfolding reject_reused
reject_reused_sound ids [] h = tt
reject_reused_sound ids (a ∷ rest) h =
    let (new, later) = >>-eq-ok (reject (member a.id ids) _) (reject_reused ids rest) h in
    (not-Among a.id ids (reject-eq-ok _ _ new), reject_reused_sound ids rest later)

reject_reserved_sound :
    (ids : List Text) (ps : List ValidationPhase)
    → reject_reserved ids ps ≡ ok tt
    → All (λ (p : ValidationPhase). p.id ≢ codes "initialization") ps
      × All (λ (a : ActionSpec). ¬ Among a.id ids) (all_actions ps)
unfolding reject_reserved all_actions
reject_reserved_sound ids [] h = (tt, tt)
reject_reserved_sound ids (p ∷ ps) h =
    let (name, h1) = >>-eq-ok (reject (text_eq p.id (codes "initialization")) _) _ h in
    let (reused, later) = >>-eq-ok (reject_reused ids p.actions) (reject_reserved ids ps) h1 in
    let (names, actions) = reject_reserved_sound ids ps later in
    (
      (other_name p.id (reject-eq-ok _ _ name), names),
      All-append (λ (a : ActionSpec). ¬ Among a.id ids) p.actions (all_actions ps)
          (reject_reused_sound ids p.actions reused) actions,
    )
  where
    other_name :
        (t : Text) → text_eq t (codes "initialization") ≡ false → t ≢ codes "initialization"
    other_name t h = λ e. ground (arith, text_eq_iff t (codes "initialization"))

distinct_together :
    (xs ys : List ActionSpec)
    → Fresh (λ a. a.id) [] xs
    → Distinct (map (λ a. a.id) ys)
    → All (λ (a : ActionSpec). ¬ Among a.id (seen_after (λ b. b.id) [] xs)) ys
    → Distinct (map (λ a. a.id) (xs ++ ys))
distinct_together xs ys f d apart =
    let ids : List Text = seen_after (λ (b : ActionSpec). b.id) [] xs in
    Fresh-Distinct (λ a. a.id) [] (xs ++ ys)
      (Fresh-append (λ a. a.id) [] xs ys f (Distinct-Fresh (λ a. a.id) ids ys d apart))

initialization_count :
    (n : ℕ)
    → (n == 0 || ltb max_actions_per_phase n) ≡ false
    → (0 < n) × (n ≤ max_actions_per_phase)
initialization_count n h = ground arith

-- A spec that passes its check has an approved profile, a bounded lifecycle, and between 1 and 64
-- initialization actions; every action, of the initialization and of each phase, runs in a boundary
-- of the profile with the same target, write permission and at least its timeout, which is at most an
-- hour, and every assertion in one that only reads; no two actions of the whole spec share an
-- identifier, nor do two phases or two assertions; and no phase takes the reserved name.
pub validate_spec-Isolated : (s : RunnableSpec) → validate_spec s ≡ ok tt → Isolated s
unfolding validate_spec validate_initialization
validate_spec-Isolated s h =
    let (_, h1) = >>-eq-ok (validate_format s.format _) _ h in
    let (_, h2) = >>-eq-ok (validate_identity s.identity) _ h1 in
    let (profile, h3) = >>-eq-ok (validate_profile s.runtime_profile) _ h2 in
    let (_, h4) = >>-eq-ok (validate_source s.source) _ h3 in
    let (n, h5) =
      >>-eq-ok
        (reject
          (length s.initialization == 0 || ltb max_actions_per_phase (length s.initialization)) _)
        _ h4 in
    let (ids, init, h6) =
      >>=-eq-ok (each_unique _ (λ (a : ActionSpec). a.id) _ 0 [] s.initialization) _ h5 in
    let (plan, h7) = >>-eq-ok (validate_plan s.runtime_profile s.validation_plan) _ h6 in
    let (reserved, lifecycle) = >>-eq-ok (reject_reserved ids s.validation_plan.phases) _ h7 in
    let (several, few) = initialization_count (length s.initialization) (reject-eq-ok _ _ n) in
    let (checks, fresh, seen) =
      each_unique_sound _ (λ (a : ActionSpec). a.id) _ 0 [] s.initialization init in
    let (names, apart) = reject_reserved_sound ids s.validation_plan.phases reserved in
    let safe : SafePlan s.runtime_profile s.validation_plan =
      validate_plan-SafePlan s.runtime_profile s.validation_plan plan in
    record {
      profile = validate_profile-IsProfile s.runtime_profile profile;
      policy = (validate_lifecycle-IsPolicy s.lifecycle_policy).0 lifecycle;
      plan = safe;
      some_initialization = several;
      few_initializations = few;
      initialization =
          Checks-All (SafeAction s.runtime_profile) _
            (λ i. validate_action-SafeAction s.runtime_profile _) 0 s.initialization checks;
      distinct_actions =
          distinct_together s.initialization (all_actions s.validation_plan.phases) fresh
            safe.action_ids (rw seen at apart);
      not_reserved = names;
    }
