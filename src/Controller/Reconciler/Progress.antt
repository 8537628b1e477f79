-- ===== src/Controller/Reconciler/Progress.antt =====
-- internal/controller/runtimeenvironment/reconciler.go: the rounds after a reap has succeeded.
use breakfix.Prelude.{
  Bool, true, false, not, [], ◌∷◌, some, pos, ◌≡◌, refl, ap, ◌∙◌, arith, if◌then◌else◌,
}
use breakfix.Text.{Text}
use breakfix.Errors.{Error, Result, ok, err, Check, reject, ◌>>◌}
use breakfix.Runnable.Reap.{ReapState, ReapRecord, binding_digest, reap_key}
use breakfix.Controller.Environment.{
  EnvironmentPhase, EnvironmentOperation, RuntimeEnvironment, phase_eq,
}
use breakfix.Controller.State.{Decision, Plan, can_transition, validate_spec_binding, decide}
use breakfix.Controller.Reconciler.{
  is_set, Services, Write, Outcome, Resolution, resolve_plan, environment_binding, update_status,
  after_status,
}
use breakfix.Controller.Reconciler.Reap.{
  is_succeeded, reap_request, release, reap_with, reconcile_reap, reconcile_deletion,
}
use breakfix.Controller.Reconciler.Apply.{act, reconcile_resolved, reconcile}

pub taken :
    {A : Type 0} (m : Result A) (f : Error → Outcome) (g : A → Outcome) {a : A}
    → m ≡ ok a
    → elim m [ err x ↦ f x | ok a ↦ g a ] ≡ g a
taken (ok a) f g h = ground arith
taken (err x) f g h = absurd (ground arith)

pub resolved_taken :
    (m : Resolution) (f g : Error → Outcome) (k : Plan → Outcome) {p : Plan}
    → m ≡ Resolution.resolved p
    → elim m [
      | Resolution.resolved p ↦ k p
      | Resolution.not_installed x ↦ f x
      | Resolution.unavailable x ↦ g x
    ]
      ≡ k p
resolved_taken (Resolution.resolved p) f g k h = ground arith
resolved_taken (Resolution.not_installed x) f g k h = absurd (ground arith)
resolved_taken (Resolution.unavailable x) f g k h = absurd (ground arith)

then_taken : (b : Bool) (x y : Outcome) → b ≡ true → (if b then x else y) ≡ x
then_taken true x y h = refl
then_taken false x y h = absurd (ground arith)

pub else_taken : (b : Bool) (x y : Outcome) → b ≡ false → (if b then x else y) ≡ y
else_taken false x y h = refl
else_taken true x y h = absurd (ground arith)

pub not-true : (b : Bool) → b ≡ true → not b ≡ false
not-true b h = ground arith

drains_to_released :
    (p : EnvironmentPhase)
    → p ≡ EnvironmentPhase.draining
    → can_transition p EnvironmentPhase.released ≡ true
unfolding can_transition phase_eq
drains_to_released p h = ground arith

pub accepted :
    (allowed : Bool) (x : Error) (m : Check) (e : RuntimeEnvironment)
    → allowed ≡ true
    → m ≡ ok tt
    → (reject (not allowed) x >> (m >> ok e)) ≡ ok e
accepted allowed x m e a h = ground arith

module _ (s : Services) where
  -- The environment as it is written when it is released.
  abbrev pub released_form : RuntimeEnvironment → RuntimeEnvironment
  released_form e = record e {
    status = record (e.status) {
      phase = EnvironmentPhase.released;
      operation = EnvironmentOperation.operation_none;
      released_at = some s.now;
      observed_generation = e.generation;
    };
  }

  abbrev pub Succeeded : RuntimeEnvironment → Plan → Type 0
  Succeeded e p =
      (digest : Text) × (r : ReapRecord) × (binding_digest s.codec (environment_binding s e p)
        ≡ ok digest)
      × (s.enqueue (reap_request s digest (environment_binding s e p)) ≡ ok tt)
      × (s.get (reap_key (reap_request s digest (environment_binding s e p))) ≡ ok r)
      × (r.state ≡ ReapState.succeeded)

  reap-release :
      (e : RuntimeEnvironment) (p : Plan)
      → Succeeded e p
      → reconcile_reap s (environment_binding s e p) e ≡ release s e
  unfolding reconcile_reap reap_with
  reap-release e p (digest, r, d, q, g, done) =
      taken (binding_digest s.codec (environment_binding s e p)) _ _ d
      ∙ taken (s.enqueue (reap_request s digest (environment_binding s e p))) _ _ q
      ∙ taken (s.get (reap_key (reap_request s digest (environment_binding s e p)))) _ _ g
      ∙ then_taken (is_succeeded s r.state) _ _ (rw done refl)

  -- What follows the write of the released status.
  abbrev ask_deletion : RuntimeEnvironment → Outcome
  ask_deletion e = elim (s.delete e) [
    | ok t ↦ (ok (pos 0), Write.delete_call ∷ [])
    | err x ↦ (err x, [])
  ]

  -- The round that releases a draining environment.
  pub drained_is_released :
      (e : RuntimeEnvironment) (p : Plan)
      → is_set e.deletion_timestamp ≡ false
      → e.has_finalizer ≡ true
      → e.status.phase ≡ EnvironmentPhase.draining
      → resolve_plan s e ≡ Resolution.resolved p
      → validate_spec_binding s.codec e p ≡ ok tt
      → decide s.codec e p s.now e.reset_nonce_annotation ≡ ok Decision.reap
      → Succeeded e p
      → s.patch_status (released_form e) ≡ ok tt
      → s.delete (released_form e) ≡ ok tt
      → reconcile s e ≡ (ok (pos 0), Write.status_patch (released_form e) ∷ Write.delete_call ∷ [])
  unfolding reconcile reconcile_resolved act release update_status after_status
  drained_is_released e p here owned phase plan valid reap done patch delete =
      else_taken (is_set e.deletion_timestamp) _ _ here
      ∙ else_taken (not e.has_finalizer) _ _ (not-true e.has_finalizer owned)
      ∙ resolved_taken (resolve_plan s e) _ _ _ plan
      ∙ taken (validate_spec_binding s.codec e p) _ _ valid
      ∙ taken (decide s.codec e p s.now e.reset_nonce_annotation) _ _ reap
      ∙ reap-release e p done
      ∙ else_taken (is_set e.deletion_timestamp) _ _ here
      ∙ ap (λ m. after_status s m ask_deletion)
          (accepted (can_transition e.status.phase EnvironmentPhase.released) _
            (s.patch_status (released_form e)) (released_form e)
            (drains_to_released e.status.phase phase) patch)
      ∙ ap (λ (o : Outcome). (o.0, Write.status_patch (released_form e) ∷ o.1))
          (taken (s.delete (released_form e)) (λ x. (err x, []))
            (λ t. (ok (pos 0), Write.delete_call ∷ [])) delete)

  -- The round that frees a deleted environment.
  pub deleted_is_freed :
      (e : RuntimeEnvironment) (p : Plan)
      → is_set e.deletion_timestamp ≡ true
      → e.has_finalizer ≡ true
      → resolve_plan s e ≡ Resolution.resolved p
      → Succeeded e p
      → s.patch (record e { has_finalizer = false }) ≡ ok tt
      → reconcile s e ≡ (ok (pos 0), Write.metadata_patch (record e { has_finalizer = false }) ∷ [])
  unfolding reconcile reconcile_deletion release
  deleted_is_freed e p gone owned plan done patch =
      then_taken (is_set e.deletion_timestamp) _ _ gone
      ∙ else_taken (not e.has_finalizer) _ _ (not-true e.has_finalizer owned)
      ∙ resolved_taken (resolve_plan s e) _ _ _ plan
      ∙ reap-release e p done
      ∙ then_taken (is_set e.deletion_timestamp) _ _ gone
      ∙ taken (s.patch (record e { has_finalizer = false })) _ _ patch
