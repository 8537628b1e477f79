-- ===== src/Controller/Reconciler/Ends.antt =====
-- internal/controller/runtimeenvironment/reconciler.go and state.go: the end of an environment, from its
-- expiry to the removal of its finalizer.
use breakfix.Prelude.{
  ◌*◌, ◌≤◌, ◌<◌, true, false, not, [], ◌∷◌, some, pos, ◌≡◌, ◌≢◌, refl, ap, ◌∙◌, arith,
}
use breakfix.Errors.{ok}
use breakfix.Runnable.Model.{Time}
use breakfix.Runnable.Backoff.{second}
use breakfix.Controller.Environment.{
  EnvironmentPhase, EnvironmentOperation, RuntimeEnvironment, phase_eq, is_other_operation,
}
use breakfix.Controller.State.{
  Decision, Plan, plan_lifecycle, can_transition, validate_spec_binding, expires_at, decide,
  decide_live,
}
use breakfix.Controller.State.Decisions.{is_known}
use breakfix.Controller.Reconciler.{
  is_set, Services, Write, Resolution, resolve_plan, environment_binding, update_status,
  after_status,
}
use breakfix.Controller.Reconciler.Reap.{reap_request}
use breakfix.Controller.Reconciler.Apply.{act, reconcile_resolved, reconcile}
use breakfix.Controller.Reconciler.Progress.{
  taken, resolved_taken, else_taken, not-true, accepted, released_form, Succeeded,
  drained_is_released, deleted_is_freed,
}

drains :
    (p : EnvironmentPhase)
    → is_known p ≡ true
    → p ≢ EnvironmentPhase.released
    → can_transition p EnvironmentPhase.draining ≡ true
unfolding can_transition phase_eq
drains p k n = ground arith

set_time : (t : Time) → 0 < t → is_set (some t) ≡ true
set_time t h = ground arith

-- The services when the clock shows another time.
abbrev pub at_time : Services → Time → Services
at_time s n = record s { now = n }

-- The environment as it is written when it drains.
abbrev draining_form : RuntimeEnvironment → RuntimeEnvironment
draining_form e = record e {
  status = record (e.status) {
    phase = EnvironmentPhase.draining;
    operation = EnvironmentOperation.operation_none;
    observed_generation = e.generation;
  };
}

module _ (s : Services) where
  decide_drains :
      (e : RuntimeEnvironment) (p : Plan) (now : Time) {expires : Time}
      → validate_spec_binding s.codec e p ≡ ok tt
      → expires_at e.creation_timestamp e.spec.lease (plan_lifecycle p) ≡ ok expires
      → expires ≤ now
      → e.status.phase ≢ EnvironmentPhase.released
      → e.status.phase ≢ EnvironmentPhase.draining
      → is_other_operation e.status.operation ≡ false
      → decide s.codec e p now e.reset_nonce_annotation ≡ ok Decision.drain
  unfolding decide decide_live phase_eq
  decide_drains e p now v x over r d o = rw (v, x) (ground arith)

  decide_reaps :
      (e : RuntimeEnvironment) (p : Plan) (now : Time) {expires : Time}
      → validate_spec_binding s.codec e p ≡ ok tt
      → expires_at e.creation_timestamp e.spec.lease (plan_lifecycle p) ≡ ok expires
      → decide s.codec (draining_form e) p now e.reset_nonce_annotation ≡ ok Decision.reap
  unfolding decide decide_live phase_eq validate_spec_binding
  decide_reaps e p now v x = rw (v, x) (ground arith)

  valid_draining :
      (e : RuntimeEnvironment) (p : Plan)
      → validate_spec_binding s.codec e p ≡ ok tt
      → validate_spec_binding s.codec (draining_form e) p ≡ ok tt
  unfolding validate_spec_binding
  valid_draining e p v = v

  -- The first round.
  expired_is_drained :
      (e : RuntimeEnvironment) (p : Plan) {expires : Time}
      → is_set e.deletion_timestamp ≡ false
      → e.has_finalizer ≡ true
      → is_known e.status.phase ≡ true
      → e.status.phase ≢ EnvironmentPhase.released
      → e.status.phase ≢ EnvironmentPhase.draining
      → is_other_operation e.status.operation ≡ false
      → resolve_plan s e ≡ Resolution.resolved p
      → validate_spec_binding s.codec e p ≡ ok tt
      → expires_at e.creation_timestamp e.spec.lease (plan_lifecycle p) ≡ ok expires
      → expires ≤ s.now
      → s.patch_status (draining_form e) ≡ ok tt
      → reconcile s e ≡ (ok (pos (2 * second)), Write.status_patch (draining_form e) ∷ [])
  unfolding reconcile reconcile_resolved act update_status after_status
  expired_is_drained e p here owned known live calm operating plan valid expiry over patch =
      else_taken (is_set e.deletion_timestamp) _ _ here
      ∙ else_taken (not e.has_finalizer) _ _ (not-true e.has_finalizer owned)
      ∙ resolved_taken (resolve_plan s e) _ _ _ plan
      ∙ taken (validate_spec_binding s.codec e p) _ _ valid
      ∙ taken (decide s.codec e p s.now e.reset_nonce_annotation) _ _
          (decide_drains e p s.now valid expiry over live calm operating)
      ∙ ap (λ m. after_status s m (λ x. (ok (pos (2 * second)), [])))
          (accepted (can_transition e.status.phase EnvironmentPhase.draining) _
            (s.patch_status (draining_form e)) (draining_form e) (drains e.status.phase known live)
            patch)

module _ (s : Services) where
  -- The API server takes every write.
  pub record TakesWrites : Type 0 where
    pub status : (e : RuntimeEnvironment) → s.patch_status e ≡ ok tt
    pub metadata : (e : RuntimeEnvironment) → s.patch e ≡ ok tt
    pub deletion : (e : RuntimeEnvironment) → s.delete e ≡ ok tt

  plan_kept :
      (e e' : RuntimeEnvironment) (p : Plan) (n : Time)
      → e'.spec ≡ e.spec
      → resolve_plan s e ≡ Resolution.resolved p
      → resolve_plan (at_time s n) e' ≡ Resolution.resolved p
  unfolding resolve_plan
  plan_kept e e' p n same plan = rw same plan

  binding_kept :
      (e e' : RuntimeEnvironment) (p : Plan) (n : Time)
      → e'.spec ≡ e.spec
      → e'.namespace ≡ e.namespace
      → e'.name ≡ e.name
      → e'.uid ≡ e.uid
      → environment_binding (at_time s n) e' p ≡ environment_binding s e p
  unfolding environment_binding
  binding_kept e e' p n same namespace name uid = rw (same, namespace, name, uid) refl

  Succeeded-kept :
      (e e' : RuntimeEnvironment) (p : Plan) (n : Time)
      → environment_binding (at_time s n) e' p ≡ environment_binding s e p
      → Succeeded s e p
      → Succeeded (at_time s n) e' p
  unfolding reap_request
  Succeeded-kept e e' p n same done = rw same done

  -- Three rounds end an expired environment. Let it be of a known phase, neither draining nor released,
  -- and of a known operation, not deleted and with its finalizer; let its plan resolve, pass
  -- `ValidateSpec` and give an expiry that is not after the first round; let the queue take the
  -- request of its binding and report it as succeeded, and the API server take every write. The first
  -- round then writes it as draining; the second, at any time, writes that one as released and asks
  -- for its deletion; and the third, at any time, once it has a deletion timestamp, removes the
  -- finalizer. The rounds write nothing else.
  pub expired_is_freed :
      (e : RuntimeEnvironment) (p : Plan) (n1 n2 n3 deleted : Time) {expires : Time}
      → is_set e.deletion_timestamp ≡ false
      → e.has_finalizer ≡ true
      → is_known e.status.phase ≡ true
      → e.status.phase ≢ EnvironmentPhase.released
      → e.status.phase ≢ EnvironmentPhase.draining
      → is_other_operation e.status.operation ≡ false
      → resolve_plan s e ≡ Resolution.resolved p
      → validate_spec_binding s.codec e p ≡ ok tt
      → expires_at e.creation_timestamp e.spec.lease (plan_lifecycle p) ≡ ok expires
      → expires ≤ n1
      → Succeeded s e p
      → TakesWrites
      → 0 < deleted
      → (drained released gone freed : RuntimeEnvironment) × (drained.status.phase
          ≡ EnvironmentPhase.draining)
        × (released.status.phase ≡ EnvironmentPhase.released)
        × (gone ≡ record released { deletion_timestamp = some deleted })
        × (freed ≡ record gone { has_finalizer = false })
        × (reconcile (at_time s n1) e ≡ (ok (pos (2 * second)), Write.status_patch drained ∷ []))
        × (reconcile (at_time s n2) drained
            ≡ (ok (pos 0), Write.status_patch released ∷ Write.delete_call ∷ []))
        × (reconcile (at_time s n3) gone ≡ (ok (pos 0), Write.metadata_patch freed ∷ []))
  expired_is_freed e p n1 n2 n3 deleted here owned known live calm operating plan valid expiry over
        done takes at =
      let drained : RuntimeEnvironment = draining_form e in
      let released : RuntimeEnvironment = released_form (at_time s n2) drained in
      let gone : RuntimeEnvironment = record released { deletion_timestamp = some deleted } in
      let freed : RuntimeEnvironment = record gone { has_finalizer = false } in
      (
        drained,
        released,
        gone,
        freed,
        refl,
        refl,
        refl,
        refl,
        expired_is_drained (at_time s n1) e p here owned known live calm operating
            (plan_kept e e p n1 refl plan) valid expiry over (takes.status drained),
        drained_is_released (at_time s n2) drained p here owned refl
            (plan_kept e drained p n2 refl plan) (valid_draining s e p valid)
            (decide_reaps s e p n2 valid expiry)
            (Succeeded-kept e drained p n2 (binding_kept e drained p n2 refl refl refl refl) done)
            (takes.status released) (takes.deletion released),
        deleted_is_freed (at_time s n3) gone p (set_time deleted at) owned
            (plan_kept e gone p n3 refl plan)
            (Succeeded-kept e gone p n3 (binding_kept e gone p n3 refl refl refl refl) done)
            (takes.metadata freed),
      )
