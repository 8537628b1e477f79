-- ===== src/Controller/Reconciler/Release.antt =====
-- internal/controller/runtimeenvironment/reconciler.go: the writes of `Reconcile`, from the case of
-- the decision outward.
use breakfix.Prelude.{
  Bool, true, false, not, ◌&&◌, ◌≡◌, refl, sym, ◌∙◌, arith, inl, inr, Bool-cases,
}
use breakfix.Errors.{Error}
use breakfix.Runnable.Reap.{ReapState, binding_digest, reap_key}
use breakfix.Controller.Environment.{RuntimeEnvironment, is_resetting}
use breakfix.Controller.State.{Decision, Plan, validate_spec_binding, decide}
use breakfix.Controller.State.Phases.{stay}
use breakfix.Controller.Reconciler.{
  is_set, Services, Outcome, requeue, Resolution, resolve_plan, environment_binding,
}
use breakfix.Controller.Reconciler.Reap.{
  is_succeeded, reap_request, release, reap_with, reconcile_reap, reconcile_deletion,
}
use breakfix.Controller.Reconciler.Apply.{
  is_some, observe_reset, do_reset, act, reconcile_resolved, reconcile,
}
use breakfix.Runnable.Plan.{eq_ℤ}
use breakfix.Controller.Reconciler.Allowed.{Reaped, From, AllSound, write_status-AllSound}
use breakfix.Controller.Reconciler.Writes.{
  match_bool, match_result, fail-AllSound, infrastructure-AllSound, provision-AllSound,
  bounded_reset-AllSound, write_metadata-AllSound,
}

module _ (s : Services) where
  observe_reset-AllSound :
      (p : Plan) (e0 e : RuntimeEnvironment) → From s e0 e → AllSound s e0 (observe_reset s p e)
  unfolding observe_reset
  observe_reset-AllSound p e0 e f =
      elim (Bool-cases (
        eq_ℤ e.reset_nonce_annotation e.spec.reset_nonce && is_some s e.reset_adopted_annotation)) [
          | inl seen ↦ rw seen (bounded_reset-AllSound s p e0 e f)
          | inr new ↦ rw new (
              write_metadata-AllSound s e0 _ _ f.finalizer (
                bounded_reset-AllSound s p e0 _
                  (record { leads = f.leads; kept = f.kept; finalizer = f.finalizer })))
        ]

  reset-AllSound :
      (p : Plan) (e0 e : RuntimeEnvironment) → From s e0 e → AllSound s e0 (do_reset s p e)
  unfolding do_reset
  reset-AllSound p e0 e f = elim (Bool-cases (is_resetting e.status.operation)) [
    | inl on ↦ rw on (observe_reset-AllSound p e0 e f)
    | inr off ↦ rw off (
        write_status-AllSound s _ e0 e (observe_reset s p) f (λ h. inl (f.kept h))
          (λ e' l phase fin.
            observe_reset-AllSound p e0 e'
              (record { leads = l; kept = λ h. f.kept (sym phase ∙ h); finalizer = fin })))
  ]

  release-AllSound :
      (e0 e : RuntimeEnvironment) → From s e0 e → Reaped s e0 → AllSound s e0 (release s e)
  unfolding release
  release-AllSound e0 e f r = elim (Bool-cases (is_set e.deletion_timestamp)) [
    | inl gone ↦
        rw gone (match_result (AllSound s e0) (s.patch _) _ _ (λ x. tt) (λ t _. (inr r, tt)))
    | inr here ↦ rw here (
        write_status-AllSound s _ e0 e _ f (λ h. inr r)
          (λ e' l p h. match_result (AllSound s e0) (s.delete e') _ _ (λ x. tt) (λ t _. (r, tt))))
  ]

  is_succeeded-eq : (x : ReapState) → is_succeeded s x ≡ true → x ≡ ReapState.succeeded
  is_succeeded-eq x h = ground arith

  reap-AllSound :
      (p : Plan) (e : RuntimeEnvironment)
      → From s e e
      → resolve_plan s e ≡ Resolution.resolved p
      → AllSound s e (reconcile_reap s (environment_binding s e p) e)
  unfolding reconcile_reap reap_with
  reap-AllSound p e f plan =
      let b = environment_binding s e p in
      match_result (AllSound s e) (binding_digest s.codec b) _ _ (λ x. tt)
        (λ digest at.
          match_result (AllSound s e) (s.enqueue (reap_request s digest b)) _ _ (λ x. tt)
            (λ t _.
              match_result (AllSound s e) (s.get (reap_key (reap_request s digest b))) _ _ (λ x. tt)
                (λ r found. elim (Bool-cases (is_succeeded s r.state)) [
                  | inl done ↦ rw done (
                      release-AllSound e e f
                        (p, digest, r, plan, at, found, is_succeeded-eq r.state done))
                  | inr busy ↦ rw busy tt
                ])))

  act-AllSound :
      (p : Plan) (d : Decision) (e : RuntimeEnvironment)
      → From s e e
      → resolve_plan s e ≡ Resolution.resolved p
      → AllSound s e (act s p d e)
  unfolding act
  act-AllSound p Decision.decision_none e f plan = tt
  act-AllSound p Decision.drain e f plan =
      write_status-AllSound s _ e e (λ e'. requeue 2) f (λ h. absurd (ground arith))
        (λ e' l p h. tt)
  act-AllSound p Decision.provision e f plan = provision-AllSound s p e e f
  act-AllSound p Decision.reset e f plan = reset-AllSound p e e f
  act-AllSound p Decision.reap e f plan = reap-AllSound p e f plan

  resolved-AllSound :
      (p : Plan) (e : RuntimeEnvironment)
      → From s e e
      → resolve_plan s e ≡ Resolution.resolved p
      → AllSound s e (reconcile_resolved s p e)
  unfolding reconcile_resolved
  resolved-AllSound p e f plan =
      match_result (AllSound s e) (validate_spec_binding s.codec e p) _ _
        (λ x. fail-AllSound s _ _ _ x e e f)
        (λ t _.
          match_result (AllSound s e) (decide s.codec e p s.now e.reset_nonce_annotation) _ _
            (λ x. fail-AllSound s _ _ _ x e e f) (λ d _. act-AllSound p d e f plan))

  match_resolution :
      (P : Outcome → Type 0) (m : Resolution) (f g : Error → Outcome) (k : Plan → Outcome)
      → ((x : Error) → P (f x))
      → ((x : Error) → P (g x))
      → ((p : Plan) → m ≡ Resolution.resolved p → P (k p))
      → P (elim m [
        | Resolution.resolved p ↦ k p
        | Resolution.not_installed x ↦ f x
        | Resolution.unavailable x ↦ g x
      ])
  match_resolution P (Resolution.resolved p) f g k a b c = c p refl
  match_resolution P (Resolution.not_installed x) f g k a b c = a x
  match_resolution P (Resolution.unavailable x) f g k a b c = b x

  itself : (e : RuntimeEnvironment) → e.has_finalizer ≡ true → From s e e
  itself e h = record { leads = stay; kept = λ x. x; finalizer = h }

  owner : (b : Bool) → not b ≡ false → b ≡ true
  owner b h = ground arith

  deletion-AllSound : (e : RuntimeEnvironment) → AllSound s e (reconcile_deletion s e)
  unfolding reconcile_deletion
  deletion-AllSound e =
      match_bool (AllSound s e) (not e.has_finalizer) _ _ (λ h. tt)
        (λ owned.
          match_resolution (AllSound s e) (resolve_plan s e) _ _ _ (λ x. tt) (λ x. tt)
            (λ p plan. reap-AllSound p e (itself e (owner e.has_finalizer owned)) plan))

  pub reconcile-AllSound : (e : RuntimeEnvironment) → AllSound s e (reconcile s e)
  unfolding reconcile
  reconcile-AllSound e =
      match_bool (AllSound s e) (is_set e.deletion_timestamp) _ _ (λ h. deletion-AllSound e)
        (λ here.
          match_bool (AllSound s e) (not e.has_finalizer) _ _
            (λ h. write_metadata-AllSound s e _ _ refl tt)
            (λ owned.
              let f = itself e (owner e.has_finalizer owned) in
              match_resolution (AllSound s e) (resolve_plan s e) _ _ _
                (λ x. fail-AllSound s _ _ _ x e e f) (λ x. infrastructure-AllSound s _ _ x e e f)
                (λ p plan. resolved-AllSound p e f plan)))
