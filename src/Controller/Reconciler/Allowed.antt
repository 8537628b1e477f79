-- ===== src/Controller/Reconciler/Allowed.antt =====
-- internal/controller/runtimeenvironment/reconciler.go: what every write of a reconciliation
-- satisfies.
use breakfix.Prelude.{true, not, ◌≡◌, refl, sym, ◌∙◌, arith, ◌⊎◌, inl, inr, All}
use breakfix.Text.{Text}
use breakfix.Errors.{ok, reject, ◌>>◌, >>-eq-ok, reject-not, Result-cases}
use breakfix.Runnable.Reap.{ReapState, ReapRecord, binding_digest, reap_key}
use breakfix.Controller.Environment.{EnvironmentPhase, RuntimeEnvironmentStatus, RuntimeEnvironment}
use breakfix.Controller.State.{Plan, can_transition}
use breakfix.Controller.State.Phases.{Leads, onward}
use breakfix.Controller.Reconciler.{
  Services, Write, Outcome, Resolution, resolve_plan, environment_binding, update_status,
  after_status, write_status,
}
use breakfix.Controller.Reconciler.Reap.{reap_request}

module _ (s : Services) where
  -- The reap record of the environment, under the plan that the environment resolves to, reports
  -- success.
  abbrev pub Reaped : RuntimeEnvironment → Type 0
  Reaped e =
      (p : Plan) × (digest : Text) × (r : ReapRecord) × (resolve_plan s e ≡ Resolution.resolved p)
      × (binding_digest s.codec (environment_binding s e p) ≡ ok digest)
      × (s.get (reap_key (reap_request s digest (environment_binding s e p))) ≡ ok r)
      × (r.state ≡ ReapState.succeeded)

  -- A write of a reconciliation of `e`.
  abbrev pub Sound : RuntimeEnvironment → Write → Type 0
  Sound e (Write.status_patch e') =
      Leads e.status.phase e'.status.phase
      × ((e'.status.phase ≡ EnvironmentPhase.released)
          → (e.status.phase ≡ EnvironmentPhase.released) ⊎ Reaped e)
  Sound e (Write.metadata_patch e') = (e'.has_finalizer ≡ true) ⊎ Reaped e
  Sound e Write.delete_call = Reaped e

  -- How far the reconciliation of `e` has brought its copy of the environment.
  pub record From (e e' : RuntimeEnvironment) : Type 0 where
    pub leads : Leads e.status.phase e'.status.phase
    pub kept :
        (e'.status.phase ≡ EnvironmentPhase.released) → (e.status.phase ≡ EnvironmentPhase.released)
    pub finalizer : e'.has_finalizer ≡ true

  abbrev pub AllSound : RuntimeEnvironment → Outcome → Type 0
  AllSound e o = All (Sound e) o.1

  update_status-ok :
      (mutate : RuntimeEnvironmentStatus → RuntimeEnvironmentStatus) (e e' : RuntimeEnvironment)
      → update_status s mutate e ≡ ok e'
      → (can_transition e.status.phase e'.status.phase ≡ true)
        × (e'.status.phase ≡ (mutate e.status).phase)
        × (e'.has_finalizer ≡ e.has_finalizer)
  unfolding update_status
  update_status-ok mutate e e' h =
      let mutated = mutate e.status in
      let next = record e { status = record mutated { observed_generation = e.generation } } in
      let (allowed, h1) =
        >>-eq-ok (reject (not (can_transition e.status.phase mutated.phase)) _)
          (s.patch_status next >> ok next) h in
      let (_, h2) = >>-eq-ok (s.patch_status next) (ok next) h1 in
      let same : next ≡ e' = ground arith in
      rw (← same) (reject-not (can_transition e.status.phase mutated.phase) _ allowed, refl, refl)

  pub write_status-AllSound :
      (mutate : RuntimeEnvironmentStatus → RuntimeEnvironmentStatus) (e0 e : RuntimeEnvironment)
      (next : RuntimeEnvironment → Outcome)
      → From e0 e
      → (((mutate e.status).phase ≡ EnvironmentPhase.released)
          → (e0.status.phase ≡ EnvironmentPhase.released) ⊎ Reaped e0)
      → ((e' : RuntimeEnvironment)
          → Leads e0.status.phase e'.status.phase
          → e'.status.phase ≡ (mutate e.status).phase
          → e'.has_finalizer ≡ true
          → AllSound e0 (next e'))
      → AllSound e0 (write_status s mutate e next)
  unfolding after_status
  write_status-AllSound mutate e0 e next f final k =
      elim (Result-cases (update_status s mutate e)) [
        | inr (x, failed) ↦ rw failed tt
        | inl (e', stored) ↦
            let (allowed, phase, same) = update_status-ok mutate e e' stored in
            let leads : Leads e0.status.phase e'.status.phase = onward (f.leads) allowed in
            rw stored ((leads, λ at. final (sym phase ∙ at)), k e' leads phase (same ∙ f.finalizer))
      ]
