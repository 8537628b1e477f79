-- ===== src/Controller/State/Decisions.antt =====
-- internal/controller/runtimeenvironment/state.go: which decision is taken when.
use breakfix.Prelude.{ℤ, ◌≤◌, ◌<◌, ◌≤ℤ◌, ◌≡◌, ◌≢◌, arith, Bool, true, false, ◌⊎◌, inl, inr, ltb_ℤ}
use breakfix.Errors.{Error, Result, ok, err, ◌>>=◌, >>-eq-ok, >>=-eq-ok, Result-cases}
use breakfix.Runnable.Model.{Time}
use breakfix.Runnable.Spec.{Codec}
use breakfix.Controller.Environment.{
  EnvironmentPhase, EnvironmentOperation, RuntimeEnvironmentStatus, RuntimeEnvironment, phase_eq,
  is_resetting, is_other_operation,
}
use breakfix.Controller.State.{
  Decision, Plan, decide, decide_live, decide_phase, expires_at, validate_spec_binding,
  plan_lifecycle,
}

-- When a decision is right, for an environment with a status, an expiry and a pending reset or none.
abbrev pub Right :
    RuntimeEnvironmentStatus → (reset_nonce observed : ℤ) (now expires : Time) → Decision → Type 0
Right s nonce observed now expires Decision.decision_none =
    (s.phase ≡ EnvironmentPhase.released)
    ⊎ ((now < expires)
        × ((s.phase ≡ EnvironmentPhase.failed)
            ⊎ ((s.phase ≡ EnvironmentPhase.ready)
                × (nonce ≤ℤ observed)
                × (s.operation ≢ EnvironmentOperation.resetting))))
Right s nonce observed now expires Decision.provision =
    (now < expires)
    × (s.operation ≢ EnvironmentOperation.resetting)
    × ((s.phase ≡ EnvironmentPhase.unset)
        ⊎ (s.phase ≡ EnvironmentPhase.pending)
        ⊎ (s.phase ≡ EnvironmentPhase.provisioning))
Right s nonce observed now expires Decision.reset =
    (now < expires)
    × (((s.phase ≡ EnvironmentPhase.ready) × (ltb_ℤ observed nonce ≡ true))
        ⊎ ((s.operation ≡ EnvironmentOperation.resetting)
            × ((s.phase ≡ EnvironmentPhase.ready) ⊎ (s.phase ≡ EnvironmentPhase.provisioning))))
Right s nonce observed now expires Decision.drain =
    (expires ≤ now) × (s.phase ≢ EnvironmentPhase.draining) × (s.phase ≢ EnvironmentPhase.released)
Right s nonce observed now expires Decision.reap = s.phase ≡ EnvironmentPhase.draining

decide_live-Right :
    (s : RuntimeEnvironmentStatus) (nonce observed : ℤ) (now expires : Time) (d : Decision)
    → decide_live s nonce observed now expires ≡ ok d
    → Right s nonce observed now expires d
unfolding decide_live phase_eq is_resetting is_other_operation decide_phase
decide_live-Right s nonce observed now expires d h = ground arith

-- When a decision is taken, the status, the resets and the clock call for it. Drain: the environment
-- has expired, and neither drains nor is released. Reap: it drains. Reset: it has not expired, and a
-- reset is asked for while it is ready or in flight while it is ready or provisioned. Provision: it has
-- not expired, is not ready yet, and no reset is in flight. None: it is released, or has not expired
-- and has failed, or is ready with no reset asked for or in flight.
pub decide-Right :
    (codec : Codec) (e : RuntimeEnvironment) (p : Plan) (now : Time) (observed : ℤ) (d : Decision)
    → decide codec e p now observed ≡ ok d
    → (expires : Time) × (expires_at e.creation_timestamp e.spec.lease (plan_lifecycle p)
        ≡ ok expires)
      × Right e.status e.spec.reset_nonce observed now expires d
unfolding decide
decide-Right codec e p now observed d h =
    let expiry = expires_at e.creation_timestamp e.spec.lease (plan_lifecycle p) in
    let after : Time → Result Decision =
      λ expires. decide_live e.status e.spec.reset_nonce observed now expires in
    let (_, h1) = >>-eq-ok (validate_spec_binding codec e p) (expiry >>= after) h in
    let (expires, known, h2) = >>=-eq-ok expiry after h1 in
    (expires, known, decide_live-Right e.status e.spec.reset_nonce observed now expires d h2)

-- The phase is one of the constants.
abbrev pub is_known : EnvironmentPhase → Bool
is_known (EnvironmentPhase.other t) = false
is_known p = true

-- The phase and the operation are known ones, and a reset is in flight only where it may be.
abbrev pub Consistent : RuntimeEnvironmentStatus → Type 0
Consistent s =
    (is_known s.phase ≡ true)
    × (is_other_operation s.operation ≡ false)
    × (s.operation ≡ EnvironmentOperation.resetting
        → (s.phase ≡ EnvironmentPhase.ready) ⊎ (s.phase ≡ EnvironmentPhase.provisioning))

decide_live_answers :
    (s : RuntimeEnvironmentStatus) (nonce observed : ℤ) (now expires : Time) (x : Error)
    → Consistent s
    → decide_live s nonce observed now expires ≢ err x
unfolding decide_live phase_eq is_resetting is_other_operation decide_phase
decide_live_answers s nonce observed now expires x (p, o, r) h = ground arith

decide_live_total :
    (s : RuntimeEnvironmentStatus) (nonce observed : ℤ) (now expires : Time)
    → Consistent s
    → (d : Decision) × (decide_live s nonce observed now expires ≡ ok d)
decide_live_total s nonce observed now expires c =
    elim (Result-cases (decide_live s nonce observed now expires)) [
      | inl (d, h) ↦ (d, h)
      | inr (x, h) ↦ absurd (decide_live_answers s nonce observed now expires x c h)
    ]

-- A decision is always taken for an environment whose binding passes `ValidateSpec` and whose expiry is
-- known, when its phase and its operation are known ones and a reset is in flight only while it is
-- ready or provisioned.
pub decide_total :
    (codec : Codec) (e : RuntimeEnvironment) (p : Plan) (now : Time) (observed : ℤ) {expires : Time}
    → validate_spec_binding codec e p ≡ ok tt
    → expires_at e.creation_timestamp e.spec.lease (plan_lifecycle p) ≡ ok expires
    → Consistent e.status
    → (d : Decision) × (decide codec e p now observed ≡ ok d)
unfolding decide
decide_total codec e p now observed {expires} v x c =
    let (d, h) = decide_live_total e.status e.spec.reset_nonce observed now expires c in
    (d, rw (v, x) h)
