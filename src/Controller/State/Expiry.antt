-- ===== src/Controller/State/Expiry.antt =====
-- internal/controller/runtimeenvironment/state.go: when an environment expires.
use breakfix.Prelude.{
  ◌+◌, ◌≤◌, List, [], ◌∷◌, ◌≡◌, arith, Option, none, some, Among, All, ◌==◌, ◌||◌,
}
use breakfix.Errors.{ok, reject, ◌>>◌, >>-eq-ok}
use breakfix.Runnable.Model.{LifecyclePolicy, Time}
use breakfix.Runnable.Plan.{validate_lifecycle}
use breakfix.Controller.Environment.{LeaseSpec}
use breakfix.Controller.State.{expires_at, duration, earlier, released_by}

-- The end of the lifetime, the end of the idle time, and the release that was asked for.
abbrev pub deadlines : Time → LeaseSpec → LifecyclePolicy → List Time
deadlines created_at lease policy =
    (created_at + duration policy.max_lifetime)
    ∷ (lease.renewed_at + duration policy.idle_ttl_seconds)
    ∷ elim lease.release_at [ none ↦ [] | some t ↦ t ∷ [] ]

earliest :
    (a b : Time) (o : Option Time) (e : Time)
    → released_by o (earlier a b) ≡ e
    → let times = a ∷ b ∷ elim o [ none ↦ [] | some t ↦ t ∷ [] ] in
      Among e times × All (λ t. e ≤ t) times
earliest a b none e h = ground arith
earliest a b (some t) e h = ground arith

-- An environment expires at the earliest of the end of its lifetime, the end of its idle time and the
-- release that was asked for, if one was.
pub expires_at_earliest :
    (created_at : Time) (lease : LeaseSpec) (policy : LifecyclePolicy) {e : Time}
    → expires_at created_at lease policy ≡ ok e
    → Among e (deadlines created_at lease policy)
      × All (λ t. e ≤ t) (deadlines created_at lease policy)
unfolding expires_at
expires_at_earliest created_at lease policy {e} h =
    let limit = released_by lease.release_at (
      earlier (created_at + duration policy.max_lifetime)
        (lease.renewed_at + duration policy.idle_ttl_seconds)) in
    let (_, h1) =
      >>-eq-ok (reject (created_at == 0 || lease.renewed_at == 0) _)
        (validate_lifecycle policy >> ok limit) h in
    let (_, h2) = >>-eq-ok (validate_lifecycle policy) (ok limit) h1 in
    let at : limit ≡ e = ground arith in
    earliest (created_at + duration policy.max_lifetime)
      (lease.renewed_at + duration policy.idle_ttl_seconds) lease.release_at e at
