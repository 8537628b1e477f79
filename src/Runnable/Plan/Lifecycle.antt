-- ===== src/Runnable/Plan/Lifecycle.antt =====
-- internal/domain/runnable/validate.go: the lifecycle policies that pass their check.
use breakfix.Prelude.{
  ℤ, pos, ◌≤ℤ◌, String, not, ◌||◌, List, [], ◌∷◌, ◌≡◌, ◌↔◌, refl, arith, ltb_ℤ, All,
}
use breakfix.Errors.{Error, ok, reject, >>-eq-ok, >>-ok_iff}
use breakfix.Runnable.Model.{LifecyclePolicy, max_lifecycle_timeout, max_lifetime_seconds}
use breakfix.Runnable.Plan.{validate_lifecycle, validate_timeouts, operation_timeouts, is_positive}

-- Each operation has a time above zero and within the platform's limit, and so have the idle time
-- and the lifetime; the idle time is at most the lifetime.
pub record IsPolicy (p : LifecyclePolicy) : Type 0 where
  pub create_timeout :
      (pos 1 ≤ℤ p.create_timeout_seconds) × (p.create_timeout_seconds ≤ℤ pos max_lifecycle_timeout)
  pub reset_timeout :
      (pos 1 ≤ℤ p.reset_timeout_seconds) × (p.reset_timeout_seconds ≤ℤ pos max_lifecycle_timeout)
  pub stop_timeout :
      (pos 1 ≤ℤ p.stop_timeout_seconds) × (p.stop_timeout_seconds ≤ℤ pos max_lifecycle_timeout)
  pub reap_timeout :
      (pos 1 ≤ℤ p.reap_timeout_seconds) × (p.reap_timeout_seconds ≤ℤ pos max_lifecycle_timeout)
  pub idle : pos 1 ≤ℤ p.idle_ttl_seconds
  pub idle_within : p.idle_ttl_seconds ≤ℤ p.max_lifetime
  pub lifetime : p.max_lifetime ≤ℤ pos max_lifetime_seconds

-- A timeout that the loop lets pass.
abbrev InLimit : String × ℤ → Type 0
InLimit e = (pos 1 ≤ℤ e.1) × (e.1 ≤ℤ pos max_lifecycle_timeout)

limit_ok :
    (v : ℤ) (e : Error)
    → (reject (not (is_positive v) || ltb_ℤ (pos max_lifecycle_timeout) v) e ≡ ok tt)
      ↔ ((pos 1 ≤ℤ v) × (v ≤ℤ pos max_lifecycle_timeout))
limit_ok v e = ground arith

validate_timeouts-All : (ts : List (String × ℤ)) → (validate_timeouts ts ≡ ok tt) ↔ All InLimit ts
unfolding validate_timeouts
validate_timeouts-All [] = (λ _. tt, λ _. refl)
validate_timeouts-All ((name, v) ∷ ts) =
    let (fwd, back) = validate_timeouts-All ts in
    (
      λ h.
          let (here, later) = >>-eq-ok (reject _ _) (validate_timeouts ts) h in
          ((limit_ok v _).0 here, fwd later),
      λ (p, a). (>>-ok_iff _ (validate_timeouts ts)).1 ((limit_ok v _).1 p, back a),
    )

policy_of :
    (p : LifecyclePolicy) (e : Error)
    → All InLimit (operation_timeouts p)
    → reject
        (not (is_positive p.idle_ttl_seconds)
          || (ltb_ℤ (pos max_lifetime_seconds) p.idle_ttl_seconds
              || (not (is_positive p.max_lifetime)
                  || (ltb_ℤ (pos max_lifetime_seconds) p.max_lifetime
                      || ltb_ℤ p.max_lifetime p.idle_ttl_seconds))))
        e
      ≡ ok tt
    → IsPolicy p
policy_of p e a h = record {
  create_timeout = a.0;
  reset_timeout = a.1.0;
  stop_timeout = a.1.1.0;
  reap_timeout = a.1.1.1.0;
  idle = ground arith;
  idle_within = ground arith;
  lifetime = ground arith;
}

-- A lifecycle policy is accepted exactly when each operation timeout lies between one second and four
-- hours, the lifetime is at most seven days, and the idle time lies between one second and the
-- lifetime.
pub validate_lifecycle-IsPolicy :
    (p : LifecyclePolicy) → (validate_lifecycle p ≡ ok tt) ↔ IsPolicy p
unfolding validate_lifecycle
validate_lifecycle-IsPolicy p =
    let ts = operation_timeouts p in
    (
      λ h.
          let (here, later) = >>-eq-ok (validate_timeouts ts) _ h in
          policy_of p _ ((validate_timeouts-All ts).0 here) later,
      λ v. (>>-ok_iff (validate_timeouts ts) _).1 (
        (validate_timeouts-All ts).1
            (v.create_timeout, (v.reset_timeout, (v.stop_timeout, (v.reap_timeout, tt)))),
        ground arith,
      ),
    )
