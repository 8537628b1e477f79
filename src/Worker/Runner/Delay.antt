-- ===== src/Worker/Runner/Delay.antt =====
-- internal/worker/runnable/runner.go: how long the runner waits, and how long an action may take.
use native.Mathlib.Nat.{pow-suc}
use breakfix.Prelude.{
  ℕ, ℤ, pos, negsuc, suc, zero, ◌+◌, ◌*◌, ◌-◌, ◌^◌, ◌<◌, ◌≤◌, ◌≤ℤ◌, min, ◌≡◌, refl, arith, inl, inr,
  ltb, false, Bool-cases, ap, ◌∙◌, if◌then◌else◌, some,
}
use breakfix.Errors.{ok}
use breakfix.Runnable.Kinds.{ActionPhase}
use breakfix.Runnable.Model.{
  RunnableSpec, RunnableRevision, max_lifecycle_timeout, max_lifetime_seconds,
}
use breakfix.Runnable.Spec.{Codec}
use breakfix.Runnable.Spec.Isolation.{validate_spec-Isolated}
use breakfix.Runnable.Spec.Binding.{validate_revision-Bound}
use breakfix.Runnable.Backoff.{second, rounds_of, wrap64}
use breakfix.Runnable.Action.{ActionContext, validate_context}
use breakfix.Runnable.Action.Context.{validate_context-input}
use breakfix.Worker.Reporting.{runner_retry_delay, timeout_of, action_timeout}

powers_from_six : (j : ℕ) → 64 ≤ 2 ^ (6 + j)
powers_from_six zero = omega arith
powers_from_six (suc j) =
    let shift : 6 + suc j ≡ suc (6 + j) = omega arith in
    let next : 2 ^ (6 + suc j) ≡ 2 ^ (6 + j) * 2 = ap (λ n. 2 ^ n) shift ∙ pow-suc 2 (6 + j) in
    omega (arith, next, powers_from_six j)

power_capped : (k : ℕ) → min (2 ^ min k 6) 60 ≡ min (2 ^ k) 60
power_capped k = elim (Bool-cases (ltb k 6)) [
  | inl few ↦ let small : min k 6 ≡ k = ground arith in ap (λ n. min (2 ^ n) 60) small
  | inr many ↦
      let large : min k 6 ≡ 6 = ground arith in
      let split : k ≡ 6 + (k - 6) = ground arith in
      let high : 64 ≤ 2 ^ k = rw split (powers_from_six (k - 6)) in rw large (omega (arith, high))
]

capped :
    (d : ℕ)
    → (if ltb (60 * second) (second * d) then 60 * second else second * d) ≡ second * min d 60
capped d = ground arith

-- The delay before the next claim is a second after the first failure in a row, doubled for each
-- further one, up to a minute; a count below one stands for one.
pub runner_retry_delay_curve :
    (attempt : ℤ) → runner_retry_delay attempt ≡ second * min (2 ^ rounds_of attempt) 60
unfolding runner_retry_delay
runner_retry_delay_curve (pos zero) = refl
runner_retry_delay_curve (pos (suc n)) =
    let first : ltb (suc n + 0) 1 ≡ false = ground arith in
    rw first (capped (2 ^ min (suc n - 1) 6)) ∙ ap (λ d. second * d) (power_capped (suc n - 1))
runner_retry_delay_curve (negsuc n) = ground arith

fits : (n : ℕ) → n ≤ max_lifetime_seconds → wrap64 (n * second) ≡ pos (n * second)
unfolding wrap64
fits n h = ground arith

timeout_positive :
    (n : ℤ)
    → pos 1 ≤ℤ n
    → n ≤ℤ pos max_lifetime_seconds
    → (m : ℕ) × (0 < m) × (m ≤ max_lifetime_seconds) × (timeout_of n ≡ ok (pos (m * second)))
unfolding timeout_of
timeout_positive (pos n) h k =
    (n, omega arith, omega arith, rw (fits n (omega arith)) (ground arith))
timeout_positive (negsuc n) h k = absurd (ground arith)

build_timeout :
    (c : ActionContext) (p : ActionPhase) (spec : RunnableSpec)
    → p ≡ ActionPhase.materialize_artifact
    → c.spec ≡ some spec
    → action_timeout c p ≡ some (timeout_of spec.lifecycle_policy.create_timeout_seconds)
unfolding action_timeout
build_timeout c ActionPhase.materialize_artifact spec h k = rw k refl
build_timeout c ActionPhase.verify spec h k = absurd (ground arith)
build_timeout c (ActionPhase.other s) spec h k = absurd (ground arith)

check_timeout :
    (c : ActionContext) (p : ActionPhase) (revision : RunnableRevision)
    → p ≡ ActionPhase.verify
    → c.revision ≡ some revision
    → action_timeout c p ≡ some (timeout_of revision.spec.lifecycle_policy.max_lifetime)
unfolding action_timeout
check_timeout c ActionPhase.materialize_artifact revision h k = absurd (ground arith)
check_timeout c ActionPhase.verify revision h k = rw k refl
check_timeout c (ActionPhase.other s) revision h k = absurd (ground arith)

within : (n : ℤ) → n ≤ℤ pos max_lifecycle_timeout → n ≤ℤ pos max_lifetime_seconds
within n h = omega arith

lifetime_positive : (idle lifetime : ℤ) → pos 1 ≤ℤ idle → idle ≤ℤ lifetime → pos 1 ≤ℤ lifetime
lifetime_positive idle lifetime h k = omega arith

module _ (codec : Codec) where
  pub context_timed :
      (c : ActionContext)
      → validate_context codec c ≡ ok tt
      → (seconds : ℕ) × (0 < seconds)
        × (seconds ≤ max_lifetime_seconds)
        × (action_timeout c c.credential.identity.phase ≡ some (ok (pos (seconds * second))))
  context_timed c h = elim (validate_context-input codec c h) [
    | inl (phase, input) ↦
        let policy = (validate_spec-Isolated input.spec input.valid).policy in
        let (n, several, few, timed) =
          timeout_positive input.spec.lifecycle_policy.create_timeout_seconds
            policy.create_timeout.0
            (within input.spec.lifecycle_policy.create_timeout_seconds policy.create_timeout.1) in
        (
          n,
          several,
          few,
          build_timeout c c.credential.identity.phase input.spec phase input.given ∙ ap some timed,
        )
    | inr (phase, input) ↦
        let spec = (validate_revision-Bound codec input.revision input.valid).spec in
        let policy = (validate_spec-Isolated input.revision.spec spec).policy in
        let lifetime = input.revision.spec.lifecycle_policy in
        let (n, several, few, timed) =
          timeout_positive lifetime.max_lifetime
            (lifetime_positive lifetime.idle_ttl_seconds lifetime.max_lifetime policy.idle
              policy.idle_within)
            policy.lifetime in
        (
          n,
          several,
          few,
          check_timeout c c.credential.identity.phase input.revision phase input.given
              ∙ ap some timed,
        )
  ]
