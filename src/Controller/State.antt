-- ===== src/Controller/State.antt =====
-- internal/controller/runtimeenvironment/state.go: the decision of one reconciliation and the
-- table of the phase transitions.
pub mod Expiry
pub mod Decisions
pub mod Phases
use breakfix.Prelude.{
  ℕ, ℤ, pos, pos_part, ◌+◌, ◌*◌, Bool, true, false, not, ◌&&◌, ◌||◌, Option, none, some, ltb, leb,
  ltb_ℤ, ◌==◌, if◌then◌else◌,
}
use breakfix.Text.{Text, text_eq, is_empty}
use breakfix.Text.Trim.{trim_space}
use breakfix.Errors.{Field, Error, Result, ok, err, Check, reject, map_err, ◌>>=◌, ◌>>◌}
use breakfix.Runnable.Kinds.{Runtime, runtime_text, purpose_valid}
use breakfix.Runnable.Model.{RuntimeProfile, LifecyclePolicy, RunnableRevision, Time}
use breakfix.Runnable.Ident.{valid_digest}
use breakfix.Runnable.Plan.{validate_lifecycle}
use breakfix.Runnable.Backoff.{second}
use breakfix.Runnable.Spec.{
  Codec, BlankRuntimePlan, validate_blank, validate_revision, revision_digest, blank_digest,
  profile_digest,
}
use breakfix.Controller.Environment.{
  EnvironmentPhase, EnvironmentOperation, RunnableRevisionReference, LeaseSpec,
  RuntimeEnvironmentSpec, RuntimeEnvironmentStatus, RuntimeEnvironment, phase_eq, is_resetting,
  is_other_operation,
}

pub data Decision : Type 0 where
  decision_none provision reset drain reap : Decision

pub record Plan : Type 0 where
  pub revision : RunnableRevision
  pub blank : Option BlankRuntimePlan

-- `Plan.Profile`
unfoldable pub plan_profile : Plan → RuntimeProfile
plan_profile p = elim p.blank [ none ↦ p.revision.spec.runtime_profile | some b ↦ b.profile ]

-- `Plan.Lifecycle`
unfoldable pub plan_lifecycle : Plan → LifecyclePolicy
plan_lifecycle p = elim p.blank [ none ↦ p.revision.spec.lifecycle_policy | some b ↦ b.lifecycle ]

-- `Plan.Runtime`
unfoldable pub plan_runtime : Plan → Runtime
unfolding plan_profile
plan_runtime p = (plan_profile p).runtime

-- `Plan.Digest`
unfoldable pub plan_digest : Codec → Plan → Result Text
plan_digest codec p = elim p.blank [
  | none ↦ revision_digest codec p.revision
  | some b ↦ blank_digest codec b
]

abbrev invalid_reference : Error
invalid_reference = Error.plain "runtime environment has an invalid runnable revision reference"

-- The branch of `ValidateSpec` for a plan that is a revision.
unfoldable pub validate_binding :
    Codec → Option RunnableRevisionReference → RunnableRevision → Check
validate_binding codec none r = err invalid_reference
validate_binding codec (some reference) r = do
  reject (is_empty (trim_space reference.id) || not (valid_digest reference.digest))
      invalid_reference
  map_err (Error.wrapped "runtime environment runnable revision") (validate_revision codec r)
  digest ← revision_digest codec r
  reject (not (text_eq reference.digest digest))
      (Error.plain "runtime environment reference does not match runnable revision")

-- Its branch for a blank plan.
unfoldable pub validate_blank_binding : Option Text → Runtime → BlankRuntimePlan → Check
validate_blank_binding provider runtime plan = do
  reject (elim provider [ none ↦ true | some p ↦ not (text_eq p (runtime_text runtime)) ])
      (Error.plain "runtime environment blank runtime does not match the installed plan")
  map_err (Error.wrapped "runtime environment blank runtime plan") (validate_blank plan)

abbrev is_zero_release : Option Time → Bool
is_zero_release none = false
is_zero_release (some t) = t == 0

-- `ValidateSpec`
unfoldable pub validate_spec_binding : Codec → RuntimeEnvironment → Plan → Check
unfolding validate_binding validate_blank_binding plan_profile plan_runtime
validate_spec_binding codec e p = do
  elim p.blank [
    | none ↦ validate_binding codec e.spec.runnable_revision_ref p.revision
    | some b ↦ validate_blank_binding e.spec.blank_provider (plan_runtime p) b
  ]
  reject (not (purpose_valid e.spec.purpose))
      (Error.plain "runtime environment has an invalid purpose")
  reject (e.spec.lease.renewed_at == 0 || ltb_ℤ e.spec.reset_nonce (pos 0))
      (Error.plain "runtime environment has invalid lease or reset controls")
  reject (is_zero_release e.spec.lease.release_at)
      (Error.plain "runtime environment has an invalid release time")
  digest ← profile_digest codec (plan_profile p)
  reject
      (not (is_empty e.status.runtime.profile_digest)
        && not (text_eq e.status.runtime.profile_digest digest))
      (Error.plain "runtime environment status is bound to another profile")

-- time.Duration(seconds) * time.Second, for a number of seconds that a valid policy has: it is above
-- zero, and its nanoseconds are far below 2 ^ 63.
abbrev pub duration : ℤ → ℕ
duration seconds = pos_part seconds * second

-- if b.Before(a) { a = b }
abbrev pub earlier : Time → Time → Time
earlier a b = if ltb b a then b else a

abbrev pub released_by : Option Time → Time → Time
released_by none t = t
released_by (some at_release) t = earlier t at_release

-- `ExpiresAt`
unfoldable pub expires_at : (created_at : Time) → LeaseSpec → LifecyclePolicy → Result Time
expires_at created_at lease policy = do
  reject (created_at == 0 || lease.renewed_at == 0)
      (Error.plain "runtime environment expiry requires creation and renewal timestamps")
  validate_lifecycle policy
  ok (
      released_by lease.release_at (
        earlier (created_at + duration policy.max_lifetime)
          (lease.renewed_at + duration policy.idle_ttl_seconds)))

abbrev unsupported_phase : Error
unsupported_phase = Error.plain "runtime environment has unsupported phase"

-- The switch at the end of `Decide`.
unfoldable pub decide_phase : EnvironmentPhase → Result Decision
decide_phase EnvironmentPhase.unset = ok Decision.provision
decide_phase EnvironmentPhase.pending = ok Decision.provision
decide_phase EnvironmentPhase.provisioning = ok Decision.provision
decide_phase EnvironmentPhase.ready = ok Decision.decision_none
decide_phase EnvironmentPhase.failed = ok Decision.decision_none
decide_phase _ = err unsupported_phase

-- `Decide` after the expiry is known.
unfoldable pub decide_live :
    RuntimeEnvironmentStatus → (reset_nonce observed : ℤ) → (now expires : Time) → Result Decision
unfolding phase_eq is_resetting is_other_operation decide_phase
decide_live s reset_nonce observed now expires =
    if phase_eq s.phase EnvironmentPhase.released
    then ok Decision.decision_none
    else if is_other_operation s.operation
    then err (Error.plain "runtime environment has unsupported operation")
    else if leb expires now || phase_eq s.phase EnvironmentPhase.draining
    then (if phase_eq s.phase EnvironmentPhase.draining
        then ok Decision.reap
        else ok Decision.drain)
    else if phase_eq s.phase EnvironmentPhase.ready && ltb_ℤ observed reset_nonce
    then ok Decision.reset
    else if is_resetting s.operation
    then (if not (phase_eq s.phase EnvironmentPhase.ready)
          && not (phase_eq s.phase EnvironmentPhase.provisioning)
        then err (Error.plain "runtime environment reset is invalid in phase")
        else ok Decision.reset)
    else decide_phase s.phase

-- `Decide`
unfoldable pub decide :
    Codec → RuntimeEnvironment → Plan → (now : Time) (observed_reset_nonce : ℤ) → Result Decision
unfolding decide_live expires_at plan_lifecycle
decide codec e p now observed = do
  validate_spec_binding codec e p
  expires ← expires_at e.creation_timestamp e.spec.lease (plan_lifecycle p)
  decide_live e.status e.spec.reset_nonce observed now expires

-- `CanTransition`
unfoldable pub can_transition : (from to : EnvironmentPhase) → Bool
unfolding phase_eq
can_transition from to = phase_eq from to || elim from [
  | EnvironmentPhase.unset ↦
      phase_eq to EnvironmentPhase.provisioning
      || (phase_eq to EnvironmentPhase.draining || phase_eq to EnvironmentPhase.failed)
  | EnvironmentPhase.pending ↦
      phase_eq to EnvironmentPhase.provisioning
      || (phase_eq to EnvironmentPhase.draining || phase_eq to EnvironmentPhase.failed)
  | EnvironmentPhase.provisioning ↦
      phase_eq to EnvironmentPhase.ready
      || (phase_eq to EnvironmentPhase.draining || phase_eq to EnvironmentPhase.failed)
  | EnvironmentPhase.ready ↦
      phase_eq to EnvironmentPhase.draining || phase_eq to EnvironmentPhase.failed
  | EnvironmentPhase.failed ↦ phase_eq to EnvironmentPhase.draining
  | EnvironmentPhase.draining ↦ phase_eq to EnvironmentPhase.released
  | _ ↦ false
]
