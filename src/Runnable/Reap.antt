-- ===== src/Runnable/Reap.antt =====
-- internal/domain/runnable/reap.go: reap requests and the in-memory queue of cleanup work. The
-- queue is the Go map from the key of a request to its record; the mutex makes each method one
-- step. Go visits a map in any order: `claim` takes the order as an argument. A duration and an
-- attempt are natural numbers, since the code adds only positive ones.
pub mod Valid
pub mod Fence
pub mod History
pub mod Lease
pub mod Progress
use breakfix.Prelude.{
  ℕ, ℤ, pos, negsuc, pos_part, suc, zero, ◌+◌, ◌-◌, ◌<◌, ◌≤◌, String, Bool, true, false, not, ◌&&◌,
  ◌||◌, List, [], ◌∷◌, ◌++◌, ◌≡◌, refl, arith, Option, none, some, ltb, leb, ltb_ℤ, leb_ℤ, ◌==◌,
  length, if◌then◌else◌, take,
}
use breakfix.Text.{Text, codes, text_eq, is_empty}
use breakfix.Text.Trim.{trim_space}
use breakfix.Text.Dict.{lookup, insert}
use breakfix.Errors.{Field, Error, Result, ok, err, Check, reject, map_err, is_ok, ◌>>=◌, ◌>>◌}
use breakfix.Runnable.Kinds.{EnvironmentPurpose, purpose_valid}
use breakfix.Runnable.Model.{RunnableRevision, LifecyclePolicy, Time, max_summary_length}
use breakfix.Runnable.Ident.{valid_digest}
use breakfix.Runnable.Profile.{is_positive}
use breakfix.Runnable.Spec.{Codec, BlankRuntimePlan, blank_digest, revision_digest}

pub data ReapState : Type 0 where
  queued claimed succeeded : ReapState

pub record EnvironmentBinding : Type 0 where
  pub namespace : Text
  pub name : Text
  pub uid : Text
  pub purpose : EnvironmentPurpose
  pub reset_nonce : ℤ
  pub revision : RunnableRevision
  pub blank_runtime : Option BlankRuntimePlan

pub record ReapRequest : Type 0 where
  pub namespace : Text
  pub name : Text
  pub uid : Text
  pub revision : Text
  pub binding : EnvironmentBinding

pub record ReapRecord : Type 0 where
  pub request : ReapRequest
  pub state : ReapState
  pub attempt : ℕ
  pub lease_owner : Text
  pub lease_expires : Time
  pub next_attempt_at : Time
  pub last_error : Text
  pub completed_at : Option Time

-- `EnvironmentBinding.Digest`
unfoldable pub binding_digest : Codec → EnvironmentBinding → Result Text
binding_digest codec b = elim b.blank_runtime [
  | none ↦ revision_digest codec b.revision
  | some plan ↦ blank_digest codec plan
]

-- `EnvironmentBinding.Lifecycle`
unfoldable pub binding_lifecycle : EnvironmentBinding → LifecyclePolicy
binding_lifecycle b = elim b.blank_runtime [
  | none ↦ b.revision.spec.lifecycle_policy
  | some plan ↦ plan.lifecycle
]

-- `ReapRequest.Key`
unfoldable pub reap_key : ReapRequest → Text
reap_key r = r.namespace ++ codes "/" ++ r.name ++ codes "/" ++ r.uid

abbrev pub is_blank : Text → Bool
is_blank s = is_empty (trim_space s)

-- `ReapRequest.Valid`
unfoldable pub validate_request : Codec → ReapRequest → Check
validate_request codec r = do
  reject
      (is_blank r.namespace
        || (is_blank r.name || (is_blank r.uid || not (valid_digest r.revision))))
      (Error.plain "runnable reap request identity is incomplete")
  reject
      (not (text_eq r.namespace r.binding.namespace)
        || (not (text_eq r.name r.binding.name)
            || (not (text_eq r.uid r.binding.uid) || not (purpose_valid r.binding.purpose))))
      (Error.plain "runnable reap request binding does not match identity")
  digest ← map_err (Error.wrapped "runnable reap revision") (binding_digest codec r.binding)
  reject (not (text_eq r.revision digest))
      (Error.plain "runnable reap request revision does not match binding")

abbrev pub Queue : Type 0
Queue = List (Text × ReapRecord)

-- `NewInMemoryReapQueue`
unfoldable pub empty_queue : Queue
empty_queue = []

unfoldable pub new_record : ReapRequest → ReapRecord
new_record request = record {
  request = request;
  state = ReapState.queued;
  attempt = 0;
  lease_owner = [];
  lease_expires = 0;
  next_attempt_at = 0;
  last_error = [];
  completed_at = none;
}

abbrev pub enqueue_at : ReapRequest → Queue → Option ReapRecord → Check × Queue
enqueue_at request q (some existing) =
    if text_eq existing.request.revision request.revision
    then (ok tt, q)
    else (err (Error.plain "runnable reap request fence differs from existing request"), q)
enqueue_at request q none = (ok tt, insert (reap_key request) (new_record request) q)

abbrev pub enqueue_valid : ReapRequest → Queue → Check → Check × Queue
enqueue_valid request q (ok t) = enqueue_at request q (lookup (reap_key request) q)
enqueue_valid request q (err e) = (err e, q)

-- `Enqueue`
unfoldable pub enqueue : Codec → ReapRequest → Queue → Check × Queue
enqueue codec request q = enqueue_valid request q (validate_request codec request)

-- `Get`
unfoldable pub get : Text → Queue → Result ReapRecord
get key q = elim (lookup key q) [ none ↦ err Error.reap_not_found | some r ↦ ok r ]

abbrev pub is_queued : ReapState → Bool
is_queued ReapState.queued = true
is_queued _ = false

abbrev pub is_claimed : ReapState → Bool
is_claimed ReapState.claimed = true
is_claimed _ = false

-- !record.NextAttemptAt.After(now), or a claim whose lease is over
unfoldable pub is_eligible : Time → ReapRecord → Bool
is_eligible now r =
    (is_queued r.state && leb r.next_attempt_at now)
    || (is_claimed r.state && leb r.lease_expires now)

unfoldable pub take_lease : (owner : Text) (ttl : ℕ) → Time → ReapRecord → ReapRecord
take_lease owner ttl now r = record r {
  state = ReapState.claimed;
  attempt = r.attempt + 1;
  lease_owner = owner;
  lease_expires = now + ttl;
}

-- One key of the range loop: the record if it can be claimed.
unfoldable pub eligible_at : Time → Option ReapRecord → Option ReapRecord
unfolding is_eligible
eligible_at now none = none
eligible_at now (some r) = if is_eligible now r then some r else none

-- The range loop, in the order that the keys are visited.
unfoldable pub claim_loop :
    (owner : Text) (ttl : ℕ) → Time → (order : List Text) → Queue → Option ReapRecord × Queue
claim_loop owner ttl now [] q = (none, q)
claim_loop owner ttl now (key ∷ order) q = elim (eligible_at now (lookup key q)) [
  | none ↦ claim_loop owner ttl now order q
  | some r ↦ let taken = take_lease owner ttl now r in (some taken, insert key taken q)
]

-- `Claim`; nil is `none`.
unfoldable pub claim :
    (owner : Text) (ttl : ℤ)
    → Time
    → (order : List Text) → Queue
    → Result (Option ReapRecord) × Queue
unfolding claim_loop
claim owner ttl now order q =
    if is_blank owner || (not (is_positive ttl) || now == 0)
    then (err (Error.plain "runnable reap claim is invalid"), q)
    else (let (found, q') = claim_loop owner (pos_part ttl) now order q in (ok found, q'))

-- boundedReapDiagnostic
unfoldable pub bounded_diagnostic : Text → Text
bounded_diagnostic value = take max_summary_length (trim_space value)

-- The fence of `Complete`: the record is still under exactly the lease of the claim.
unfoldable pub holds_lease : Time → ReapRecord → (claimed : ReapRecord) → Bool
holds_lease now r c =
    is_claimed r.state
    && (ltb now r.lease_expires
        && (r.attempt == c.attempt
            && (text_eq r.lease_owner c.lease_owner
                && (text_eq r.request.revision c.request.revision
                    && r.lease_expires == c.lease_expires))))

unfoldable pub finish :
    (success : Bool) (diagnostic : Text) (now retry_at : Time) → ReapRecord → ReapRecord
unfolding bounded_diagnostic
finish true diagnostic now retry_at r = record r {
  state = ReapState.succeeded;
  last_error = [];
  completed_at = some now;
}
finish false diagnostic now retry_at r = record r {
  state = ReapState.queued;
  lease_owner = [];
  lease_expires = 0;
  last_error = bounded_diagnostic diagnostic;
  next_attempt_at = retry_at;
}

abbrev pub complete_at :
    (claimed : ReapRecord) (success : Bool) (diagnostic : Text) (now retry_at : Time)
    → Queue
    → Option ReapRecord
    → Check × Queue
complete_at c success diagnostic now retry_at q none = (err Error.reap_not_found, q)
complete_at c success diagnostic now retry_at q (some r) =
    if holds_lease now r c
    then (ok tt, insert (reap_key c.request) (finish success diagnostic now retry_at r) q)
    else (err Error.reap_lease_lost, q)

-- `Complete`
unfoldable pub complete :
    (claimed : ReapRecord) (success : Bool) (diagnostic : Text) (now retry_at : Time)
    → Queue
    → Check × Queue
complete c success diagnostic now retry_at q =
    if now == 0
    then (err (Error.plain "runnable reap completion time is required"), q)
    else complete_at c success diagnostic now retry_at q (lookup (reap_key c.request) q)
