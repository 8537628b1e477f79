-- ===== src/Runnable/Reap/History.antt =====
-- internal/domain/runnable/reap.go: the queue over any sequence of calls, by any number of owners.
use breakfix.Prelude.{
  ℕ, ℤ, pos_part, ◌<◌, Bool, true, false, List, ◌≡◌, ◌≢◌, refl, arith, Option, none, some, ◌⊎◌, inl,
  inr, Bool-cases, Option-cases, ◌==◌,
}
use breakfix.Text.{Text}
use breakfix.Text.Dict.{lookup, insert, Values-lookup, Values-insert}
use breakfix.Errors.{Result, ok, err, Result-cases}
use breakfix.Runnable.Model.{Time}
use breakfix.Runnable.Spec.{Codec}
use breakfix.Runnable.Reap.{
  ReapState, ReapRequest, ReapRecord, Queue, reap_key, validate_request, new_record, enqueue,
  is_eligible, take_lease, claim, is_blank, finish, holds_lease, complete, empty_queue,
}
use breakfix.Runnable.Reap.Valid.{
  IsRecord, IsQueue, new_record-IsRecord, take_lease-IsRecord, finish-IsRecord, Claimed, Granted,
  claim-Granted, claim_idle,
}

-- The answer of a claim is a record, or the claim granted nothing.
pub answer-cases :
    (a : Result (Option ReapRecord))
    → ((t : ReapRecord) × (a ≡ ok (some t))) ⊎ ((t : ReapRecord) → a ≢ ok (some t))
answer-cases (ok (some t)) = inl (t, refl)
answer-cases (ok none) = inr (λ t e. ground arith)
answer-cases (err e) = inr (λ t e'. ground arith)

module _ (codec : Codec) where
  -- One call of a method that can change the queue.
  pub data Step : Queue → Queue → Type 0 where
    enqueues : (request : ReapRequest) {q : Queue} → Step q (enqueue codec request q).1
    claims :
        (owner : Text) (ttl : ℤ) (now : Time) (order : List Text) {q : Queue}
        → Step q (claim owner ttl now order q).1
    completes :
        (c : ReapRecord) (success : Bool) (diagnostic : Text) (now retry_at : Time) {q : Queue}
        → Step q (complete c success diagnostic now retry_at q).1

  pub data Reach (q : Queue) : Queue → Type 0 where
    here : Reach q q
    next : {r s : Queue} → Reach q r → Step r s → Reach q s

-- The one entry that a call changes: a new request, a lease that is taken, or a lease that ends.
pub data Change (q : Queue) (key : Text) (t : ReapRecord) : Type 0 where
  fresh :
      (request : ReapRequest)
      → key ≡ reap_key request
      → t ≡ new_record request
      → lookup key q ≡ none
      → Change q key t
  leased :
      (owner : Text) (ttl : ℕ) (now : Time) (before : ReapRecord)
      → is_blank owner ≡ false
      → 0 < ttl
      → lookup key q ≡ some before
      → is_eligible now before ≡ true
      → t ≡ take_lease owner ttl now before
      → Change q key t
  ended :
      (c : ReapRecord) (success : Bool) (diagnostic : Text) (now retry_at : Time)
      (before : ReapRecord)
      → 0 < now
      → key ≡ reap_key c.request
      → lookup key q ≡ some before
      → holds_lease now before c ≡ true
      → t ≡ finish success diagnostic now retry_at before
      → Change q key t

abbrev pub Changes : Queue → Queue → Type 0
Changes q q' = (q' ≡ q) ⊎ ((key : Text) × (t : ReapRecord) × Change q key t × (q' ≡ insert key t q))

module _ (codec : Codec) where
  enqueue-Changes : (request : ReapRequest) (q : Queue) → Changes q (enqueue codec request q).1
  unfolding enqueue
  enqueue-Changes request q = elim (Result-cases (validate_request codec request)) [
    | inr (e, bad) ↦ inl (rw bad)
    | inl (t, good) ↦ elim (Option-cases (lookup (reap_key request) q)) [
      | inl absent ↦
          inr (
            reap_key request,
            new_record request,
            fresh request refl refl absent,
            rw (good, absent),
          )
      | inr (old, there) ↦ inl (ground arith)
    ]
  ]

claim-Changes :
    (owner : Text) (ttl : ℤ) (now : Time) (order : List Text) (q : Queue)
    → Changes q (claim owner ttl now order q).1
claim-Changes owner ttl now order q = elim (answer-cases (claim owner ttl now order q).0) [
  | inr idle ↦ inl (claim_idle owner ttl now order q _ _ refl idle)
  | inl (t, e) ↦
      let g : Granted owner ttl now q t (claim owner ttl now order q).1 =
        claim-Granted owner ttl now order q _ t (λ i. (e i, (claim owner ttl now order q).1)) in
      let c : Claimed owner (pos_part ttl) now q t (claim owner ttl now order q).1 = g.granted in
      inr (
        c.key,
        t,
        leased owner (pos_part ttl) now c.before g.owned g.lasting c.found c.eligible c.taken,
        c.stored,
      )
]

complete-Changes :
    (c : ReapRecord) (success : Bool) (diagnostic : Text) (now retry_at : Time) (q : Queue)
    → Changes q (complete c success diagnostic now retry_at q).1
unfolding complete
complete-Changes c success diagnostic now retry_at q = elim (Bool-cases (now == 0)) [
  | inl zero_time ↦ inl (rw zero_time)
  | inr timed ↦ elim (Option-cases (lookup (reap_key c.request) q)) [
    | inl missing ↦ inl (rw (timed, missing))
    | inr (r, there) ↦ elim (Bool-cases (holds_lease now r c)) [
      | inr lost ↦ inl (rw (timed, there, lost))
      | inl held ↦ inr (
        reap_key c.request,
        finish success diagnostic now retry_at r,
        ended c success diagnostic now retry_at r (ground arith) refl there held refl,
        rw (timed, there, held),
      )
    ]
  ]
]

module _ {codec : Codec} where
  pub Step-Changes : {q q' : Queue} → Step codec q q' → Changes q q'
  Step-Changes {q} (enqueues request) = enqueue-Changes codec request q
  Step-Changes {q} (claims owner ttl now order) = claim-Changes owner ttl now order q
  Step-Changes {q} (completes c success diagnostic now retry_at) =
      complete-Changes c success diagnostic now retry_at q

holds_lease-claimed :
    (now : Time) (r c : ReapRecord) → holds_lease now r c ≡ true → r.state ≡ ReapState.claimed
unfolding holds_lease
holds_lease-claimed now r c h = ground arith

-- The entry that changes is a record of the same shape.
pub Change-IsRecord :
    {q : Queue} {key : Text} {t : ReapRecord} → IsQueue q → Change q key t → IsRecord key t
Change-IsRecord v (fresh request k e absent) = rw (k, e) (new_record-IsRecord request)
Change-IsRecord {q} {key} v (leased owner ttl now before o l found eligible e) = rw e (
    take_lease-IsRecord owner ttl now key before o l eligible
      (Values-lookup IsRecord key q v found))
Change-IsRecord {q} {key} v (ended c success diagnostic now retry_at before n k found held e) =
    rw e (
      finish-IsRecord success diagnostic now retry_at key before n
        (holds_lease-claimed now before c held) (Values-lookup IsRecord key q v found))

Changes-IsQueue : {q q' : Queue} → IsQueue q → Changes q q' → IsQueue q'
Changes-IsQueue v (inl same) = rw same v
Changes-IsQueue {q} v (inr (key, t, c, e)) =
    rw e (Values-insert IsRecord key t q (Change-IsRecord v c) v)

module _ {codec : Codec} where
  pub Reach-IsQueue : {q q' : Queue} → IsQueue q → Reach codec q q' → IsQueue q'
  Reach-IsQueue v here = v
  Reach-IsQueue v (next r s) = Changes-IsQueue (Reach-IsQueue v r) (Step-Changes s)

module _ (codec : Codec) where
  -- In every queue that any sequence of calls makes of an empty one: each record stands under the
  -- key of its request; a queued record holds no lease; a claimed or succeeded one has an owner that
  -- is not blank, a lease with an end, and at least one attempt; and exactly the succeeded ones have
  -- a completion time.
  pub reached-IsQueue : (q : Queue) → Reach codec empty_queue q → IsQueue q
  unfolding empty_queue
  reached-IsQueue q r = Reach-IsQueue tt r
