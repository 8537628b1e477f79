-- ===== src/Runnable/Reap/Valid.antt =====
-- internal/domain/runnable/reap.go: what holds of every record of the queue, and that each method
-- keeps it.
use breakfix.Prelude.{
  ℕ, ℤ, pos_part, ◌<◌, Bool, true, false, not, List, [], ◌∷◌, ◌≡◌, ◌≢◌, refl, arith, Option, none,
  some, inl, inr, Bool-cases, Option-cases, ltb, ◌||◌, ◌==◌,
}
use breakfix.Text.{Text}
use breakfix.Text.Dict.{lookup, insert, Values}
use breakfix.Errors.{Result, ok, err}
use breakfix.Runnable.Model.{Time}
use breakfix.Runnable.Reap.{
  ReapState, ReapRequest, ReapRecord, Queue, reap_key, new_record, is_eligible, eligible_at,
  take_lease, claim_loop, claim, is_blank, is_positive, finish,
}

-- A completion time that is set.
abbrev pub completed : Option Time → Bool
completed none = false
completed (some t) = ltb 0 t

-- A record under its key. A lease is held exactly while the record is claimed or has succeeded, and
-- a completion time stands only in a record that succeeded.
pub record IsRecord (key : Text) (r : ReapRecord) : Type 0 where
  pub keyed : key ≡ reap_key r.request
  pub queued_free : r.state ≡ ReapState.queued → (r.lease_owner ≡ []) × (r.lease_expires ≡ 0)
  pub lease_owned : r.state ≢ ReapState.queued → is_blank r.lease_owner ≡ false
  pub lease_timed : r.state ≢ ReapState.queued → 0 < r.lease_expires
  pub attempted : r.state ≢ ReapState.queued → 0 < r.attempt
  pub pending : r.state ≢ ReapState.succeeded → r.completed_at ≡ none
  pub done : r.state ≡ ReapState.succeeded → completed r.completed_at ≡ true

abbrev pub IsQueue : Queue → Type 0
IsQueue = Values IsRecord

pub new_record-IsRecord : (request : ReapRequest) → IsRecord (reap_key request) (new_record request)
unfolding new_record
new_record-IsRecord request = ground arith

pub take_lease-IsRecord :
    (owner : Text) (ttl : ℕ) (now : Time) (key : Text) (r : ReapRecord)
    → is_blank owner ≡ false
    → 0 < ttl
    → is_eligible now r ≡ true
    → IsRecord key r
    → IsRecord key (take_lease owner ttl now r)
unfolding take_lease is_eligible
take_lease-IsRecord owner ttl now key r o t e v = ground arith

pub finish-IsRecord :
    (success : Bool) (diagnostic : Text) (now retry_at : Time) (key : Text) (r : ReapRecord)
    → 0 < now
    → r.state ≡ ReapState.claimed
    → IsRecord key r
    → IsRecord key (finish success diagnostic now retry_at r)
unfolding finish
finish-IsRecord true diagnostic now retry_at key r n c v = ground arith
finish-IsRecord false diagnostic now retry_at key r n c v = ground arith

-- What the loop of `Claim` finds: a record that was eligible, and the only entry that changes.
pub record Claimed (owner : Text) (ttl : ℕ) (now : Time) (q : Queue) (t : ReapRecord) (q' : Queue)
    : Type 0 where
  pub key : Text
  pub before : ReapRecord
  pub found : lookup key q ≡ some before
  pub eligible : is_eligible now before ≡ true
  pub taken : t ≡ take_lease owner ttl now before
  pub stored : q' ≡ insert key t q

eligible_at-some :
    (now : Time) (o : Option ReapRecord) {r : ReapRecord}
    → eligible_at now o ≡ some r
    → (o ≡ some r) × (is_eligible now r ≡ true)
unfolding eligible_at
eligible_at-some now none h = ground arith
eligible_at-some now (some r) h = (ground arith, ground arith)

pub claim_loop-Claimed :
    (owner : Text) (ttl : ℕ) (now : Time) (order : List Text) (q q' : Queue) (t : ReapRecord)
    → claim_loop owner ttl now order q ≡ (some t, q')
    → Claimed owner ttl now q t q'
unfolding claim_loop
claim_loop-Claimed owner ttl now [] q q' t h = absurd (ground arith)
claim_loop-Claimed owner ttl now (key ∷ order) q q' t h =
    elim (Option-cases (eligible_at now (lookup key q))) [
      | inl no_luck ↦ claim_loop-Claimed owner ttl now order q q' t (ground arith)
      | inr (r, hit) ↦
          let (found, eligible) = eligible_at-some now (lookup key q) hit in
          record {
            key = key;
            before = r;
            found = found;
            eligible = eligible;
            taken = ground arith;
            stored = ground arith;
          }
    ]

pub claim_loop-none :
    (owner : Text) (ttl : ℕ) (now : Time) (order : List Text) (q q' : Queue)
    → claim_loop owner ttl now order q ≡ (none, q')
    → q' ≡ q
unfolding claim_loop
claim_loop-none owner ttl now [] q q' h = ground arith
claim_loop-none owner ttl now (key ∷ order) q q' h =
    elim (Option-cases (eligible_at now (lookup key q))) [
      | inl no_luck ↦ claim_loop-none owner ttl now order q q' (ground arith)
      | inr (r, hit) ↦ absurd (ground arith)
    ]

-- What a granted claim is: the arguments were valid, and the loop found the record.
pub record Granted (owner : Text) (ttl : ℤ) (now : Time) (q : Queue) (t : ReapRecord) (q' : Queue)
    : Type 0 where
  pub owned : is_blank owner ≡ false
  pub lasting : 0 < pos_part ttl
  pub timed : 0 < now
  pub granted : Claimed owner (pos_part ttl) now q t q'

pub claim-Granted :
    (owner : Text) (ttl : ℤ) (now : Time) (order : List Text) (q q' : Queue) (t : ReapRecord)
    → claim owner ttl now order q ≡ (ok (some t), q')
    → Granted owner ttl now q t q'
unfolding claim
claim-Granted owner ttl now order q q' t h =
    elim (Bool-cases (is_blank owner || (not (is_positive ttl) || now == 0))) [
      | inl bad ↦ absurd (ground arith)
      | inr good ↦ record {
        owned = ground arith;
        lasting = ground arith;
        timed = ground arith;
        granted = claim_loop-Claimed owner (pos_part ttl) now order q q' t (ground arith);
      }
    ]

-- A claim that grants nothing leaves the queue alone.
pub claim_idle :
    (owner : Text) (ttl : ℤ) (now : Time) (order : List Text) (q q' : Queue)
    (answer : Result (Option ReapRecord))
    → claim owner ttl now order q ≡ (answer, q')
    → ((t : ReapRecord) → answer ≢ ok (some t))
    → q' ≡ q
unfolding claim
claim_idle owner ttl now order q q' (err e) h n = ground arith
claim_idle owner ttl now order q q' (ok (some t)) h n = absurd (n t refl)
claim_idle owner ttl now order q q' (ok none) h n =
    elim (Bool-cases (is_blank owner || (not (is_positive ttl) || now == 0))) [
      | inl bad ↦ absurd (ground arith)
      | inr good ↦ claim_loop-none owner (pos_part ttl) now order q q' (ground arith)
    ]
