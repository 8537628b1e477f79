-- ===== src/Examples/ReapQueue.antt =====
-- The queue of the reaper: a record that one worker claims, loses and another claims again.
use breakfix.Prelude.{◌≡◌, ◌≢◌, ◌⊎◌, refl, true, false, none, some, pos, [], ◌∷◌, arith, leb}
use breakfix.Text.{Text, codes}
use breakfix.Text.Dict.{lookup, insert}
use breakfix.Errors.{Error, ok, err}
use breakfix.Runnable.Kinds.{EnvironmentPurpose}
use breakfix.Runnable.Model.{Time}
use breakfix.Runnable.Reap.{
  ReapState, EnvironmentBinding, ReapRequest, ReapRecord, Queue, reap_key, new_record, empty_queue,
  enqueue, is_eligible, take_lease, claim, complete, finish, is_blank,
}
use breakfix.Runnable.Reap.Valid.{IsQueue, IsRecord, new_record-IsRecord, take_lease-IsRecord}
use breakfix.Runnable.Reap.History.{Step, Reach, reached-IsQueue}
use breakfix.Runnable.Reap.Fence.{Later, Grants, records_persist, superseded_claim_lost}
use breakfix.Runnable.Reap.Lease.{live_lease_kept, holder_completes, failure_retried}
use breakfix.Runnable.Reap.Progress.{NoneEligible, claim_total}
use breakfix.Examples.Data.{revision, codec, digest}

abbrev pub binding : Text → EnvironmentBinding
binding name = record {
  namespace = codes "n";
  name = name;
  uid = codes "u";
  purpose = EnvironmentPurpose.learning;
  reset_nonce = pos 0;
  revision = revision;
  blank_runtime = none;
}

abbrev pub request : Text → ReapRequest
request name = record {
  namespace = codes "n";
  name = name;
  uid = codes "u";
  revision = digest;
  binding = binding name;
}

abbrev pub first : ReapRecord
first = new_record (request (codes "e"))

abbrev another : ReapRecord
another = new_record (request (codes "f"))

abbrev pub key : Text
key = reap_key first.request

abbrev key2 : Text
key2 = reap_key another.request

abbrev pub worker : Text
worker = codes "w1"

abbrev other_worker : Text
other_worker = codes "w2"

abbrev pub taken : ReapRecord
taken = take_lease worker 10 5 first

abbrev retaken : ReapRecord
retaken = take_lease other_worker 10 20 taken

abbrev pub queue : Queue
queue = (key, first) ∷ []

abbrev pub taken_queue : Queue
taken_queue = (key, taken) ∷ []

abbrev retaken_queue : Queue
retaken_queue = (key, retaken) ∷ []

-- The first record claimed, and a second one.
abbrev two_records : Queue
two_records = (key, taken) ∷ (key2, another) ∷ []

abbrev second_taken : ReapRecord
second_taken = take_lease worker 10 6 another

abbrev two_taken : Queue
two_taken = (key, taken) ∷ (key2, second_taken) ∷ []

first_valid : IsRecord key first
unfolding new_record
first_valid = new_record-IsRecord (request (codes "e"))

second_valid : IsRecord key2 another
unfolding new_record
second_valid = new_record-IsRecord (request (codes "f"))

pub queue_valid : IsQueue queue
queue_valid = (first_valid, tt)

not_blank : is_blank worker ≡ false
unfolding breakfix.Text.Trim.trim_space
not_blank = refl

eligible_first : is_eligible 5 first ≡ true
unfolding breakfix.Runnable.Reap.new_record breakfix.Runnable.Reap.eligible_at
eligible_first = refl

taken_valid : IsRecord key taken
taken_valid =
    take_lease-IsRecord worker 10 5 key first not_blank (omega arith) eligible_first first_valid

granted : claim worker (pos 10) 5 (key ∷ []) queue ≡ (ok (some taken), taken_queue)
unfolding breakfix.Text.Trim.trim_space breakfix.Text.Dict.lookup breakfix.Text.Dict.insert
    breakfix.Runnable.Reap.reap_key breakfix.Runnable.Reap.new_record
    breakfix.Runnable.Reap.eligible_at breakfix.Runnable.Reap.claim
granted = refl

regranted :
    claim other_worker (pos 10) 20 (key ∷ []) taken_queue ≡ (ok (some retaken), retaken_queue)
unfolding breakfix.Text.Trim.trim_space breakfix.Text.Dict.lookup breakfix.Text.Dict.insert
    breakfix.Runnable.Reap.reap_key breakfix.Runnable.Reap.new_record
    breakfix.Runnable.Reap.take_lease breakfix.Runnable.Reap.eligible_at
    breakfix.Runnable.Reap.claim
regranted = refl

second_granted :
    claim worker (pos 10) 6 (key ∷ key2 ∷ []) two_records ≡ (ok (some second_taken), two_taken)
unfolding breakfix.Text.Trim.trim_space breakfix.Text.Dict.lookup breakfix.Text.Dict.insert
    breakfix.Runnable.Reap.reap_key breakfix.Runnable.Reap.new_record
    breakfix.Runnable.Reap.take_lease breakfix.Runnable.Reap.eligible_at
    breakfix.Runnable.Reap.claim
second_granted = refl

abbrev grant : Grants queue taken taken_queue
grant = record { owner = worker; ttl = pos 10; now = 5; order = key ∷ []; answer = granted }

abbrev regrant : Grants taken_queue retaken retaken_queue
regrant = record {
  owner = other_worker;
  ttl = pos 10;
  now = 20;
  order = key ∷ [];
  answer = regranted;
}

abbrev second_grant : Grants two_records second_taken two_taken
second_grant = record {
  owner = worker;
  ttl = pos 10;
  now = 6;
  order = key ∷ key2 ∷ [];
  answer = second_granted;
}

same_key : reap_key retaken.request ≡ reap_key taken.request
unfolding take_lease
same_key = refl

superseded_claim_lost_example :
    complete taken true [] 22 30 retaken_queue ≡ (err Error.reap_lease_lost, retaken_queue)
superseded_claim_lost_example =
    superseded_claim_lost {codec = codec} queue_valid grant Reach.here regrant same_key Reach.here
      true [] 22 30 (omega arith)

found : lookup key two_records ≡ some taken
unfolding breakfix.Text.Dict.lookup breakfix.Runnable.Reap.reap_key
    breakfix.Runnable.Reap.new_record
found = refl

claimed_state : taken.state ≡ ReapState.claimed
unfolding take_lease
claimed_state = refl

lease_end : taken.lease_expires ≡ 15
unfolding take_lease
lease_end = refl

live_lease_kept_example :
    (reap_key second_taken.request ≢ key) × (lookup key two_taken ≡ some taken)
live_lease_kept_example =
    live_lease_kept second_grant key taken (taken_valid, (second_valid, tt)) found claimed_state
      (omega (arith, lease_end))

holder_completes_example :
    complete taken true [] 8 9 taken_queue
    ≡ (ok tt, insert (reap_key taken.request) (finish true [] 8 9 taken) taken_queue)
holder_completes_example =
    holder_completes queue_valid grant true [] 8 9 (omega arith) (omega (arith, lease_end))

failure_retried_example :
    let (answer, q'') = complete taken false (codes "stuck") 8 9 taken_queue in
    (r : ReapRecord) × (answer ≡ ok tt)
    × (lookup (reap_key taken.request) q'' ≡ some r)
    × (r.attempt ≡ taken.attempt)
    × (r.request ≡ taken.request)
    × ((later : Time) → is_eligible later r ≡ leb 9 later)
failure_retried_example =
    failure_retried queue_valid grant (codes "stuck") 8 9 (omega arith) (omega (arith, lease_end))

claim_total_example :
    ((t : ReapRecord) × (q' : Queue) × (claim worker (pos 10) 5 (key ∷ []) queue
        ≡ (ok (some t), q')))
    ⊎ ((claim worker (pos 10) 5 (key ∷ []) queue ≡ (ok none, queue))
        × NoneEligible 5 (key ∷ []) queue)
claim_total_example = claim_total worker 10 5 (key ∷ []) queue not_blank (omega arith) (omega arith)

reached-IsQueue_example : IsQueue (enqueue codec (request (codes "e")) empty_queue).1
reached-IsQueue_example =
    reached-IsQueue codec (enqueue codec (request (codes "e")) empty_queue).1
      (Reach.next Reach.here (Step.enqueues (request (codes "e"))))

found_taken : lookup key taken_queue ≡ some taken
unfolding breakfix.Text.Dict.lookup breakfix.Runnable.Reap.reap_key
    breakfix.Runnable.Reap.new_record
found_taken = refl

records_persist_example :
    (r' : ReapRecord) × (lookup key (claim other_worker (pos 10) 20 (key ∷ []) taken_queue).1
      ≡ some r')
    × Later taken r'
records_persist_example =
    records_persist {codec = codec} key taken
      (Reach.next Reach.here (Step.claims other_worker (pos 10) 20 (key ∷ []))) found_taken
