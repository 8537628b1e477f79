-- ===== src/Examples/Rounds.antt =====
-- Rounds of the reaper.
use breakfix.Prelude.{
  ◌≡◌, ◌≢◌, ◌↔◌, ◌+◌, ◌*◌, ◌-◌, ◌^◌, min, refl, true, false, some, pos, [], ◌∷◌, arith,
}
use breakfix.Text.{Text, codes}
use breakfix.Text.Dict.{lookup, insert}
use breakfix.Errors.{Error, ok, err}
use breakfix.Runnable.Backoff.{second, retry_backoff_cap}
use breakfix.Runnable.Reap.{
  ReapState, ReapRecord, Queue, reap_key, finish, is_blank, claim, take_lease,
}
use breakfix.Controller.Reaper.{ReapProvider, Reaper, tear_down, add_time, retry_delay, run_once}
use breakfix.Controller.Reaper.Gone.{Gone}
use breakfix.Controller.Reaper.Rounds.{base, claim_of, round_completes, failed_round_backs_off}
use breakfix.Runnable.Reap.{binding_digest}
use breakfix.Examples.ReapQueue.{first, key, worker, queue, queue_valid}

-- Its stop finds the resources gone.
abbrev gone : ReapProvider
gone = record { stop = λ b. (false, err Error.resource_absent); release = λ b. (false, ok tt) }

-- Its stop goes on and on.
abbrev busy : ReapProvider
busy = record { stop = λ b. (false, ok tt); release = λ b. (false, ok tt) }

abbrev reaper : Reaper
reaper = record { owner = worker; lease_ttl = pos 0; retry = pos 0 }

-- The default lease.
abbrev held : ReapRecord
held = take_lease worker (30 * second) 5 first

owned : is_blank worker ≡ false
unfolding breakfix.Text.Trim.trim_space
owned = refl

granted : claim_of reaper 5 (key ∷ []) queue ≡ (ok (some held), (key, held) ∷ [])
unfolding breakfix.Text.Trim.trim_space breakfix.Text.Dict.lookup breakfix.Text.Dict.insert
    breakfix.Runnable.Reap.reap_key breakfix.Runnable.Reap.new_record
    breakfix.Runnable.Reap.eligible_at breakfix.Runnable.Reap.claim
granted = refl

held_until : held.lease_expires ≡ 5 + 30 * second
unfolding take_lease
held_until = refl

stuck : (tear_down busy held.request.binding).0 ≡ false
unfolding breakfix.Controller.Reaper.run_once
stuck = refl

round_completes_example :
    let (answer, q'') = run_once gone reaper 5 6 7 (key ∷ []) queue in
    (u : ReapRecord) × (answer ≡ (true, ok tt))
    × (lookup (reap_key held.request) q'' ≡ some u)
    × (u.request ≡ held.request)
    × ((u.state ≡ ReapState.succeeded) ↔ Gone gone held.request.binding)
    × ((u.state ≡ ReapState.queued) ↔ ¬ Gone gone held.request.binding)
    × ((k : Text) → k ≢ reap_key held.request → lookup k q'' ≡ lookup k ((key, held) ∷ []))
round_completes_example =
    round_completes gone reaper 5 6 7 (key ∷ []) queue ((key, held) ∷ []) held queue_valid owned
      granted (omega arith) (omega (arith, held_until))

failed_round_backs_off_example :
    let (answer, q'') = run_once busy reaper 5 6 7 (key ∷ []) queue in
    (u : ReapRecord) × (answer ≡ (true, ok tt))
    × (lookup (reap_key held.request) q'' ≡ some u)
    × (u.state ≡ ReapState.queued)
    × (u.attempt ≡ held.attempt)
    × (u.next_attempt_at ≡ 7 + min (base reaper * 2 ^ (held.attempt - 1)) retry_backoff_cap)
failed_round_backs_off_example =
    failed_round_backs_off busy reaper 5 6 7 (key ∷ []) queue ((key, held) ∷ []) held queue_valid
      owned granted (omega arith) (omega (arith, held_until)) stuck (omega arith)
