-- ===== src/Controller/Reaper/Rounds.antt =====
-- internal/controller/runtimeenvironment/reaper.go: what one round does to the queue.
use breakfix.Prelude.{
  ℕ, ℤ, pos, pos_part, negsuc, ◌+◌, ◌-◌, ◌*◌, ◌^◌, ◌≤◌, ◌<◌, Bool, true, false, List, Option, none,
  some, leb_ℤ, if◌then◌else◌, ◌≡◌, ◌≢◌, ◌↔◌, refl, sym, ap, arith, min, ◌∙◌, inl, inr, Bool-cases,
}
use breakfix.Text.{Text}
use breakfix.Text.Dict.{lookup, insert, lookup-insert_self, lookup-insert_ne}
use breakfix.Errors.{Result, ok, Check}
use breakfix.Runnable.Model.{Time}
use breakfix.Runnable.Backoff.{retry_backoff, retry_backoff_cap}
use breakfix.Runnable.Backoff.Curve.{retry_backoff_curve}
use breakfix.Runnable.Reap.{ReapState, ReapRecord, Queue, claim, is_blank, reap_key, finish}
use breakfix.Runnable.Reap.Valid.{IsQueue}
use breakfix.Runnable.Reap.Fence.{Grants}
use breakfix.Runnable.Reap.Lease.{holder_completes}
use breakfix.Controller.Reaper.{
  ReapProvider, Reaper, Answer, or_default, default_lease_ttl, default_retry, tear_down, add_time,
  retry_delay, reap_claimed, reap_answer, run_once,
}
use breakfix.Controller.Reaper.Gone.{Gone, tear_down-Gone, finish_state, refused, finish-request}

else_taken : {A : Type 0} (b : Bool) (x y : A) → b ≡ false → (if b then x else y) ≡ y
else_taken false x y h = refl
else_taken true x y h = absurd (ground arith)

-- The call of `Claim` in a round.
abbrev pub claim_of : Reaper → Time → List Text → Queue → Result (Option ReapRecord) × Queue
claim_of r now order q = claim r.owner (or_default default_lease_ttl r.lease_ttl) now order q

module _ (provider : ReapProvider) (r : Reaper) (now done_at retry_from : Time)
    (order : List Text) where
  round_answer :
      (q : Queue) {c : Result (Option ReapRecord) × Queue}
      → is_blank r.owner ≡ false
      → claim_of r now order q ≡ c
      → run_once provider r now done_at retry_from order q
        ≡ reap_answer provider r done_at retry_from c
  unfolding run_once
  round_answer q o h =
      else_taken (is_blank r.owner) _ _ o ∙ ap (reap_answer provider r done_at retry_from) h

  -- A round whose claim grants nothing leaves the queue as the claim did, and says that it did
  -- nothing.
  pub round_idle :
      (q q' : Queue)
      → is_blank r.owner ≡ false
      → claim_of r now order q ≡ (ok none, q')
      → run_once provider r now done_at retry_from order q ≡ ((false, ok tt), q')
  round_idle q q' o h = round_answer q o h ∙ unfold reap_answer in refl

  -- The record that the round stores.
  pub round-finish :
      (q q' : Queue) (t : ReapRecord)
      → IsQueue q
      → is_blank r.owner ≡ false
      → claim_of r now order q ≡ (ok (some t), q')
      → 0 < done_at
      → done_at < t.lease_expires
      → let (success, diagnostic) = tear_down provider t.request.binding in
        run_once provider r now done_at retry_from order q ≡ (
          (true, ok tt),
          insert
              (reap_key t.request)
              (finish success diagnostic done_at
                (add_time retry_from (retry_delay r success t.attempt))
                t)
              q',
        )
  round-finish q q' t v o h n live =
      let g : Grants q t q' = record {
        owner = r.owner;
        ttl = or_default default_lease_ttl r.lease_ttl;
        now = now;
        order = order;
        answer = h;
      } in
      let (success, diagnostic) = tear_down provider t.request.binding in
      round_answer q o h
      ∙ unfold reap_answer reap_claimed in
        ap (λ (x : Check × Queue). ((true, x.0), x.1))
          (holder_completes v g success diagnostic done_at
            (add_time retry_from (retry_delay r success t.attempt)) n live)

module _ (provider : ReapProvider) (r : Reaper) (now done_at retry_from : Time)
    (order : List Text) where
  -- A round of a reaper with an owner on a queue of well-formed records, whose claim grants a
  -- record and which ends before the lease does, succeeds and stores that record, with its request,
  -- as finished: succeeded exactly when the provider has nothing left, because its stop finds no
  -- resources, or has stopped them and its release removes them or finds none; otherwise queued
  -- again. It leaves every other record as the claim did.
  pub round_completes :
      (q q' : Queue) (t : ReapRecord)
      → IsQueue q
      → is_blank r.owner ≡ false
      → claim_of r now order q ≡ (ok (some t), q')
      → 0 < done_at
      → done_at < t.lease_expires
      → let (answer, q'') = run_once provider r now done_at retry_from order q in
        (u : ReapRecord) × (answer ≡ (true, ok tt))
        × (lookup (reap_key t.request) q'' ≡ some u)
        × (u.request ≡ t.request)
        × ((u.state ≡ ReapState.succeeded) ↔ Gone provider t.request.binding)
        × ((u.state ≡ ReapState.queued) ↔ ¬ Gone provider t.request.binding)
        × ((k : Text) → k ≢ reap_key t.request → lookup k q'' ≡ lookup k q')
  round_completes q q' t v o h n live =
      let (success, diagnostic) = tear_down provider t.request.binding in
      let done = round-finish provider r now done_at retry_from order q q' t v o h n live in
      let retry_at = add_time retry_from (retry_delay r success t.attempt) in
      let u : ReapRecord = finish success diagnostic done_at retry_at t in
      let (gone, left) = finish_state success diagnostic done_at retry_at t in
      let torn : (success ≡ true) ↔ Gone provider t.request.binding =
        tear_down-Gone provider t.request.binding in
      (
        u,
        ap (λ (x : Answer × Queue). x.0) done,
        ap (λ (x : Answer × Queue). lookup (reap_key t.request) x.1) done
            ∙ lookup-insert_self (reap_key t.request) u q',
        finish-request success diagnostic done_at retry_at t,
        (λ s. torn.0 (gone.1 s), λ g. gone.0 (torn.1 g)),
        (
          λ s g. (refused success).0 (left.1 s) (torn.1 g),
          λ none_left. left.0 ((refused success).1 (λ s. none_left (torn.0 s))),
        ),
        λ k other.
            ap (λ (x : Answer × Queue). lookup k x.1) done
            ∙ lookup-insert_ne (reap_key t.request) k u q' (λ same. other (sym same)),
      )

-- The base of the wait: the setting, or five seconds without one.
abbrev pub base : Reaper → ℕ
base r = pos_part (or_default default_retry r.retry)

positive_base : (z : ℤ) → (n : ℕ) × (or_default default_retry z ≡ pos n) × (0 < n)
positive_base (pos n) = elim (Bool-cases (leb_ℤ (pos n) (pos 0))) [
  | inl low ↦ (default_retry, ground arith, omega arith)
  | inr high ↦ (n, ground arith, ground arith)
]
positive_base (negsuc n) = (default_retry, ground arith, omega arith)

failure_delay :
    (r : Reaper) (attempt : ℕ)
    → base r ≤ retry_backoff_cap
    → retry_delay r false attempt ≡ pos (min (base r * 2 ^ (attempt - 1)) retry_backoff_cap)
unfolding retry_delay
failure_delay r attempt small =
    let (n, at, p) = positive_base r.retry in
    let same : base r ≡ n = ap pos_part at in
    ap (λ z. retry_backoff z (pos attempt)) at
    ∙ retry_backoff_curve n (pos attempt) p (rw same at small)
    ∙ ap (λ m. pos (min (m * 2 ^ (attempt - 1)) retry_backoff_cap)) (sym same)

module _ (provider : ReapProvider) (r : Reaper) (now done_at retry_from : Time)
    (order : List Text) where
  -- A round of a reaper with an owner on a queue of well-formed records, which grants a record,
  -- ends before the lease does, and cannot remove the resources, queues the record again with
  -- the same attempts. The record waits for the base of the reaper, doubled for each attempt
  -- after the first, and at most five minutes, when the base is at most five minutes.
  pub failed_round_backs_off :
      (q q' : Queue) (t : ReapRecord)
      → IsQueue q
      → is_blank r.owner ≡ false
      → claim_of r now order q ≡ (ok (some t), q')
      → 0 < done_at
      → done_at < t.lease_expires
      → (tear_down provider t.request.binding).0 ≡ false
      → base r ≤ retry_backoff_cap
      → let (answer, q'') = run_once provider r now done_at retry_from order q in
        (u : ReapRecord) × (answer ≡ (true, ok tt))
        × (lookup (reap_key t.request) q'' ≡ some u)
        × (u.state ≡ ReapState.queued)
        × (u.attempt ≡ t.attempt)
        × (u.next_attempt_at ≡ retry_from + min (base r * 2 ^ (t.attempt - 1)) retry_backoff_cap)
  failed_round_backs_off q q' t v o h n live stuck small =
      let (success, diagnostic) = tear_down provider t.request.binding in
      let done = round-finish provider r now done_at retry_from order q q' t v o h n live in
      let retry_at = add_time retry_from (retry_delay r success t.attempt) in
      let u : ReapRecord = finish success diagnostic done_at retry_at t in
      let delay : retry_delay r success t.attempt
          ≡ pos (min (base r * 2 ^ (t.attempt - 1)) retry_backoff_cap) =
        rw stuck (failure_delay r t.attempt small) in
      (
        u,
        ap (λ (x : Answer × Queue). x.0) done,
        ap (λ (x : Answer × Queue). lookup (reap_key t.request) x.1) done
            ∙ lookup-insert_self (reap_key t.request) u q',
        unfold finish in rw stuck refl,
        unfold finish in rw stuck refl,
        unfold finish add_time in rw (delay, stuck) refl,
      )
