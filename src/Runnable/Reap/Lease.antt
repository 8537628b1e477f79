-- ===== src/Runnable/Reap/Lease.antt =====
-- internal/domain/runnable/reap.go: what the holder of a lease can rely on.
use breakfix.Prelude.{◌<◌, Bool, true, false, ◌≡◌, ◌≢◌, refl, ap, ◌∙◌, arith, some, leb, ◌==◌}
use breakfix.Text.{Text}
use breakfix.Text.Laws.{text_eq_self}
use breakfix.Text.Dict.{lookup, insert, lookup-insert_self}
use breakfix.Errors.{ok, Check}
use breakfix.Runnable.Model.{Time}
use breakfix.Runnable.Reap.{
  ReapState, ReapRecord, Queue, reap_key, is_eligible, finish, holds_lease, complete,
}
use breakfix.Runnable.Reap.Valid.{IsQueue}
use breakfix.Runnable.Reap.Fence.{Grants, Leased, Grants-Leased, lookup_once}

live_not-eligible :
    (now : Time) (r : ReapRecord)
    → r.state ≡ ReapState.claimed
    → now < r.lease_expires
    → ¬ (is_eligible now r ≡ true)
unfolding is_eligible
live_not-eligible now r s live h = ground arith

-- Exclusion. In a queue of well-formed records, while the lease of a claimed record has not
-- ended, no claim, whatever the order in which the map is visited, grants that record: its entry
-- stays as it is.
pub live_lease_kept :
    {q q' : Queue} {t : ReapRecord} (g : Grants q t q') (key : Text) (r : ReapRecord)
    → IsQueue q
    → lookup key q ≡ some r
    → r.state ≡ ReapState.claimed
    → g.now < r.lease_expires
    → (reap_key t.request ≢ key) × (lookup key q' ≡ some r)
live_lease_kept {q} {q'} {t} g key r v found s live =
    let l : Leased g.now q t q' = Grants-Leased v g in
    let apart : reap_key t.request ≢ key = λ e.
      let same : l.before ≡ r = lookup_once key q l.before r (rw e at (l.was)) found in
      live_not-eligible g.now r s live (rw same at (l.eligible)) in
    (apart, l.others key apart ∙ found)

holder_holds :
    (now : Time) (t : ReapRecord)
    → t.state ≡ ReapState.claimed
    → now < t.lease_expires
    → holds_lease now t t ≡ true
unfolding holds_lease
holder_holds now t s live =
    ground (arith, text_eq_self t.lease_owner, text_eq_self t.request.revision)

-- The holder of a lease that a claim granted on a queue of well-formed records completes, at any
-- time that is set and before the lease ends: the entry of its request becomes the finished
-- record, and nothing else changes.
pub holder_completes :
    {q q' : Queue} {t : ReapRecord}
    → IsQueue q
    → (g : Grants q t q') (success : Bool) (diagnostic : Text) (now retry_at : Time) → 0 < now
    → now < t.lease_expires
    → complete t success diagnostic now retry_at q'
      ≡ (ok tt, insert (reap_key t.request) (finish success diagnostic now retry_at t) q')
unfolding complete
holder_completes {q} {q'} {t} v g success diagnostic now retry_at n live =
    let l : Leased g.now q t q' = Grants-Leased v g in
    let timed : (now == 0) ≡ false = ground arith in
    rw (timed, l.stored, holder_holds now t l.state live) refl

finished_failure :
    (diagnostic : Text) (now retry_at : Time) (t : ReapRecord) (later : Time)
    → is_eligible later (finish false diagnostic now retry_at t) ≡ leb retry_at later
unfolding finish is_eligible
finished_failure diagnostic now retry_at t later = ground arith

-- A failed completion by the holder of a lease that a claim granted on a queue of well-formed
-- records, at a time that is set and before the lease ends, puts the record back: it keeps its
-- attempts and its request, and it can be claimed exactly from the retry time on.
pub failure_retried :
    {q q' : Queue} {t : ReapRecord}
    → IsQueue q
    → (g : Grants q t q') (diagnostic : Text) (now retry_at : Time) → 0 < now
    → now < t.lease_expires
    → let (answer, q'') = complete t false diagnostic now retry_at q' in
      (r : ReapRecord) × (answer ≡ ok tt)
      × (lookup (reap_key t.request) q'' ≡ some r)
      × (r.attempt ≡ t.attempt)
      × (r.request ≡ t.request)
      × ((later : Time) → is_eligible later r ≡ leb retry_at later)
failure_retried {q} {q'} {t} v g diagnostic now retry_at n live =
    let done = holder_completes v g false diagnostic now retry_at n live in
    let r : ReapRecord = finish false diagnostic now retry_at t in
    (
      r,
      ap (λ (x : Check × Queue). x.0) done,
      ap (λ (x : Check × Queue). lookup (reap_key t.request) x.1) done
          ∙ lookup-insert_self (reap_key t.request) r q',
      unfold finish in refl,
      unfold finish in refl,
      finished_failure diagnostic now retry_at t,
    )
