-- ===== src/Runnable/Reap/Fence.antt =====
-- internal/domain/runnable/reap.go: the lease fence. Attempts only grow, so a claim that was taken
-- over can never complete; a live lease is never granted again; a failure is always retried.
use breakfix.Prelude.{
  ℕ, ℤ, ◌+◌, ◌<◌, ◌≤◌, Bool, true, false, List, ◌≡◌, ◌≢◌, refl, sym, ap, ◌∙◌, arith, some, inl, inr,
  Bool-cases,
}
use mathlib.Core.Path.{subst}
use breakfix.Text.{Text, text_eq}
use breakfix.Text.Laws.{text_eq_iff}
use breakfix.Text.Dict.{lookup, Values-lookup, lookup-insert, lookup-insert_self, lookup-insert_ne}
use breakfix.Errors.{ok, err, Error}
use breakfix.Runnable.Model.{Time}
use breakfix.Runnable.Spec.{Codec}
use breakfix.Runnable.Reap.{
  ReapState, ReapRecord, Queue, reap_key, is_eligible, take_lease, claim, finish, holds_lease,
  complete,
}
use breakfix.Runnable.Reap.Valid.{IsRecord, IsQueue, Claimed, claim-Granted}
use breakfix.Runnable.Reap.History.{
  Step, claims, Reach, Change, fresh, leased, ended, Changes, Step-Changes, Reach-IsQueue,
}

-- How a record may change: it is for the same request, its attempts do not go down, and once it has
-- succeeded nothing changes.
pub record Later (r r' : ReapRecord) : Type 0 where
  pub attempts : r.attempt ≤ r'.attempt
  pub same : r'.request ≡ r.request
  pub final : r.state ≡ ReapState.succeeded → r' ≡ r

Later-refl : (r : ReapRecord) → Later r r
Later-refl r = record { attempts = omega arith; same = refl; final = λ _. refl }

Later-trans : {r s t : ReapRecord} → Later r s → Later s t → Later r t
Later-trans {r} {s} {t} a b = record {
  attempts = omega arith;
  same = b.same ∙ a.same;
  final = λ e. b.final (ap (λ (x : ReapRecord). x.state) (a.final e) ∙ e) ∙ a.final e;
}

take_lease-Later :
    (owner : Text) (ttl : ℕ) (now : Time) (r : ReapRecord)
    → is_eligible now r ≡ true
    → Later r (take_lease owner ttl now r)
unfolding take_lease is_eligible
take_lease-Later owner ttl now r h = record {
  attempts = omega arith;
  same = refl;
  final = λ e. absurd (ground arith);
}

finish-Later :
    (success : Bool) (diagnostic : Text) (now retry_at : Time) (r c : ReapRecord)
    → holds_lease now r c ≡ true
    → Later r (finish success diagnostic now retry_at r)
unfolding finish holds_lease
finish-Later true diagnostic now retry_at r c h = record {
  attempts = omega arith;
  same = refl;
  final = λ e. absurd (ground arith);
}
finish-Later false diagnostic now retry_at r c h = record {
  attempts = omega arith;
  same = refl;
  final = λ e. absurd (ground arith);
}

Change-Later :
    {q : Queue} {key : Text} {t r : ReapRecord} → lookup key q ≡ some r → Change q key t → Later r t
Change-Later h (fresh request k e absent) = absurd (ground arith)
Change-Later {r} h (leased owner ttl now before o l found eligible e) =
    let same : before ≡ r = ground arith in
    rw (e, ← same) (take_lease-Later owner ttl now before eligible)
Change-Later {r} h (ended c success diagnostic now retry_at before n k found held e) =
    let same : before ≡ r = ground arith in
    rw (e, ← same) (finish-Later success diagnostic now retry_at before c held)

Changes-Later :
    (q q' : Queue) (k : Text) (r : ReapRecord)
    → Changes q q'
    → lookup k q ≡ some r
    → (r' : ReapRecord) × (lookup k q' ≡ some r') × Later r r'
Changes-Later q q' k r (inl same) h = (r, rw same h, Later-refl r)
Changes-Later q q' k r (inr (key, t, c, e)) h = elim (Bool-cases (text_eq key k)) [
  | inl at ↦
      let here_key : key ≡ k = (text_eq_iff key k).0 at in
      (t, rw e (rw here_key (lookup-insert_self k t q)), Change-Later (rw here_key h) c)
  | inr other ↦ (r, rw e (rw (lookup-insert key k t q) (rw other h)), Later-refl r)
]

module _ {codec : Codec} where
  -- Over any sequence of calls a record stays in the queue under its key, for the same request; its
  -- number of attempts never goes down; and once it has succeeded it never changes again.
  pub records_persist :
      {q q' : Queue} (k : Text) (r : ReapRecord)
      → Reach codec q q'
      → lookup k q ≡ some r
      → (r' : ReapRecord) × (lookup k q' ≡ some r') × Later r r'
  records_persist k r Reach.here h = (r, h, Later-refl r)
  records_persist {q' = q''} k r (Reach.next {r = q'} reach step) h =
      let (r', h', l) = records_persist k r reach h in
      let (r'', h'', l') = Changes-Later q' q'' k r' (Step-Changes step) h' in
      (r'', h'', Later-trans l l')

-- What a granted claim says of the two queues: the record before it, the one after it, the rest.
pub record Leased (now : Time) (q : Queue) (t : ReapRecord) (q' : Queue) : Type 0 where
  pub before : ReapRecord
  pub was : lookup (reap_key t.request) q ≡ some before
  pub eligible : is_eligible now before ≡ true
  pub stored : lookup (reap_key t.request) q' ≡ some t
  pub counted : t.attempt ≡ before.attempt + 1
  pub state : t.state ≡ ReapState.claimed
  pub others : (k : Text) → reap_key t.request ≢ k → lookup k q' ≡ lookup k q

Claimed-Leased :
    {owner : Text} {ttl : ℕ} {now : Time} {q q' : Queue} {t : ReapRecord}
    → IsQueue q
    → Claimed owner ttl now q t q'
    → Leased now q t q'
unfolding take_lease
Claimed-Leased {q} {q'} {t} v c =
    let request_kept : t.request ≡ c.before.request = rw c.taken in
    let keyed : c.key ≡ reap_key t.request =
      (Values-lookup IsRecord c.key q v c.found).keyed ∙ ap reap_key (sym request_kept) in
    record {
      before = c.before;
      was = rw keyed at (c.found);
      eligible = c.eligible;
      stored = rw c.stored (rw (← keyed) (lookup-insert_self c.key t q));
      counted = rw c.taken;
      state = rw c.taken;
      others = λ k ne. rw c.stored (lookup-insert_ne c.key k t q (λ e. ne (sym keyed ∙ e)));
    }

pub lookup_once :
    (k : Text) (q : Queue) (a b : ReapRecord) → lookup k q ≡ some a → lookup k q ≡ some b → a ≡ b
lookup_once k q a b h h' = ground arith

stale_lost :
    (c r : ReapRecord) (success : Bool) (diagnostic : Text) (now retry_at : Time) (q : Queue)
    → 0 < now
    → lookup (reap_key c.request) q ≡ some r
    → c.attempt < r.attempt
    → complete c success diagnostic now retry_at q ≡ (err Error.reap_lease_lost, q)
unfolding complete holds_lease
stale_lost c r success diagnostic now retry_at q n h a = rw h (ground arith)

-- A call of `Claim` that returns the record `t`.
pub record Grants (q : Queue) (t : ReapRecord) (q' : Queue) : Type 0 where
  pub owner : Text
  pub ttl : ℤ
  pub now : Time
  pub order : List Text
  pub answer : claim owner ttl now order q ≡ (ok (some t), q')

pub Grants-Leased :
    {q q' : Queue} {t : ReapRecord} → IsQueue q → (g : Grants q t q') → Leased g.now q t q'
Grants-Leased {q} {q'} {t} v g =
    Claimed-Leased v (claim-Granted g.owner g.ttl g.now g.order q q' t g.answer).granted

module _ {codec : Codec} where
  Grants-Step : {q q' : Queue} {t : ReapRecord} → Grants q t q' → Step codec q q'
  Grants-Step {q} {q'} {t} g =
      let result : (claim g.owner g.ttl g.now g.order q).1 ≡ q' = ground (arith, g.answer) in
      subst (λ x. Step codec q x) result (claims g.owner g.ttl g.now g.order)

  -- Fencing. From a queue of well-formed records, let a claim be granted, then any calls be
  -- made, then another claim be granted for the same key, then again any calls: the first claim
  -- can no longer complete, successfully or not, at any time that is set. It is told that its
  -- lease is lost, and the queue stays as it is.
  pub superseded_claim_lost :
      {q q1 q2 q3 q4 : Queue} {t u : ReapRecord}
      → IsQueue q
      → Grants q t q1
      → Reach codec q1 q2
      → Grants q2 u q3
      → reap_key u.request ≡ reap_key t.request
      → Reach codec q3 q4
      → (success : Bool) (diagnostic : Text) (at retry_at : Time) → 0 < at
      → complete t success diagnostic at retry_at q4 ≡ (err Error.reap_lease_lost, q4)
  superseded_claim_lost {q} {q1} {q2} {q3} {q4} {t} {u} v g r g' k r' success diagnostic at retry_at
        n =
      let v1 : IsQueue q1 = Reach-IsQueue v (Reach.next Reach.here (Grants-Step g)) in
      let v2 : IsQueue q2 = Reach-IsQueue v1 r in
      let l : Leased g.now q t q1 = Grants-Leased v g in
      let l' : Leased g'.now q2 u q3 = Grants-Leased v2 g' in
      let (m, found_m, later_m) = records_persist (reap_key t.request) t r l.stored in
      let (w, found_w, later_w) = records_persist (reap_key u.request) u r' l'.stored in
      let met : m ≡ l'.before =
        lookup_once (reap_key t.request) q2 m l'.before found_m (rw k at (l'.was)) in
      let grown : m.attempt ≡ l'.before.attempt = ap (λ (x : ReapRecord). x.attempt) met in
      stale_lost t w success diagnostic at retry_at q4 n (rw k at found_w)
        (omega (arith, later_m.attempts, later_w.attempts, l'.counted, grown))
