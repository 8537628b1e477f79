-- ===== src/Runnable/Reap/Progress.antt =====
-- internal/domain/runnable/reap.go: a claim grants whatever work there is.
use breakfix.Prelude.{
  ℕ, pos, ◌<◌, false, List, [], ◌∷◌, ◌≡◌, refl, arith, Option, none, some, ◌⊎◌, inl, inr,
  Option-cases, Among,
}
use breakfix.Text.{Text}
use breakfix.Text.Dict.{lookup, insert}
use breakfix.Errors.{ok}
use breakfix.Runnable.Model.{Time}
use breakfix.Runnable.Reap.{
  ReapRecord, Queue, is_eligible, eligible_at, take_lease, claim, claim_loop, is_blank,
}

-- No visited key has an eligible record.
abbrev pub NoneEligible : Time → List Text → Queue → Type 0
NoneEligible now order q =
    (key : Text) (r : ReapRecord)
    → Among key order
    → lookup key q ≡ some r
    → is_eligible now r ≡ false

not_eligible :
    (now : Time) (o : Option ReapRecord) (r : ReapRecord)
    → eligible_at now o ≡ none
    → o ≡ some r
    → is_eligible now r ≡ false
unfolding eligible_at
not_eligible now none r h e = ground arith
not_eligible now (some r') r h e = ground arith

claim_loop_total :
    (owner : Text) (ttl : ℕ) (now : Time) (order : List Text) (q : Queue)
    → ((t : ReapRecord) × (q' : Queue) × (claim_loop owner ttl now order q ≡ (some t, q')))
      ⊎ ((claim_loop owner ttl now order q ≡ (none, q)) × NoneEligible now order q)
unfolding claim_loop
claim_loop_total owner ttl now [] q = inr (refl, λ key r a. absurd a)
claim_loop_total owner ttl now (key ∷ order) q =
    elim (Option-cases (eligible_at now (lookup key q))) [
      | inr (r, hit) ↦
          inl (take_lease owner ttl now r, insert key (take_lease owner ttl now r) q, ground arith)
      | inl miss ↦ elim (claim_loop_total owner ttl now order q) [
        | inl (t, q', e) ↦ inl (t, q', ground arith)
        | inr (e, rest) ↦ inr (
          ground arith,
          λ k r. elim [
            | inl at ↦ λ found. not_eligible now (lookup key q) r miss (rw at found)
            | inr a ↦ rest k r a
          ],
        )
      ]
    ]

-- A claim with a lease time above zero, a time that is set and an owner that is not blank grants a
-- record, unless none of the keys that it visits has an eligible one, and then it answers nil and
-- leaves the queue alone.
pub claim_total :
    (owner : Text) (ttl : ℕ) (now : Time) (order : List Text) (q : Queue)
    → is_blank owner ≡ false
    → 0 < ttl
    → 0 < now
    → ((t : ReapRecord) × (q' : Queue) × (claim owner (pos ttl) now order q ≡ (ok (some t), q')))
      ⊎ ((claim owner (pos ttl) now order q ≡ (ok none, q)) × NoneEligible now order q)
unfolding claim
claim_total owner ttl now order q o t n = elim (claim_loop_total owner ttl now order q) [
  | inl (r, q', e) ↦ inl (r, q', ground arith)
  | inr (e, rest) ↦ inr (ground arith, rest)
]
