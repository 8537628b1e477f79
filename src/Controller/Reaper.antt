-- ===== src/Controller/Reaper.antt =====
-- internal/controller/runtimeenvironment/reaper.go: one round of the reaper on the queue of
-- internal/domain/runnable/reap.go. The provider answers `stop` and `release` with a Boolean and an
-- error; the clock is read three times.
pub mod Gone
pub mod Rounds
use breakfix.Prelude.{
  ℕ, ℤ, pos, negsuc, suc, ◌+◌, ◌-◌, ◌*◌, Bool, true, false, not, ◌&&◌, ◌||◌, List, [], Option, none,
  some, leb_ℤ, if◌then◌else◌, ◌≡◌,
}
use breakfix.Text.{Text, codes}
use breakfix.Errors.{Error, Result, ok, err, Check, is_resource_absent}
use breakfix.Errors.Render.{error_text}
use breakfix.Runnable.Model.{Time}
use breakfix.Runnable.Backoff.{second, retry_backoff}
use breakfix.Runnable.Reap.{
  EnvironmentBinding, ReapRecord, Queue, claim, complete, is_blank, bounded_diagnostic,
}

abbrev pub default_lease_ttl : ℕ
default_lease_ttl = 30 * second

abbrev pub default_retry : ℕ
default_retry = 5 * second

-- A `(bool, error)` of a provider.
abbrev pub Answer : Type 0
Answer = Bool × Check

pub record ReapProvider : Type 0 where
  pub stop : EnvironmentBinding → Answer
  pub release : EnvironmentBinding → Answer

-- The settings of a reaper.
pub record Reaper : Type 0 where
  pub owner : Text
  pub lease_ttl : ℤ
  pub retry : ℤ

-- `if v <= 0 { v = fallback }`
abbrev pub or_default : ℕ → ℤ → ℤ
or_default fallback v = if leb_ℤ v (pos 0) then pos fallback else v

-- errors.Is(err, ErrResourceAbsent)
abbrev pub absent : Check → Bool
absent (ok t) = false
absent (err e) = is_resource_absent e

-- `if err != nil && !success { diagnostic = bounded(err.Error()) }`
unfoldable pub diagnose : Check → (success : Bool) → (diagnostic : Text) → Text
diagnose (ok t) success diagnostic = diagnostic
diagnose (err e) true diagnostic = diagnostic
diagnose (err e) false diagnostic = bounded_diagnostic (error_text e)

-- After `stop`: whether the resources are gone, and the diagnostic.
unfoldable pub after_stop : ReapProvider → EnvironmentBinding → Answer → Bool × Text
unfolding diagnose
after_stop provider binding (stopped, err e) =
    (is_resource_absent e, diagnose (err e) (is_resource_absent e) [])
after_stop provider binding (false, ok t) =
    (false, codes "runtime environment stop is still in progress")
after_stop provider binding (true, ok t) =
    let (done, release_err) = provider.release binding in
    let success = done || absent release_err in (success, diagnose release_err success [])

abbrev pub tear_down : ReapProvider → EnvironmentBinding → Bool × Text
tear_down provider binding = after_stop provider binding (provider.stop binding)

-- now.Add(d)
unfoldable pub add_time : Time → ℤ → Time
add_time t (pos n) = t + n
add_time t (negsuc n) = t - suc n

-- The wait before the next attempt.
unfoldable pub retry_delay : Reaper → (success : Bool) → (attempt : ℕ) → ℤ
retry_delay r true attempt = or_default default_retry r.retry
retry_delay r false attempt = retry_backoff (or_default default_retry r.retry) (pos attempt)

-- The round after a claim. A result of `Complete` that is an error is returned with `true`.
unfoldable pub reap_claimed :
    ReapProvider → Reaper → (done_at retry_from : Time) → ReapRecord → Queue → Answer × Queue
unfolding after_stop retry_delay add_time complete
reap_claimed provider r done_at retry_from t q =
    let (success, diagnostic) = tear_down provider t.request.binding in
    let (answer, q') =
      complete t success diagnostic done_at (add_time retry_from (retry_delay r success t.attempt))
        q in
    ((true, answer), q')

unfoldable pub reap_answer :
    ReapProvider
    → Reaper
    → (done_at retry_from : Time) → Result (Option ReapRecord) × Queue
    → Answer × Queue
unfolding reap_claimed
reap_answer provider r done_at retry_from (ok (some t), q) =
    reap_claimed provider r done_at retry_from t q
reap_answer provider r done_at retry_from (ok none, q) = ((false, ok tt), q)
reap_answer provider r done_at retry_from (err e, q) = ((false, err e), q)

-- `RunOnce`, for a reaper with a queue and a provider.
unfoldable pub run_once :
    ReapProvider
    → Reaper
    → (now done_at retry_from : Time) → (order : List Text) → Queue
    → Answer × Queue
unfolding reap_answer claim
run_once provider r now done_at retry_from order q =
    if is_blank r.owner
    then (
      (false, err (Error.plain "runtime environment reaper requires queue, provider, and owner")),
      q,
    )
    else reap_answer provider r done_at retry_from
        (claim r.owner (or_default default_lease_ttl r.lease_ttl) now order q)
