-- ===== src/Runnable/Backoff.antt =====
-- internal/domain/runnable/backoff.go. A duration is a number of nanoseconds in an int64; doubling
-- wraps round as an int64 does.
pub mod Curve
use breakfix.Prelude.{
  ℕ, ℤ, pos, negsuc, suc, zero, ◌*◌, ◌+◌, ◌-◌, ◌^◌, ◌%◌, ◌≤◌, ◌<◌, ◌≤ℤ◌, Bool, ◌||◌, ◌≡◌, ◌↔◌, refl,
  arith, ltb, leb, ltb_ℤ, leb_ℤ, if◌then◌else◌, min, pos_part, neg_part,
}

abbrev pub second : ℕ
second = 1_000_000_000

abbrev pub retry_backoff_cap : ℕ
retry_backoff_cap = 5 * 60 * second

-- An integer as an int64.
unfoldable pub wrap64 : ℕ → ℤ
wrap64 n = let low = n % 2 ^ 64 in if ltb low (2 ^ 63) then pos low else negsuc (2 ^ 64 - low - 1)

-- d *= 2
unfoldable pub double : ℤ → ℤ
unfolding wrap64
double (pos n) = wrap64 (2 * n)
double (negsuc n) = wrap64 (2 ^ 65 - 2 * suc n)

-- `for range rounds { delay *= 2; if delay >= cap { return cap } }; return delay`
unfoldable pub backoff_loop : (rounds : ℕ) → ℤ → ℤ
backoff_loop zero delay = delay
backoff_loop (suc rounds) delay =
    let next = double delay in
    let rest = backoff_loop rounds next in
    if leb_ℤ (pos retry_backoff_cap) next then pos retry_backoff_cap else rest

-- attempt - 1, and 0 for an attempt below 1
abbrev pub rounds_of : ℤ → ℕ
rounds_of (pos n) = n - 1
rounds_of (negsuc n) = 0

-- a base that is not positive is replaced by five seconds
abbrev pub base_of : ℤ → ℤ
base_of base = if leb_ℤ base (pos 0) then pos (5 * second) else base

unfoldable pub retry_backoff : (base attempt : ℤ) → ℤ
unfolding backoff_loop double
retry_backoff base attempt = backoff_loop (rounds_of attempt) (base_of base)
