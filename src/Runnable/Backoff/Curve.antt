-- ===== src/Runnable/Backoff/Curve.antt =====
-- internal/domain/runnable/backoff.go: the shape of the delay over the attempts.
use native.Mathlib.Nat.{pow-suc}
use breakfix.Prelude.{
  ℕ, ℤ, pos, suc, zero, ◌*◌, ◌^◌, ◌≤◌, ◌<◌, ◌≡◌, arith, leb, min, ap, ◌∙◌, Bool-cases, inl, inr,
}
use breakfix.Runnable.Backoff.{
  retry_backoff_cap, double, backoff_loop, rounds_of, base_of, retry_backoff,
}

-- Doubling is exact below 2 ^ 62 nanoseconds, some 146 years.
double_exact : (n : ℕ) → n < 2 ^ 62 → double (pos n) ≡ pos (2 * n)
unfolding double
double_exact n h = ground arith

pow-pos : (n : ℕ) → 0 < 2 ^ n
pow-pos zero = omega arith
pow-pos (suc n) = omega (arith, pow-pos n, pow-suc 2 n)

doubled : (b n : ℕ) → b * 2 ^ suc n ≡ 2 * b * 2 ^ n
doubled b n = rw (pow-suc 2 n) (omega arith)

grows : (b n : ℕ) → b ≤ b * 2 ^ n
grows b n = grind (arith, pow-pos n)

backoff_loop_lem :
    (n b : ℕ)
    → 0 < b
    → b ≤ retry_backoff_cap
    → backoff_loop n (pos b) ≡ pos (min (b * 2 ^ n) retry_backoff_cap)
unfolding backoff_loop
backoff_loop_lem zero b p h = ap pos (omega arith)
backoff_loop_lem (suc n) b p h = elim (Bool-cases (leb retry_backoff_cap (2 * b))) [
  | inl capped ↦
      let large : retry_backoff_cap ≤ 2 * b = ground arith in
      let bound : min (b * 2 ^ suc n) retry_backoff_cap ≡ retry_backoff_cap =
        omega (arith, doubled b n, grows (2 * b) n) in
      rw (double_exact b (omega arith), bound) (ground arith)
  | inr below ↦
      let small : 2 * b ≤ retry_backoff_cap = ground arith in
      rw (double_exact b (omega arith), doubled b n)
        (ground (arith, backoff_loop_lem n (2 * b) (omega arith) small))
]

positive_base : (n : ℕ) → 0 < n → base_of (pos n) ≡ pos n
positive_base n q = ground arith

-- A base above zero and within the cap is doubled for each attempt after the first, up to the cap.
pub retry_backoff_curve :
    (b : ℕ) (attempt : ℤ)
    → 0 < b
    → b ≤ retry_backoff_cap
    → retry_backoff (pos b) attempt ≡ pos (min (b * 2 ^ rounds_of attempt) retry_backoff_cap)
unfolding retry_backoff
retry_backoff_curve b attempt p h =
    ap (backoff_loop (rounds_of attempt)) (positive_base b p)
    ∙ backoff_loop_lem (rounds_of attempt) b p h
