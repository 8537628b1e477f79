-- ===== src/Controller/State/Phases.antt =====
-- internal/controller/runtimeenvironment/state.go: the order of the phases.
use breakfix.Prelude.{ℕ, ◌<◌, ◌≡◌, refl, arith, true, ◌⊎◌, inl}
use breakfix.Text.Laws.{text_eq_iff}
use breakfix.Controller.Environment.{EnvironmentPhase, phase_eq}
use breakfix.Controller.State.{can_transition}

-- The phases that a sequence of allowed transitions leads to.
pub data Leads : EnvironmentPhase → EnvironmentPhase → Type 0 where
  stay : {p : EnvironmentPhase} → Leads p p
  onward : {p q r : EnvironmentPhase} → Leads p q → can_transition q r ≡ true → Leads p r

-- How far a phase is along the lifecycle.
unfoldable pub rank : EnvironmentPhase → ℕ
rank EnvironmentPhase.unset = 0
rank EnvironmentPhase.pending = 0
rank EnvironmentPhase.provisioning = 1
rank EnvironmentPhase.ready = 2
rank EnvironmentPhase.failed = 3
rank EnvironmentPhase.draining = 4
rank EnvironmentPhase.released = 5
rank (EnvironmentPhase.other s) = 6

advances : (p q : EnvironmentPhase) → can_transition p q ≡ true → (p ≡ q) ⊎ (rank p < rank q)
unfolding can_transition phase_eq rank
advances (EnvironmentPhase.other s) (EnvironmentPhase.other t) h = ground (arith, text_eq_iff s t)
advances EnvironmentPhase.unset q h = ground arith
advances EnvironmentPhase.pending q h = ground arith
advances EnvironmentPhase.provisioning q h = ground arith
advances EnvironmentPhase.ready q h = ground arith
advances EnvironmentPhase.failed q h = ground arith
advances EnvironmentPhase.draining q h = ground arith
advances EnvironmentPhase.released q h = ground arith
advances (EnvironmentPhase.other s) q h = ground arith

Leads-rank : {p q : EnvironmentPhase} → Leads p q → (p ≡ q) ⊎ (rank p < rank q)
Leads-rank stay = inl refl
Leads-rank (onward {q} {r} l h) = ground (arith, Leads-rank l, advances q r h)

-- The lifecycle has no cycle: when allowed transitions lead from one phase to another and back, the
-- two are the same.
pub never_returns : {p q : EnvironmentPhase} → Leads p q → Leads q p → p ≡ q
never_returns there back = ground (arith, Leads-rank there, Leads-rank back)

draining_step :
    (q r : EnvironmentPhase)
    → (q ≡ EnvironmentPhase.draining) ⊎ (q ≡ EnvironmentPhase.released)
    → can_transition q r ≡ true
    → (r ≡ EnvironmentPhase.draining) ⊎ (r ≡ EnvironmentPhase.released)
unfolding can_transition phase_eq
draining_step q r h t = ground arith

-- Draining is final: after it an environment only drains or is released.
pub draining_final :
    {q : EnvironmentPhase}
    → Leads EnvironmentPhase.draining q
    → (q ≡ EnvironmentPhase.draining) ⊎ (q ≡ EnvironmentPhase.released)
draining_final stay = inl refl
draining_final (onward {q} {r} l h) = draining_step q r (draining_final l) h
