-- ===== src/Runnable/Outcome/Coverage.antt =====
-- internal/domain/runnable/validate.go: `computePassed` against an independent description of the
-- results that cover a plan.
use breakfix.Prelude.{
  ℕ, suc, Bool, true, false, not, ◌&&◌, ◌||◌, List, [], ◌∷◌, ◌≡◌, ◌↔◌, refl, arith, ◌==◌, length,
  ap, sym, ◌∙◌,
}
use breakfix.Text.{text_eq}
use breakfix.Text.Laws.{text_eq_iff}
use breakfix.Errors.{
  Error, Result, ok, reject, ◌>>=◌, >>-eq-ok, >>=-eq-ok, >>-ok_iff, reject-eq-ok, reject-not,
}
use breakfix.Runnable.Model.{
  ActionSpec, AssertionSpec, ValidationPhase, ActionResult, AssertionResult, PhaseResult,
}
use breakfix.Runnable.Outcome.{
  validate_action_result, validate_assertion_result, has_code, check_action, check_assertion,
  check_actions, check_assertions, check_phase, check_phases, compute_passed,
}

-- A result of the action: its identifier, well formed, with an expected exit code.
abbrev pub Done : ActionSpec → ActionResult → Type 0
Done a r =
    (r.id ≡ a.id)
    × (validate_action_result r ≡ ok tt)
    × (has_code a.expected_exit_codes r.exit_code ≡ true)

-- A result of the assertion: its identifier, well formed.
abbrev pub Observed : AssertionSpec → AssertionResult → Type 0
Observed a r = (r.id ≡ a.id) × (validate_assertion_result r ≡ ok tt)

-- The lists are of the same length, and their members are related one by one.
abbrev pub Pairs : {A B : Type 0} → (A → B → Type 0) → List A → List B → Type 0
Pairs R [] [] = Unit
Pairs R (a ∷ as') (b ∷ bs) = R a b × Pairs R as' bs
Pairs R _ _ = ⊥

abbrev pub CoversPhase : ValidationPhase → PhaseResult → Type 0
CoversPhase e r =
    (r.id ≡ e.id) × Pairs Done e.actions r.actions × Pairs Observed e.assertions r.assertions

-- Every assertion of the phase, and of all the phases, was satisfied.
pub satisfied : List AssertionResult → Bool
satisfied [] = true
satisfied (r ∷ rs) = r.satisfied && satisfied rs

pub all_satisfied : List PhaseResult → Bool
unfolding satisfied
all_satisfied [] = true
all_satisfied (r ∷ rs) = satisfied r.assertions && all_satisfied rs

check_action-Done : (a : ActionSpec) (r : ActionResult) → (check_action a r ≡ ok tt) ↔ Done a r
unfolding check_action
check_action-Done a r = (
  λ h. (ground (arith, text_eq_iff r.id a.id), ground arith, ground arith),
  λ d. ground (arith, text_eq_iff r.id a.id),
)

check_assertion-Observed :
    (a : AssertionSpec) (r : AssertionResult) → (check_assertion a r ≡ ok tt) ↔ Observed a r
unfolding check_assertion
check_assertion-Observed a r = (
  λ h. (ground (arith, text_eq_iff r.id a.id), ground arith),
  λ d. ground (arith, text_eq_iff r.id a.id),
)

check_actions-Pairs :
    (as' : List ActionSpec) (rs : List ActionResult)
    → length rs ≡ length as'
    → (check_actions as' rs ≡ ok tt) ↔ Pairs Done as' rs
unfolding check_actions
check_actions-Pairs [] [] l = (λ _. tt, λ _. refl)
check_actions-Pairs [] (r ∷ rs) l = absurd (omega arith)
check_actions-Pairs (a ∷ as') [] l = absurd (omega arith)
check_actions-Pairs (a ∷ as') (r ∷ rs) l =
    let (fwd, back) = check_actions-Pairs as' rs (omega arith) in
    let (one, eno) = check_action-Done a r in
    (
      λ h. let (x, y) = >>-eq-ok (check_action a r) (check_actions as' rs) h in (one x, fwd y),
      λ (x, y). (>>-ok_iff (check_action a r) (check_actions as' rs)).1 (eno x, back y),
    )

and_assoc : (p q s : Bool) → ((p && q) && s) ≡ (p && (q && s))
and_assoc true q s = refl
and_assoc false q s = refl

check_assertions-Pairs :
    (passed : Bool) (as' : List AssertionSpec) (rs : List AssertionResult) (b : Bool)
    → length rs ≡ length as'
    → (check_assertions passed as' rs ≡ ok b)
      ↔ (Pairs Observed as' rs × (b ≡ (passed && satisfied rs)))
unfolding check_assertions satisfied
check_assertions-Pairs passed [] [] b l = (λ h. (tt, ground arith), λ (_, e). ground arith)
check_assertions-Pairs passed [] (r ∷ rs) b l = absurd (omega arith)
check_assertions-Pairs passed (a ∷ as') [] b l = absurd (omega arith)
check_assertions-Pairs passed (a ∷ as') (r ∷ rs) b l =
    let (fwd, back) = check_assertions-Pairs (passed && r.satisfied) as' rs b (omega arith) in
    let (one, eno) = check_assertion-Observed a r in
    (
      λ h.
          let (x, y) =
            >>-eq-ok (check_assertion a r) (check_assertions (passed && r.satisfied) as' rs) h in
          let (z, e) = fwd y in ((one x, z), e ∙ and_assoc passed r.satisfied (satisfied rs)),
      λ ((x, z), e).
          (>>-ok_iff (check_assertion a r) (check_assertions (passed && r.satisfied) as' rs)).1
            (eno x, back (z, e ∙ sym (and_assoc passed r.satisfied (satisfied rs)))),
    )

Pairs-length :
    {A B : Type 0} (R : A → B → Type 0) (xs : List A) (ys : List B)
    → Pairs R xs ys
    → length ys ≡ length xs
Pairs-length R [] [] p = refl
Pairs-length R [] (y ∷ ys) p = absurd p
Pairs-length R (x ∷ xs) [] p = absurd p
Pairs-length R (x ∷ xs) (y ∷ ys) (p, ps) = ap suc (Pairs-length R xs ys ps)

same_length : (m n k l : ℕ) → (not (m == n) || not (k == l)) ≡ false → (m ≡ n) × (k ≡ l)
same_length m n k l h = ground arith

length_same :
    (m n k l : ℕ) (e : Error) → m ≡ n → k ≡ l → reject (not (m == n) || not (k == l)) e ≡ ok tt
length_same m n k l e p q = ground arith

check_phase-CoversPhase :
    (passed : Bool) (e : ValidationPhase) (r : PhaseResult) (b : Bool)
    → (check_phase passed e r ≡ ok b) ↔ (CoversPhase e r × (b ≡ (passed && satisfied r.assertions)))
unfolding check_phase
check_phase-CoversPhase passed e r b = (
  λ h.
      let (name, h1) = >>-eq-ok (reject (not (text_eq r.id e.id)) _) _ h in
      let (counts, h2) =
        >>-eq-ok
          (reject
            (not (length r.actions == length e.actions)
              || not (length r.assertions == length e.assertions))
            _)
          _ h1 in
      let (acts, h3) = >>-eq-ok (check_actions e.actions r.actions) _ h2 in
      let (same, same') =
        same_length (length r.actions) (length e.actions) (length r.assertions)
          (length e.assertions) (reject-eq-ok _ _ counts) in
      let (observed, verdict) =
        (check_assertions-Pairs passed e.assertions r.assertions b same').0 h3 in
      (
        (
          (text_eq_iff r.id e.id).0 (reject-not (text_eq r.id e.id) _ name),
          (check_actions-Pairs e.actions r.actions same).0 acts,
          observed,
        ),
        verdict,
      ),
  λ ((name, done, observed), verdict).
      let same : length r.actions ≡ length e.actions = Pairs-length Done e.actions r.actions done in
      let same' : length r.assertions ≡ length e.assertions =
        Pairs-length Observed e.assertions r.assertions observed in
      (>>-ok_iff (reject (not (text_eq r.id e.id)) _) _).1 (
        rw ((text_eq_iff r.id e.id).1 name),
        (>>-ok_iff _ _).1 (
          length_same (length r.actions) (length e.actions) (length r.assertions)
              (length e.assertions) _ same same',
          (>>-ok_iff (check_actions e.actions r.actions) _).1 (
            (check_actions-Pairs e.actions r.actions same).1 done,
            (check_assertions-Pairs passed e.assertions r.assertions b same').1 (observed, verdict),
          ),
        ),
      ),
)

>>=-ok_intro :
    {A B : Type 0} (m : Result A) (f : A → Result B) {a : A} {b : B}
    → m ≡ ok a
    → f a ≡ ok b
    → (m >>= f) ≡ ok b
>>=-ok_intro m f p q = rw p q

check_phases-Pairs :
    (passed : Bool) (es : List ValidationPhase) (rs : List PhaseResult) (b : Bool)
    → length rs ≡ length es
    → (check_phases passed es rs ≡ ok b)
      ↔ (Pairs CoversPhase es rs × (b ≡ (passed && all_satisfied rs)))
unfolding check_phases all_satisfied
check_phases-Pairs passed [] [] b l = (λ h. (tt, ground arith), λ (_, e). ground arith)
check_phases-Pairs passed [] (r ∷ rs) b l = absurd (omega arith)
check_phases-Pairs passed (e ∷ es) [] b l = absurd (omega arith)
check_phases-Pairs passed (e ∷ es) (r ∷ rs) b l = (
  λ h.
      let (now, first, rest) = >>=-eq-ok (check_phase passed e r) _ h in
      let (cover, verdict) = (check_phase-CoversPhase passed e r now).0 first in
      let (covers, all) = (check_phases-Pairs now es rs b (omega arith)).0 rest in
      ((cover, covers), regroup now b verdict all),
  λ ((cover, covers), e').
      let now : Bool = passed && satisfied r.assertions in
      >>=-ok_intro (check_phase passed e r) (λ p. check_phases p es rs)
        ((check_phase-CoversPhase passed e r now).1 (cover, refl))
        ((check_phases-Pairs now es rs b (omega arith)).1
          (covers, e' ∙ sym (and_assoc passed (satisfied r.assertions) (all_satisfied rs)))),
)
  where
    regroup :
        (now c : Bool)
        → now ≡ (passed && satisfied r.assertions)
        → c ≡ (now && all_satisfied rs)
        → c ≡ (passed && (satisfied r.assertions && all_satisfied rs))
    regroup now c p q =
        q
        ∙ ap (λ (x : Bool). x && all_satisfied rs) p
        ∙ and_assoc passed (satisfied r.assertions) (all_satisfied rs)

-- `computePassed` answers `b` without an error exactly when the results cover the expected phases one
-- by one, in order (the same identifiers for phase, actions and assertions; every result well formed;
-- every exit code among those expected), and `b` says whether all the assertions were satisfied.
pub compute_passed-Pairs :
    (es : List ValidationPhase) (rs : List PhaseResult) (b : Bool)
    → (compute_passed es rs ≡ ok b) ↔ (Pairs CoversPhase es rs × (b ≡ all_satisfied rs))
unfolding compute_passed
compute_passed-Pairs es rs b = (
  λ h.
      let (count, rest) = >>-eq-ok (reject (not (length rs == length es)) _) _ h in
      (check_phases-Pairs true es rs b
          (same_count (length rs) (length es) (reject-eq-ok _ _ count))).0
        rest,
  λ (covers, e).
      let same : length rs ≡ length es = Pairs-length CoversPhase es rs covers in
      (>>-ok_iff (reject (not (length rs == length es)) _) _).1 (
        count_same (length rs) (length es) _ same,
        (check_phases-Pairs true es rs b same).1 (covers, e),
      ),
)
  where
    same_count : (m n : ℕ) → not (m == n) ≡ false → m ≡ n
    same_count m n h = ground arith

    count_same : (m n : ℕ) (e : Error) → m ≡ n → reject (not (m == n)) e ≡ ok tt
    count_same m n e h = ground arith
