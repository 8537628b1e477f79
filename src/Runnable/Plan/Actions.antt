-- ===== src/Runnable/Plan/Actions.antt =====
-- internal/domain/runnable/validate.go: what a check that passed guarantees of an action and of an
-- assertion.
use breakfix.Prelude.{
  ℤ, pos, ◌+◌, ◌<◌, ◌≤◌, ◌≤ℤ◌, Bool, true, false, not, ◌||◌, List, [], ◌∷◌, ◌≡◌, arith, Option,
  none, some, ltb, ◌==◌, length, inl, inr, Option-cases, pos_part, neg_part,
}
use breakfix.Text.{Text}
use breakfix.Errors.{Field, Error, ok, reject, >>-eq-ok, >>=-eq-ok, reject-eq-ok, reject-not}
use breakfix.Runnable.Kinds.{Permission, is_read_write, is_read_only}
use breakfix.Runnable.Model.{
  TargetLocation, ExecutionBoundary, RuntimeProfile, ActionSpec, AssertionSpec,
  max_action_timeout_seconds,
}
use breakfix.Runnable.Profile.{find_boundary, validate_target}
use breakfix.Runnable.Ident.{validate_id}
use breakfix.Runnable.Profile.Approved.{target_eq_sound}
use breakfix.Runnable.Plan.{
  select_boundary, boundary_fits, timeout_ok, exit_codes_ok, is_sorted, validate_action,
  validate_assertion, entrypoint_ok, validate_entrypoint,
}

-- A boundary of the profile that permits an execution at the target, for at most the timeout.
pub record Permits (permitted : Permission → Bool) (profile : RuntimeProfile) (id : Text)
    (target : TargetLocation) (timeout : ℤ) : Type 0 where
  pub boundary : ExecutionBoundary
  pub found : find_boundary profile.execution_boundaries id ≡ some boundary
  pub target_same : boundary.target ≡ target
  pub permission : permitted boundary.permission ≡ true
  pub positive : pos 1 ≤ℤ timeout
  pub within : timeout ≤ℤ boundary.max_timeout
  pub limited : timeout ≤ℤ pos max_action_timeout_seconds

-- Exit codes between 0 and 255, each above the one before.
abbrev pub Ascending : Option ℤ → List ℤ → Type 0
Ascending previous [] = Unit
Ascending none (v ∷ rest) = (pos 0 ≤ℤ v) × (v ≤ℤ pos 255) × Ascending (some v) rest
Ascending (some p) (v ∷ rest) =
    (pos_part p + neg_part v < pos_part v + neg_part p) × (v ≤ℤ pos 255) × Ascending (some v) rest

pub record SafeAction (profile : RuntimeProfile) (a : ActionSpec) : Type 0 where
  pub entrypoint : entrypoint_ok a.entrypoint ≡ true
  pub permits : Permits is_read_write profile a.boundary_id a.target a.timeout_seconds
  pub some_code : 0 < length a.expected_exit_codes
  pub few_codes : length a.expected_exit_codes ≤ 16
  pub codes : Ascending none a.expected_exit_codes

pub record SafeAssertion (profile : RuntimeProfile) (a : AssertionSpec) : Type 0 where
  pub entrypoint : entrypoint_ok a.entrypoint ≡ true
  pub permits : Permits is_read_only profile a.boundary_id a.target a.timeout_seconds

select_boundary_sound :
    (permitted : Permission → Bool) (profile : RuntimeProfile) (id : Text) (target : TargetLocation)
    (e : Error) {b : ExecutionBoundary}
    → select_boundary permitted profile id target e ≡ ok b
    → (find_boundary profile.execution_boundaries id ≡ some b)
      × (b.target ≡ target)
      × (permitted b.permission ≡ true)
unfolding select_boundary
select_boundary_sound permitted profile id target e {b} h =
    elim (Option-cases (find_boundary profile.execution_boundaries id)) [
      | inl missing ↦ absurd (ground arith)
      | inr (c, found) ↦
          let fits : boundary_fits permitted target c ≡ true = ground arith in
          let same : c ≡ b = ground arith in
          rw (← same) (
            found,
            target_eq_sound c.target target (unfold boundary_fits in ground arith),
            unfold boundary_fits in ground arith,
          )
    ]

timeout_ok-sound :
    (t : ℤ) (b : ExecutionBoundary)
    → timeout_ok t b ≡ true
    → (pos 1 ≤ℤ t) × (t ≤ℤ b.max_timeout) × (t ≤ℤ pos max_action_timeout_seconds)
unfolding timeout_ok
timeout_ok-sound t b h = ground arith

ascends :
    (p v : ℤ) (rest : List ℤ)
    → is_sorted (p ∷ v ∷ rest) ≡ true
    → exit_codes_ok (some p) (v ∷ rest) ≡ true
    → (pos_part p + neg_part v < pos_part v + neg_part p)
      × (v ≤ℤ pos 255)
      × (is_sorted (v ∷ rest) ≡ true)
      × (exit_codes_ok (some v) rest ≡ true)
unfolding is_sorted exit_codes_ok
ascends p v rest s h = ground arith

ascending_after :
    (p : ℤ) (rest : List ℤ)
    → is_sorted (p ∷ rest) ≡ true
    → exit_codes_ok (some p) rest ≡ true
    → Ascending (some p) rest
ascending_after p [] s h = tt
ascending_after p (v ∷ rest) s h =
    let (up, low, s', h') = ascends p v rest s h in (up, low, ascending_after v rest s' h')

codes_ascending :
    (cs : List ℤ) → is_sorted cs ≡ true → exit_codes_ok none cs ≡ true → Ascending none cs
codes_ascending [] s h = tt
codes_ascending (v ∷ rest) s h = (
  unfold exit_codes_ok in ground arith,
  unfold exit_codes_ok in ground arith,
  ascending_after v rest s (unfold exit_codes_ok in ground arith),
)

Permits-of :
    (permitted : Permission → Bool) (profile : RuntimeProfile) (id : Text) (target : TargetLocation)
    (timeout : ℤ) (e : Error) (b : ExecutionBoundary)
    → select_boundary permitted profile id target e ≡ ok b
    → timeout_ok timeout b ≡ true
    → Permits permitted profile id target timeout
Permits-of permitted profile id target timeout e b h t =
    let (found, same, allowed) = select_boundary_sound permitted profile id target e h in
    let (positive, within, limited) = timeout_ok-sound timeout b t in
    record {
      boundary = b;
      found = found;
      target_same = same;
      permission = allowed;
      positive = positive;
      within = within;
      limited = limited;
    }

entrypoint-ok_of :
    (v : Text) (field : Field) → validate_entrypoint v field ≡ ok tt → entrypoint_ok v ≡ true
unfolding validate_entrypoint
entrypoint-ok_of v field h = reject-not (entrypoint_ok v) _ h

codes_of :
    (cs : List ℤ)
    → (length cs == 0 || (ltb 16 (length cs) || not (is_sorted cs))) ≡ false
    → (0 < length cs) × (length cs ≤ 16) × (is_sorted cs ≡ true)
codes_of cs h = ground arith

pub validate_action-SafeAction :
    (profile : RuntimeProfile) (field : Field) (a : ActionSpec)
    → validate_action profile field a ≡ ok tt
    → SafeAction profile a
unfolding validate_action
validate_action-SafeAction profile field a h =
    let (_, h1) = >>-eq-ok (validate_id a.id (Field.sub field "id")) _ h in
    let (en, h2) =
      >>-eq-ok (validate_entrypoint a.entrypoint (Field.sub field "entrypoint")) _ h1 in
    let (_, h3) = >>-eq-ok (validate_target a.target (Field.sub field "target")) _ h2 in
    let (b, sel, h4) =
      >>=-eq-ok (select_boundary is_read_write profile a.boundary_id a.target _) _ h3 in
    let (t, h5) = >>-eq-ok (reject (not (timeout_ok a.timeout_seconds b)) _) _ h4 in
    let (n, h6) =
      >>-eq-ok
        (reject
          (length a.expected_exit_codes == 0
            || (ltb 16 (length a.expected_exit_codes) || not (is_sorted a.expected_exit_codes)))
          _)
        _ h5 in
    let (positive, few, sorted) = codes_of a.expected_exit_codes (reject-eq-ok _ _ n) in
    record {
      entrypoint = entrypoint-ok_of a.entrypoint _ en;
      permits =
          Permits-of is_read_write profile a.boundary_id a.target a.timeout_seconds _ b sel
            (reject-not (timeout_ok a.timeout_seconds b) _ t);
      some_code = positive;
      few_codes = few;
      codes =
          codes_ascending a.expected_exit_codes sorted
            (reject-not (exit_codes_ok none a.expected_exit_codes) _ h6);
    }

pub validate_assertion-SafeAssertion :
    (profile : RuntimeProfile) (field : Field) (a : AssertionSpec)
    → validate_assertion profile field a ≡ ok tt
    → SafeAssertion profile a
unfolding validate_assertion
validate_assertion-SafeAssertion profile field a h =
    let (_, h1) = >>-eq-ok (validate_id a.id (Field.sub field "id")) _ h in
    let (en, h2) =
      >>-eq-ok (validate_entrypoint a.entrypoint (Field.sub field "entrypoint")) _ h1 in
    let (_, h3) = >>-eq-ok (validate_target a.target (Field.sub field "target")) _ h2 in
    let (b, sel, t) =
      >>=-eq-ok (select_boundary is_read_only profile a.boundary_id a.target _) _ h3 in
    record {
      entrypoint = entrypoint-ok_of a.entrypoint _ en;
      permits =
          Permits-of is_read_only profile a.boundary_id a.target a.timeout_seconds _ b sel
            (reject-not (timeout_ok a.timeout_seconds b) _ t);
    }
