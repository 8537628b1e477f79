-- ===== src/Worker/Verifier/Approved.antt =====
-- internal/worker/runnable/verifier.go: the actions and assertions of an accepted plan run within their
-- boundaries.
use breakfix.Prelude.{ℤ, pos, negsuc, pos_part, ◌*◌, Bool, true, false, ◌≤ℤ◌, ◌≡◌, refl, arith}
use breakfix.Text.Laws.{text_eq_self}
use breakfix.Runnable.Kinds.{Permission, is_read_write, is_read_only}
use breakfix.Runnable.Model.{
  TargetLocation, ExecutionBoundary, RuntimeProfile, ActionSpec, AssertionSpec, EnvironmentIdentity,
  max_action_timeout_seconds,
}
use breakfix.Runnable.Profile.{target_eq}
use breakfix.Runnable.Profile.Approved.{IsProfile, IsApproved, find_boundary-All}
use breakfix.Runnable.Backoff.{second, wrap64}
use breakfix.Runnable.Plan.{boundary_fits}
use breakfix.Runnable.Plan.Actions.{SafeAction, SafeAssertion}
use breakfix.Runnable.Action.{LeaseCredential}
use breakfix.Worker.Verifier.{
  Executor, ExecutionRequest, seconds_of, within_boundary, retain, execute,
}
use breakfix.Worker.Verifier.Actions.{
  action_outcome, action_in, execute_action, assertion_outcome, assertion_in, execute_assertion,
}

fits :
    (permitted : Permission → Bool) (t : TargetLocation) (b : ExecutionBoundary)
    → b.target ≡ t
    → permitted b.permission ≡ true
    → boundary_fits permitted t b ≡ true
unfolding boundary_fits target_eq
fits permitted t b h p = rw (h, text_eq_self t.kind, text_eq_self t.id) p

writes : (p : Permission) → is_read_write p ≡ true → is_read_only p ≡ false
unfolding is_read_write is_read_only
writes p h = ground arith

exact :
    (t : ℤ)
    → pos 1 ≤ℤ t
    → t ≤ℤ pos max_action_timeout_seconds
    → seconds_of t ≡ pos (pos_part t * second)
unfolding seconds_of wrap64
exact (pos n) p h = ground arith
exact (negsuc n) p h = ground arith

module _ {W : Type 0} (x : Executor W) where
  -- Neither product of a second wraps for a timeout within an approved boundary.
  within :
      (t : ℤ) (q : ExecutionRequest)
      → pos 1 ≤ℤ t
      → t ≤ℤ q.boundary.max_timeout
      → q.timeout ≡ pos (pos_part t * second)
      → IsApproved q.boundary
      → is_read_only q.boundary.permission ≡ q.read_only
      → within_boundary x q ≡ true
  unfolding within_boundary
  within t q p h at b r = rw (exact q.boundary.max_timeout b.positive b.limited, at) (ground arith)

  -- An action that the plan's check accepts, of a profile that passed its check, is given to the
  -- provider, in the boundary of the profile that it selects, with its own target and timeout, the
  -- timeout exactly in nanoseconds, and for writing; no test of the executor stops it before.
  pub safe_action_runs :
      (c : LeaseCredential) (environment : EnvironmentIdentity) (profile : RuntimeProfile)
      (a : ActionSpec) (w : W)
      → IsProfile profile
      → (safe : SafeAction profile a)
      → let (output, w') = retain x c (
          x.run environment
            (record {
              entrypoint = a.entrypoint;
              target = a.target;
              boundary = safe.permits.boundary;
              timeout = pos (pos_part a.timeout_seconds * second);
              read_only = false;
            })
            w) in
        execute_action x c environment profile a w ≡ (action_outcome x a output, w')
  unfolding execute_action action_in execute
  safe_action_runs c environment profile a w approved safe =
      let p = safe.permits in
      let fit : boundary_fits is_read_write a.target p.boundary ≡ true =
        fits is_read_write a.target p.boundary p.target_same p.permission in
      rw
        (
          p.found,
          fit,
          exact a.timeout_seconds p.positive p.limited,
          within a.timeout_seconds
              (record {
                entrypoint = a.entrypoint;
                target = a.target;
                boundary = p.boundary;
                timeout = pos (pos_part a.timeout_seconds * second);
                read_only = false;
              })
              p.positive p.within refl
              (find_boundary-All IsApproved profile.execution_boundaries a.boundary_id
                approved.approved p.found).0
              (writes p.boundary.permission p.permission),
        )
        refl

  -- An assertion that the plan's check accepts, of a profile that passed its check, is given to the
  -- provider, in the boundary of the profile that it selects, with its own target and timeout, the
  -- timeout exactly in nanoseconds, and only for reading; no test of the executor stops it before.
  pub safe_assertion_runs :
      (c : LeaseCredential) (environment : EnvironmentIdentity) (profile : RuntimeProfile)
      (a : AssertionSpec) (w : W)
      → IsProfile profile
      → (safe : SafeAssertion profile a)
      → let (output, w') = retain x c (
          x.run environment
            (record {
              entrypoint = a.entrypoint;
              target = a.target;
              boundary = safe.permits.boundary;
              timeout = pos (pos_part a.timeout_seconds * second);
              read_only = true;
            })
            w) in
        execute_assertion x c environment profile a w ≡ (assertion_outcome x a output, w')
  unfolding execute_assertion assertion_in execute
  safe_assertion_runs c environment profile a w approved safe =
      let p = safe.permits in
      let fit : boundary_fits is_read_only a.target p.boundary ≡ true =
        fits is_read_only a.target p.boundary p.target_same p.permission in
      rw
        (
          p.found,
          fit,
          exact a.timeout_seconds p.positive p.limited,
          within a.timeout_seconds
              (record {
                entrypoint = a.entrypoint;
                target = a.target;
                boundary = p.boundary;
                timeout = pos (pos_part a.timeout_seconds * second);
                read_only = true;
              })
              p.positive p.within refl
              (find_boundary-All IsApproved profile.execution_boundaries a.boundary_id
                approved.approved p.found).0
              p.permission,
        )
        refl
