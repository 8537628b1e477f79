-- ===== src/Controller/Reconciler/Reap.antt =====
-- internal/controller/runtimeenvironment/reconciler.go: the handoff to the reaper and the release.
use breakfix.Prelude.{pos, Bool, true, false, not, [], ◌∷◌, some, if◌then◌else◌}
use breakfix.Text.{Text}
use breakfix.Errors.{ok, err}
use breakfix.Runnable.Reap.{ReapState, EnvironmentBinding, ReapRequest, binding_digest, reap_key}
use breakfix.Controller.Environment.{EnvironmentPhase, EnvironmentOperation, RuntimeEnvironment}
use breakfix.Controller.Reconciler.{
  is_set, Services, Write, Outcome, requeue, finished, Resolution, resolve_plan,
  environment_binding, write_status, enter,
}

module _ (s : Services) where
  unfoldable pub reap_request : Text → EnvironmentBinding → ReapRequest
  reap_request digest b = record {
    namespace = b.namespace;
    name = b.name;
    uid = b.uid;
    revision = digest;
    binding = b;
  }

  abbrev pub is_succeeded : ReapState → Bool
  is_succeeded ReapState.succeeded = true
  is_succeeded _ = false

  -- What follows once the reap record reports success.
  unfoldable pub release : RuntimeEnvironment → Outcome
  release e =
      if is_set e.deletion_timestamp
      then (let e' = record e { has_finalizer = false } in
          elim (s.patch e') [
            | ok t ↦ (ok (pos 0), Write.metadata_patch e' ∷ [])
            | err x ↦ (err x, [])
          ])
      else write_status s
          (λ t. record (enter s EnvironmentPhase.released EnvironmentOperation.operation_none t) {
            released_at = some s.now;
          })
          e
          (λ e'. elim (s.delete e') [
            | ok t ↦ (ok (pos 0), Write.delete_call ∷ [])
            | err x ↦ (err x, [])
          ])

  -- `reconcileReap` after the digest.
  unfoldable pub reap_with : ReapRequest → RuntimeEnvironment → Outcome
  reap_with request e = elim (s.enqueue request) [
    | err x ↦ requeue 5
    | ok t ↦ elim (s.get (reap_key request)) [
      | err x ↦ requeue 5
      | ok r ↦ if is_succeeded r.state then release e else requeue 2
    ]
  ]

  -- `reconcileReap`
  unfoldable pub reconcile_reap : EnvironmentBinding → RuntimeEnvironment → Outcome
  reconcile_reap b e = elim (binding_digest s.codec b) [
    | err x ↦ (err x, [])
    | ok digest ↦ reap_with (reap_request digest b) e
  ]

  -- `reconcileDeletion`
  unfoldable pub reconcile_deletion : RuntimeEnvironment → Outcome
  reconcile_deletion e = if not e.has_finalizer then finished else elim (resolve_plan s e) [
    | Resolution.resolved p ↦ reconcile_reap (environment_binding s e p) e
    | Resolution.not_installed x ↦ (err x, [])
    | Resolution.unavailable x ↦ (err x, [])
  ]
