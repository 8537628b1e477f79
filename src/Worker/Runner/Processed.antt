-- ===== src/Worker/Runner/Processed.antt =====
-- internal/worker/runnable/runner.go and worker.go with internal/adapter/postgres/runnable_repository.go:
-- the runner of a worker on a valid action.
use breakfix.Prelude.{
  ℤ, ◌<◌, List, [], some, ◌≡◌, refl, arith, inl, inr, sym, ap, ◌∙◌, All, if◌then◌else◌,
}
use breakfix.Errors.{ok, Check, ok_injective, >>-eq-ok}
use breakfix.Runnable.Kinds.{ActionPhase}
use breakfix.Runnable.Model.{RunnableSpec, RunnableRevision}
use breakfix.Runnable.Ident.Laws.{HexHash}
use breakfix.Runnable.Spec.{Codec, spec_digest}
use breakfix.Runnable.Spec.Binding.{validate_revision-Bound}
use breakfix.Runnable.Action.{ActionContext, validate_credential, validate_context}
use breakfix.Runnable.Action.Context.{validate_context-input}
use breakfix.Repository.{Backend}
use breakfix.Worker.Materializer.{Providers}
use breakfix.Worker.Materializer.Checked.{worker_materialize-eq-ok, worker_verify-eq-ok}
use breakfix.Worker.Reporting.{action_timeout}
use breakfix.Worker.Runner.{
  Runner, process, settle, executed, process_timed, complete_built, complete_judged,
  execute_phase_of, verify_request,
}
use breakfix.Worker.Runner.Sent.{Sent, logged_worker, logged_runner}
use breakfix.Worker.Runner.Delay.{context_timed}
use breakfix.Worker.Runner.Accepted.{IsAccepted}
use breakfix.Worker.Runner.Branches.{at_test, built_accepted, checked_accepted, settled-IsAccepted}

module _ (codec : Codec) {W : Type 0} (r : Runner W) (c : ActionContext) where
  runs_build :
      (p : ActionPhase) (spec : RunnableSpec) (w : W)
      → p ≡ ActionPhase.materialize_artifact
      → c.spec ≡ some spec
      → execute_phase_of codec r c p w
        ≡ some (
            complete_built codec r c
              (r.executor.materialize (record { credential = c.credential; spec = spec }) w))
  unfolding execute_phase_of
  runs_build ActionPhase.materialize_artifact spec w h k = rw k refl
  runs_build ActionPhase.verify spec w h k = absurd (ground arith)
  runs_build (ActionPhase.other s) spec w h k = absurd (ground arith)

  runs_check :
      (p : ActionPhase) (revision : RunnableRevision) (w : W)
      → p ≡ ActionPhase.verify
      → c.revision ≡ some revision
      → execute_phase_of codec r c p w
        ≡ some (
            complete_judged codec r c revision
              (r.executor.verify (verify_request codec r c revision) w))
  unfolding execute_phase_of
  runs_check ActionPhase.materialize_artifact revision w h k = absurd (ground arith)
  runs_check ActionPhase.verify revision w h k = rw k refl
  runs_check (ActionPhase.other s) revision w h k = absurd (ground arith)

  -- An action with a timeout whose execution does not panic is settled, unless the lease was lost.
  process_runs :
      (w : W) (timeout : ℤ) (m : Check × W)
      → action_timeout c c.credential.identity.phase ≡ some (ok timeout)
      → execute_phase_of codec r c c.credential.identity.phase w ≡ some m
      → process codec r c w
        ≡ some (if r.lease_lost m.1 then m.1 else settle codec r c.credential m.0 m.1)
  unfolding process process_timed executed
  process_runs w timeout m h k =
      ap (process_timed codec r c w) h ∙ ap (executed codec r c.credential) k

module _ (b : Backend) (hash : HexHash b.codec.sha256_hex) {W : Type 0} (x : Providers W)
    (r : Runner W) where
  credential_of :
      (c : ActionContext)
      → validate_context b.codec c ≡ ok tt
      → validate_credential c.credential ≡ ok tt
  unfolding validate_context
  credential_of c h = (>>-eq-ok (validate_credential c.credential) _ h).0

  ended :
      (c : ActionContext) (w : W)
      → ((v : W) → 0 < r.now v)
      → validate_context b.codec c ≡ ok tt
      → (m : Check × (W × List Sent))
      → execute_phase_of b.codec (logged_runner b.codec x r) c c.credential.identity.phase (w, [])
        ≡ some m
      → All (IsAccepted b c) m.1.1
      → (after : W × List Sent) × (process b.codec (logged_runner b.codec x r) c (w, [])
          ≡ some after)
        × All (IsAccepted b c) after.1
  ended c w clock h m runs l =
      let (n, _, _, timed) = context_timed b.codec c h in
      (
        (if (logged_runner b.codec x r).lease_lost m.1
            then m.1
            else settle b.codec (logged_runner b.codec x r) c.credential m.0 m.1),
        process_runs b.codec (logged_runner b.codec x r) c (w, []) _ m timed runs,
        at_test (λ (v : W × List Sent). All (IsAccepted b c) v.1)
            ((logged_runner b.codec x r).lease_lost m.1) _ _ (λ _. l)
            (λ _. settled-IsAccepted b hash x r clock c (credential_of c h) m.0 m.1 l),
      )

  -- The runner of a worker, on an action whose context passes its check and with a clock that is set,
  -- comes to an end without a nil pointer, whatever the materializer, the verifier and the store
  -- answer. Every revision that it sends then passes the Server's tests on values, with the credential
  -- of the action, under the record identifier of the action, and is for the spec of the action; every
  -- report does, and is for the revision of the action; every release is under that credential, and
  -- every failure too, with a valid class. The hash is taken to give 64 hexadecimal digits.
  pub process-IsAccepted :
      (c : ActionContext) (w : W)
      → ((v : W) → 0 < r.now v)
      → validate_context b.codec c ≡ ok tt
      → (after : W × List Sent) × (process b.codec (logged_runner b.codec x r) c (w, [])
          ≡ some after)
        × All (IsAccepted b c) after.1
  unfolding logged_runner logged_worker verify_request
  process-IsAccepted c w clock h = elim (validate_context-input b.codec c h) [
    | inl (phase, input) ↦
        let m : Check × (W × List Sent) = complete_built b.codec (logged_runner b.codec x r) c (
          (logged_runner b.codec x r).executor.materialize
            (record { credential = c.credential; spec = input.spec }) (w, [])) in
        ended c w clock h m
          (runs_build b.codec (logged_runner b.codec x r) c c.credential.identity.phase input.spec
            (w, []) phase input.given)
          (built_accepted b hash x r clock c (credential_of c h) _ phase
            (λ revision e.
              let (valid, same) =
                worker_materialize-eq-ok b.codec x
                  (record { credential = c.credential; spec = input.spec }) w revision e in
              (
                valid,
                ap (spec_digest b.codec) same ∙ input.bound,
                input.content ∙ ap (λ s. s.identity) (sym same),
              ))
            tt)
    | inr (phase, input) ↦
        let m : Check × (W × List Sent) =
          complete_judged b.codec (logged_runner b.codec x r) c input.revision (
            (logged_runner b.codec x r).executor.verify
              (verify_request b.codec (logged_runner b.codec x r) c input.revision) (w, [])) in
        ended c w clock h m
          (runs_check b.codec (logged_runner b.codec x r) c c.credential.identity.phase
            input.revision (w, []) phase input.given)
          (checked_accepted b hash x r clock c (credential_of c h) input.revision _ phase
            (λ report e.
              worker_verify-eq-ok b.codec x
                (verify_request b.codec (logged_runner b.codec x r) c input.revision) w report e)
            input.bound
            (ok_injective (
              sym input.spec_bound
              ∙ (validate_revision-Bound b.codec input.revision input.valid).built_from))
            input.content tt)
  ]
