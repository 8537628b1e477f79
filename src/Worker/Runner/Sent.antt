-- ===== src/Worker/Runner/Sent.antt =====
-- internal/worker/runnable/runner.go with worker.go: what the runner sends to the Server, as a log that
-- is kept beside the world.
use breakfix.Prelude.{List, ◌∷◌}
use breakfix.Text.{Text}
use breakfix.Runnable.Kinds.{FailureClass}
use breakfix.Runnable.Model.{EnvironmentIdentity}
use breakfix.Runnable.Spec.{Codec}
use breakfix.Runnable.Action.{LeaseCredential, StoredRevision, StoredReport}
use breakfix.Worker.Materializer.{Providers, worker_materialize, worker_verify}
use breakfix.Worker.Runner.{ActionStore, ActionExecutor, Runner}

-- A call of the runner that changes the Server's records.
pub data Sent : Type 0 where
  sent_revision : LeaseCredential → StoredRevision → Sent
  sent_report : LeaseCredential → StoredReport → Sent
  sent_release : LeaseCredential → EnvironmentIdentity → Sent
  sent_failure : LeaseCredential → FailureClass → (code summary : Text) → Sent

module _ {W : Type 0} where
  -- The same store, with each call put in front of the log.
  unfoldable pub logged_store : ActionStore W → ActionStore (W × List Sent)
  logged_store s = record {
    claim = λ worker ttl w. let (a, v) = s.claim worker ttl w.0 in (a, (v, w.1));
    complete_build = λ c value w.
        let (a, v) = s.complete_build c value w.0 in (a, (v, sent_revision c value ∷ w.1));
    complete_check = λ c value w.
        let (a, v) = s.complete_check c value w.0 in (a, (v, sent_report c value ∷ w.1));
    request_release =
        λ c e w. let (a, v) = s.request_release c e w.0 in (a, (v, sent_release c e ∷ w.1));
    report = λ c class code summary w.
        let (a, v) = s.report c class code summary w.0 in
        (a, (v, sent_failure c class code summary ∷ w.1));
  }

  -- `Worker` as the executor, beside the log.
  unfoldable pub logged_worker : Codec → Providers W → ActionExecutor (W × List Sent)
  logged_worker codec x = record {
    materialize = λ request w. let (a, v) = worker_materialize codec x request w.0 in (a, (v, w.1));
    verify = λ request w. let (a, v) = worker_verify codec x request w.0 in (a, (v, w.1));
  }

  -- The runner of a worker, beside the log.
  unfoldable pub logged_runner : Codec → Providers W → Runner W → Runner (W × List Sent)
  unfolding logged_store logged_worker
  logged_runner codec x r = record {
    store = logged_store r.store;
    executor = logged_worker codec x;
    worker_id = r.worker_id;
    lease_ttl = r.lease_ttl;
    now = λ w. r.now w.0;
    lease_lost = λ w. r.lease_lost w.0;
    parent_over = λ w. r.parent_over w.0;
  }
