-- ===== src/Controller/Reaper/Gone.antt =====
-- internal/controller/runtimeenvironment/reaper.go: when a round has torn an environment down.
use breakfix.Prelude.{Bool, true, false, ◌≡◌, ◌↔◌, ◌||◌, refl, arith}
use breakfix.Text.{Text}
use breakfix.Errors.{Error, ok, err, Check, is_resource_absent}
use breakfix.Runnable.Model.{Time}
use breakfix.Runnable.Reap.{EnvironmentBinding, ReapState, ReapRecord, finish}
use breakfix.Controller.Reaper.{ReapProvider, Answer, absent, after_stop, tear_down}

-- The provider has no resources left: its stop finds none, or it has stopped, and its release has
-- removed them or finds none.
pub data Gone (provider : ReapProvider) (binding : EnvironmentBinding) : Type 0 where
  nothing_to_stop :
      {stopped : Bool} {e : Error}
      → provider.stop binding ≡ (stopped, err e)
      → is_resource_absent e ≡ true
      → Gone provider binding
  removed :
      {e : Check}
      → provider.stop binding ≡ (true, ok tt)
      → provider.release binding ≡ (true, e)
      → Gone provider binding
  nothing_to_release :
      {done : Bool} {e : Error}
      → provider.stop binding ≡ (true, ok tt)
      → provider.release binding ≡ (done, err e)
      → is_resource_absent e ≡ true
      → Gone provider binding

module _ (provider : ReapProvider) (binding : EnvironmentBinding) where
  release-Gone :
      (a : Answer)
      → provider.stop binding ≡ (true, ok tt)
      → provider.release binding ≡ a
      → (a.0 || absent a.1) ≡ true
      → Gone provider binding
  release-Gone (true, e) s r h = removed s r
  release-Gone (false, ok t) s r h = absurd (ground arith)
  release-Gone (false, err e) s r h = nothing_to_release s r h

  stop-Gone :
      (a : Answer)
      → provider.stop binding ≡ a
      → (after_stop provider binding a).0 ≡ true
      → Gone provider binding
  unfolding after_stop
  stop-Gone (stopped, err e) s h = nothing_to_stop s h
  stop-Gone (false, ok t) s h = absurd (ground arith)
  stop-Gone (true, ok t) s h = release-Gone (provider.release binding) s refl h

  -- A round has torn an environment down exactly when nothing is left of it.
  pub tear_down-Gone : ((tear_down provider binding).0 ≡ true) ↔ Gone provider binding
  unfolding after_stop
  tear_down-Gone = (stop-Gone (provider.stop binding) refl, torn)
    where
      torn : Gone provider binding → (tear_down provider binding).0 ≡ true
      torn (nothing_to_stop s a) = rw s a
      torn (removed s r) = rw (s, r) refl
      torn (nothing_to_release {done} s r a) = rw (s, r, a) (ground arith)

pub finish_state :
    (success : Bool) (diagnostic : Text) (now retry_at : Time) (t : ReapRecord)
    → ((success ≡ true) ↔ ((finish success diagnostic now retry_at t).state ≡ ReapState.succeeded))
      × ((success ≡ false) ↔ ((finish success diagnostic now retry_at t).state ≡ ReapState.queued))
unfolding finish
finish_state success diagnostic now retry_at t = ground arith

pub refused : (b : Bool) → (b ≡ false) ↔ ¬ (b ≡ true)
refused b = ground arith

pub finish-request :
    (success : Bool) (diagnostic : Text) (now retry_at : Time) (t : ReapRecord)
    → (finish success diagnostic now retry_at t).request ≡ t.request
unfolding finish
finish-request true diagnostic now retry_at t = refl
finish-request false diagnostic now retry_at t = refl
