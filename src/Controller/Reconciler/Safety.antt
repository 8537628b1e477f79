-- ===== src/Controller/Reconciler/Safety.antt =====
-- internal/controller/runtimeenvironment/reconciler.go: the phases that `Reconcile` writes, when an
-- environment is released, and the deletion of a blank environment.
use breakfix.Prelude.{false, ◌≡◌, ◌≢◌, arith, inl, inr, All}
use breakfix.Controller.Environment.{EnvironmentPhase, RuntimeEnvironment}
use breakfix.Controller.State.Phases.{Leads}
use breakfix.Controller.Reconciler.{Services, Write}
use breakfix.Controller.Reconciler.Apply.{reconcile}
use breakfix.Controller.Reconciler.Allowed.{Reaped, Sound}
use breakfix.Controller.Reconciler.Release.{reconcile-AllSound}
use breakfix.Prelude.{All-map}

-- A status is written in a phase that the table of transitions leads to.
abbrev pub FollowsTable : RuntimeEnvironment → Write → Type 0
FollowsTable e (Write.status_patch e') = Leads e.status.phase e'.status.phase
FollowsTable e (Write.metadata_patch e') = Unit
FollowsTable e Write.delete_call = Unit

module _ (s : Services) where
  -- Every status that a reconciliation writes has a phase that the table of transitions leads to from
  -- the phase that the environment had.
  pub written_phases_follow : (e : RuntimeEnvironment) → All (FollowsTable e) (reconcile s e).1
  written_phases_follow e = All-map follows (reconcile s e).1 (reconcile-AllSound s e)
    where
      follows : (w : Write) → Sound s e w → FollowsTable e w
      follows (Write.status_patch e') h = h.0
      follows (Write.metadata_patch e') h = tt
      follows Write.delete_call h = tt

  -- A write that gives the environment up comes after a successful reap.
  abbrev pub GivesUp : RuntimeEnvironment → Write → Type 0
  GivesUp e (Write.status_patch e') = (e'.status.phase ≡ EnvironmentPhase.released) → Reaped s e
  GivesUp e (Write.metadata_patch e') = (e'.has_finalizer ≡ false) → Reaped s e
  GivesUp e Write.delete_call = Reaped s e

  -- An environment that is not yet released is written as released, is asked to be deleted, and loses
  -- its finalizer only when the reap record of its binding, under the plan that it resolves to, reports
  -- success.
  pub released_after_reap :
      (e : RuntimeEnvironment)
      → e.status.phase ≢ EnvironmentPhase.released
      → All (GivesUp e) (reconcile s e).1
  released_after_reap e n = All-map gives_up (reconcile s e).1 (reconcile-AllSound s e)
    where
      gives_up : (w : Write) → Sound s e w → GivesUp e w
      gives_up (Write.status_patch e') h =
          λ at. elim (h.1 at) [ inl was ↦ absurd (n was) | inr r ↦ r ]
      gives_up (Write.metadata_patch e') h =
          λ lost. elim h [ inl kept ↦ absurd (ground arith) | inr r ↦ r ]
      gives_up Write.delete_call h = h
