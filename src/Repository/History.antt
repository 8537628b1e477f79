-- ===== src/Repository/History.antt =====
-- internal/adapter/postgres/runnable_repository.go: the tables over any sequence of calls that the
-- Server makes for coordinators and workers, in any order.
use breakfix.Prelude.{ℤ, Bool, Option, ◌≡◌, []}
use breakfix.Text.{Text}
use breakfix.Errors.{ok}
use breakfix.Runnable.Kinds.{FailureClass}
use breakfix.Runnable.Model.{RunnableSpec, SourceArchive, ImmutableReference, Time}
use breakfix.Runnable.Output.{OutputCapture}
use breakfix.Runnable.Action.{
  ActionIdentity, LeaseCredential, RevisionReference, ActionContext, StoredRevision, StoredReport,
}
use breakfix.Repository.{Tables, Backend}
use breakfix.Repository.Records.{store_spec, store_source, store_revision}
use breakfix.Repository.Actions.{claim_action, renew, report_action_failure}
use breakfix.Repository.Scheduling.{schedule_materialization, schedule_verification}
use breakfix.Repository.Outputs.{store_output}
use breakfix.Repository.Completions.{complete_materialization, complete_verification}
use breakfix.Repository.Resolve.{store_report}
use breakfix.Repository.Valid.{IsTables}
use breakfix.Repository.Changes.{Moves}
use breakfix.Repository.Kept.{Moves-IsTables}
use breakfix.Repository.Steps.{claim-Moves, renew-Moves, report-Moves}
use breakfix.Repository.Schedules.{SpecsApart, materialization-Moves}
use breakfix.Repository.Rechecks.{verification-Moves}
use breakfix.Repository.Finishes.{complete_materialization-Moves, complete_verification-Moves}
use breakfix.Repository.Stores.{
  store_revision-Moves, store_spec-Moves, store_source-Moves, store_report-Moves,
  store_output-Moves,
}

abbrev pub no_tables : Tables
no_tables = record {
  specs = [];
  sources = [];
  revisions = [];
  reports = [];
  outputs = [];
  actions = [];
}

module _ (b : Backend) where
  -- One call that changes the tables; a call that returns an error changes nothing, except that the
  -- schedule of a materialization may have stored its spec.
  pub data Step (t : Tables) : Tables → Type 0 where
    schedules_build :
        (spec : RunnableSpec) (version : ℤ) (now : Time)
        → Step t (schedule_materialization b spec version now t).1
    schedules_check :
        (reference : RevisionReference) (version : ℤ) (now : Time) (made : ActionIdentity × Tables)
        → schedule_verification b reference version now t ≡ ok made
        → Step t made.1
    claims :
        (owner : Text) (ttl : ℤ) (now : Time) (locked : Text → Bool)
        (made : Option ActionContext × Tables)
        → claim_action b owner ttl now locked t ≡ ok made
        → Step t made.1
    renews :
        (c : LeaseCredential) (ttl : ℤ) (now : Time) {t' : Tables}
        → renew b c ttl now t ≡ ok t'
        → Step t t'
    reports :
        (c : LeaseCredential) (class : FailureClass) (code summary : Text) (now : Time)
        {t' : Tables}
        → report_action_failure b c class code summary now t ≡ ok t'
        → Step t t'
    builds :
        (c : LeaseCredential) (value : StoredRevision) (now : Time) {t' : Tables}
        → complete_materialization b c value now t ≡ ok t'
        → Step t t'
    checks :
        (c : LeaseCredential) (value : StoredReport) (now : Time) {t' : Tables}
        → complete_verification b c value now t ≡ ok t'
        → Step t t'
    stores_output :
        (c : LeaseCredential) (capture : OutputCapture) (now : Time)
        (made : ImmutableReference × Tables)
        → store_output b c capture now t ≡ ok made
        → Step t made.1
    stores_spec :
        (spec : RunnableSpec) (now : Time) (made : Text × Tables)
        → store_spec b.codec spec now t ≡ ok made
        → Step t made.1
    stores_source :
        (source : SourceArchive) (archive : Text) (now : Time) {t' : Tables}
        → store_source b.codec source archive now t ≡ ok t'
        → Step t t'
    stores_revision :
        (value : StoredRevision) {t' : Tables} → store_revision b.codec value t ≡ ok t' → Step t t'
    stores_report :
        (value : StoredReport) {t' : Tables} → store_report b value t ≡ ok t' → Step t t'

  pub data Reach (t : Tables) : Tables → Type 0 where
    here : Reach t t
    next : {u v : Tables} → Reach t u → Step u v → Reach t v

module _ {b : Backend} (apart : SpecsApart b.codec) where
  pub Step-Moves : {t t' : Tables} → IsTables b.codec t → Step b t t' → Moves b.codec t t'
  Step-Moves {t} v (schedules_build spec version now) =
      materialization-Moves b apart spec version now t v
  Step-Moves {t} v (schedules_check reference version now made h) =
      verification-Moves b reference version now t made h
  Step-Moves {t} v (claims owner ttl now locked made h) =
      claim-Moves b owner ttl now locked t made v h
  Step-Moves {t} {t'} v (renews c ttl now h) = renew-Moves b c ttl now t t' h
  Step-Moves {t} {t'} v (reports c class code summary now h) =
      report-Moves b c class code summary now t t' h
  Step-Moves {t} {t'} v (builds c value now h) = complete_materialization-Moves b c value now t t' h
  Step-Moves {t} {t'} v (checks c value now h) = complete_verification-Moves b c value now t t' h
  Step-Moves {t} v (stores_output c capture now made h) =
      store_output-Moves b c capture now t made h
  Step-Moves {t} v (stores_spec spec now made h) = store_spec-Moves b spec now t made h
  Step-Moves {t} {t'} v (stores_source source archive now h) =
      store_source-Moves b source archive now t t' h
  Step-Moves {t} {t'} v (stores_revision value h) = store_revision-Moves b value t t' h
  Step-Moves {t} {t'} v (stores_report value h) = store_report-Moves b value t t' h

  pub Reach-IsTables : {t t' : Tables} → IsTables b.codec t → Reach b t t' → IsTables b.codec t'
  Reach-IsTables v here = v
  Reach-IsTables v (next r s) =
      let u = Reach-IsTables v r in Moves-IsTables b.codec u (Step-Moves u s)

no_tables-IsTables : (b : Backend) → IsTables b.codec no_tables
no_tables-IsTables b = record {
  specs = tt;
  revisions = tt;
  distinct = tt;
  distinct_ids = tt;
  one_row = tt;
  actions = tt;
}

module _ (b : Backend) (apart : SpecsApart b.codec) where
  -- The tables that any sequence of calls makes of empty ones: every spec and every revision stands
  -- under its digest, and no two revisions have one digest or one identifier; an action has one row,
  -- which stands under its key, and passes its check; it holds a lease exactly when it runs, with an
  -- owner that is not blank and at least one attempt; it waits only below eight attempts, and has
  -- given up for the world's fault only from there on, with the code attempts-exhausted; exactly the
  -- completed ones have a completion time; what it works on is stored: for a materialization a spec
  -- of its content, and a revision exactly once it is completed; for a verification a revision of its
  -- spec and its content. Two specs with one digest are taken to be for the same content.
  pub reached-IsTables : (t : Tables) → Reach b no_tables t → IsTables b.codec t
  reached-IsTables t r = Reach-IsTables apart (no_tables-IsTables b) r
