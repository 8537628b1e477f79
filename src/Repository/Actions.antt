-- ===== src/Repository/Actions.antt =====
-- internal/adapter/postgres/runnable_repository.go: the queue of actions. A claim is given the keys
-- that other transactions hold, which SKIP LOCKED leaves out.
use breakfix.Prelude.{
  ℕ, ℤ, pos, pos_part, ◌+◌, ◌*◌, Bool, not, ◌&&◌, ◌||◌, List, [], ◌∷◌, Option, none, some, ltb, leb,
  ◌==◌, if◌then◌else◌,
}
use breakfix.Text.{Text, codes}
use breakfix.Text.Trim.{trim_space}
use breakfix.Text.Dict.{lookup, insert}
use breakfix.Errors.{Error, Result, ok, err, reject, is_ok, ◌>>=◌, ◌>>◌}
use breakfix.Runnable.Kinds.{ActionPhase, FailureClass, class_valid, is_infrastructure}
use breakfix.Runnable.Model.{Time}
use breakfix.Runnable.Profile.{is_positive}
use breakfix.Runnable.Backoff.{second, retry_backoff}
use breakfix.Runnable.Reap.{is_blank, bounded_diagnostic}
use breakfix.Runnable.Action.{
  LeaseCredential, RevisionReference, ActionContext, action_key, validate_credential,
  validate_context,
}
use breakfix.Repository.{
  ActionState, ActionRow, Tables, Backend, row_queued, row_running, lease_over, held_row,
  revision_of,
}

abbrev pub max_attempts : ℕ
max_attempts = 8

-- runnableActionRetryBase
abbrev pub retry_base : ℕ
retry_base = 5 * second

abbrev pub no_reference : RevisionReference
no_reference = record { id = []; digest = [] }

-- The row that a claim leaves.
unfoldable pub claimed_row : (owner : Text) (ttl : ℕ) → Time → ActionRow → ActionRow
claimed_row owner ttl now r = record r {
  state = ActionState.running;
  attempt = r.attempt + 1;
  lease_owner = owner;
  lease_expires = some (now + ttl);
  updated_at = now;
}

-- The WHERE clause of a claim.
unfoldable pub is_due : Time → ActionRow → Bool
is_due now r =
    (row_queued r.state && leb r.next_run_at now)
    || (row_running r.state && lease_over now r.lease_expires)

-- ORDER BY next_run_at, created_at, action_key
unfoldable pub comes_first : (Text → Text → Bool) → Text × ActionRow → Text × ActionRow → Bool
comes_first collate (k, r) (j, s) =
    ltb r.next_run_at s.next_run_at
    || (r.next_run_at == s.next_run_at
        && (ltb r.created_at s.created_at || (r.created_at == s.created_at && collate k j)))

unfoldable pub sooner :
    (Text → Text → Bool) → Text × ActionRow → Option (Text × ActionRow) → Option (Text × ActionRow)
unfolding comes_first
sooner collate e none = some e
sooner collate e (some f) = if comes_first collate e f then some e else some f

-- The row that the SELECT of a claim finds.
unfoldable pub first_due :
    (Text → Text → Bool)
    → Time
    → (locked : Text → Bool) → List (Text × ActionRow)
    → Option (Text × ActionRow)
unfolding is_due sooner
first_due collate now locked [] = none
first_due collate now locked ((k, r) ∷ rest) =
    let later = first_due collate now locked rest in
    if is_due now r && not (locked k) then sooner collate (k, r) later else later

-- The row once the report of a failure is written.
unfoldable pub failed_row : FailureClass → (code summary : Text) → Time → ActionRow → ActionRow
failed_row class code summary now r =
    let again = is_infrastructure class && ltb r.attempt max_attempts in
    let exhausted = is_infrastructure class && leb max_attempts r.attempt in
    record r {
      state = if again then ActionState.queued else ActionState.failed;
      lease_owner = [];
      lease_expires = none;
      next_run_at =
          if again then now + pos_part (retry_backoff (pos retry_base) (pos (r.attempt))) else now;
      failure_class = some class;
      failure_code = if exhausted then codes "attempts-exhausted" else trim_space code;
      failure_summary = bounded_diagnostic summary;
      updated_at = now;
    }

-- COALESCE(runnable_revision_digest, '')
unfoldable pub coalesce : Option Text → Text
coalesce none = []
coalesce (some digest) = digest

-- UPDATE runnable_actions ... WHERE action_key = key
unfoldable pub write_row : (key : Text) → ActionRow → Tables → Tables
write_row key r t = record t { actions = insert key r t.actions }

module _ (b : Backend) where
  -- The value of `runnableActionContextTx` before its check, on the phase.
  unfoldable pub context_at :
      Tables → (owner : Text) → ActionRow → ActionPhase → Result ActionContext
  context_at t owner r ActionPhase.materialize_artifact =
      elim (lookup r.identity.spec_digest t.specs) [
        | none ↦
            err
              (Error.wrapped "load runnable action spec" (Error.plain "sql: no rows in result set"))
        | some row ↦ ok (record {
          credential = record { identity = r.identity; lease_owner = owner };
          attempt = pos (r.attempt);
          spec = some (row.spec);
          revision = none;
          revision_ref = no_reference;
          digest = [];
        })
      ]
  context_at t owner r ActionPhase.verify =
      elim (revision_of (coalesce r.revision_digest) t.revisions) [
        | none ↦ err (
            Error.wrapped "load runnable action revision"
              (Error.plain "sql: no rows in result set"))
        | some row ↦ ok (record {
          credential = record { identity = r.identity; lease_owner = owner };
          attempt = pos (r.attempt);
          spec = none;
          revision = some (row.revision);
          revision_ref = record { id = row.id; digest = coalesce r.revision_digest };
          digest = coalesce r.revision_digest;
        })
      ]
  context_at t owner r (ActionPhase.other s) =
      err (Error.plain "stored runnable action has an unsupported phase")

  -- `runnableActionContextTx`
  unfoldable pub context_of : Tables → (owner : Text) → ActionRow → Result ActionContext
  unfolding context_at
  context_of t owner r = do
    value ← context_at t owner r r.identity.phase
    validate_context b.codec value
    ok value

  -- `ClaimRunnableAction`; nil is `none`.
  unfoldable pub claim_action :
      (owner : Text) (ttl : ℤ)
      → Time
      → (locked : Text → Bool) → Tables
      → Result (Option ActionContext × Tables)
  unfolding first_due claimed_row context_of write_row
  claim_action owner ttl now locked t = do
    reject (is_blank owner || (not (is_positive ttl) || now == 0))
        (Error.plain "runnable action claim is invalid")
    elim (first_due b.collate now locked t.actions) [
      | none ↦ ok (none, t)
      | some e ↦ do
        value ← context_of t owner (claimed_row owner (pos_part ttl) now e.1)
        ok (some value, write_row e.0 (claimed_row owner (pos_part ttl) now e.1) t)
    ]

  -- `RenewRunnableAction`
  unfoldable pub renew : LeaseCredential → (ttl : ℤ) → Time → Tables → Result Tables
  unfolding write_row
  renew c ttl now t = do
    reject (not (is_ok (validate_credential c)) || (not (is_positive ttl) || now == 0))
        Error.action_lease_lost
    elim (held_row c now t) [
      | none ↦ err Error.action_lease_lost
      | some r ↦ ok (
          write_row (action_key c.identity)
            (record r { lease_expires = some (now + pos_part ttl); updated_at = now }) t)
    ]

  -- `ReportRunnableActionFailure`
  unfoldable pub report_action_failure :
      LeaseCredential → FailureClass → (code summary : Text) → Time → Tables → Result Tables
  unfolding failed_row write_row
  report_action_failure c class code summary now t = do
    reject
        (not (is_ok (validate_credential c))
          || (not (class_valid class) || (is_blank code || (is_blank summary || now == 0))))
        (Error.plain "runnable action failure is invalid")
    elim (held_row c now t) [
      | none ↦ err Error.action_lease_lost
      | some r ↦ ok (write_row (action_key c.identity) (failed_row class code summary now r) t)
    ]
