-- ===== src/Examples/Runners.antt =====
-- The runner of a worker on the action that Examples/Tables claims.
use breakfix.Prelude.{◌*◌, ◌^◌, min, ◌≡◌, refl, ◌∷◌, [], some, false, pos, arith, List, All}
use breakfix.Text.{Text, codes}
use breakfix.Errors.{ok}
use breakfix.Runnable.Model.{format_version}
use breakfix.Runnable.Backoff.{second, rounds_of}
use breakfix.Runnable.Action.{MaterializeRequest, StoredRevision, validate_context, record_id}
use breakfix.Worker.Materializer.{Workshop, Providers, materialize_archive, worker_materialize}
use breakfix.Worker.Materializer.Archive.{BuiltFrom, materialize_archive-BuiltFrom}
use breakfix.Worker.Reporting.{runner_retry_delay}
use breakfix.Worker.Runner.{ActionStore, ActionExecutor, Runner, process}
use breakfix.Worker.Runner.Delay.{runner_retry_delay_curve}
use breakfix.Worker.Runner.Sent.{Sent, sent_revision, logged_runner}
use breakfix.Worker.Runner.Accepted.{IsAccepted}
use breakfix.Worker.Runner.Processed.{process-IsAccepted}
use breakfix.Examples.Data.{spec, revision, report, hash, digest}
use breakfix.Examples.Tables.{narrow, backend, context}

abbrev providers : Providers (Unit {0})
providers = record {
  make = λ request w. (ok revision.artifact, w);
  judge = λ request w. (ok report, w);
}

abbrev runner : Runner (Unit {0})
runner = record {
  store = record {
    claim = λ worker ttl w. (ok (some context), w);
    complete_build = λ c value w. (ok tt, w);
    complete_check = λ c value w. (ok tt, w);
    request_release = λ c e w. (ok tt, w);
    report = λ c class code summary w. (ok tt, w);
  };
  executor = record {
    materialize = λ request w. (ok revision, w);
    verify = λ request w. (ok report, w);
  };
  worker_id = codes "w";
  lease_ttl = 45 * second;
  now = λ w. 7;
  lease_lost = λ w. false;
  parent_over = λ w. false;
}

context_valid : validate_context narrow context ≡ ok tt
unfolding breakfix.Text.all breakfix.Text.member breakfix.Runnable.Ident.valid_digest
    breakfix.Runnable.Ident.validate_id breakfix.Runnable.Ident.required_string
    breakfix.Runnable.Ident.validate_format breakfix.Runnable.Kinds.runtime_valid
    breakfix.Runnable.Kinds.permission_valid breakfix.Runnable.Kinds.network_valid
    breakfix.Runnable.Kinds.execution_valid breakfix.Runnable.Kinds.phase_valid
    breakfix.Runnable.Kinds.is_read_write breakfix.Runnable.Kinds.is_read_only
    breakfix.Runnable.Kinds.is_materialize breakfix.Runnable.Profile.validate_identity
    breakfix.Runnable.Profile.identity_eq breakfix.Runnable.Profile.validate_resources
    breakfix.Runnable.Profile.validate_target breakfix.Runnable.Profile.validate_boundary
    breakfix.Runnable.Profile.validate_versions breakfix.Runnable.Profile.validate_boundaries
    breakfix.Runnable.Profile.validate_profile breakfix.Runnable.Profile.validate_source
    breakfix.Runnable.Plan.validate_entrypoint breakfix.Runnable.Plan.select_boundary
    breakfix.Runnable.Plan.timeout_ok breakfix.Runnable.Plan.is_sorted
    breakfix.Runnable.Plan.exit_codes_ok breakfix.Runnable.Plan.validate_action
    breakfix.Runnable.Plan.validate_assertion breakfix.Runnable.Plan.validate_phase_shape
    breakfix.Runnable.Plan.validate_phase breakfix.Runnable.Plan.validate_phases
    breakfix.Runnable.Plan.validate_plan breakfix.Runnable.Plan.validate_lifecycle
    breakfix.Runnable.Unique.each_unique breakfix.Runnable.Spec.validate_initialization
    breakfix.Runnable.Spec.reject_reserved breakfix.Runnable.Spec.validate_spec
    breakfix.Runnable.Spec.digest_bytes breakfix.Runnable.Spec.spec_digest
    breakfix.Runnable.Action.validate_action_identity breakfix.Runnable.Action.validate_credential
    breakfix.Runnable.Action.validate_materialize breakfix.Runnable.Action.validate_context
context_valid = refl

-- The runner sends the revision that the materializer made, and nothing else.
sends_revision :
    process narrow (logged_runner narrow providers runner) context (tt, [])
    ≡ some (
      tt,
      sent_revision context.credential (record {
        reference = record {
          id = record_id narrow (codes "rr") context.credential.identity;
          digest = digest;
        };
        revision = revision;
        created_at = 7;
      })
          ∷ [],
    )
unfolding breakfix.Text.contains breakfix.Text.all breakfix.Text.member
    breakfix.Runnable.Ident.valid_digest breakfix.Runnable.Ident.validate_id
    breakfix.Runnable.Ident.required_string breakfix.Runnable.Ident.validate_format
    breakfix.Runnable.Kinds.runtime_valid breakfix.Runnable.Kinds.permission_valid
    breakfix.Runnable.Kinds.network_valid breakfix.Runnable.Kinds.execution_valid
    breakfix.Runnable.Kinds.phase_valid breakfix.Runnable.Kinds.runtime_eq
    breakfix.Runnable.Kinds.is_read_write breakfix.Runnable.Kinds.is_read_only
    breakfix.Runnable.Kinds.is_materialize breakfix.Runnable.Profile.validate_identity
    breakfix.Runnable.Profile.identity_eq breakfix.Runnable.Profile.validate_resources
    breakfix.Runnable.Profile.validate_target breakfix.Runnable.Profile.validate_boundary
    breakfix.Runnable.Profile.validate_versions breakfix.Runnable.Profile.validate_boundaries
    breakfix.Runnable.Profile.validate_profile breakfix.Runnable.Profile.validate_source
    breakfix.Runnable.Plan.validate_entrypoint breakfix.Runnable.Plan.select_boundary
    breakfix.Runnable.Plan.timeout_ok breakfix.Runnable.Plan.is_sorted
    breakfix.Runnable.Plan.exit_codes_ok breakfix.Runnable.Plan.validate_action
    breakfix.Runnable.Plan.validate_assertion breakfix.Runnable.Plan.validate_phase_shape
    breakfix.Runnable.Plan.validate_phase breakfix.Runnable.Plan.validate_phases
    breakfix.Runnable.Plan.validate_plan breakfix.Runnable.Plan.validate_lifecycle
    breakfix.Runnable.Unique.each_unique breakfix.Runnable.Spec.validate_initialization
    breakfix.Runnable.Spec.reject_reserved breakfix.Runnable.Spec.validate_spec
    breakfix.Runnable.Spec.validate_artifact breakfix.Runnable.Spec.digest_bytes
    breakfix.Runnable.Spec.spec_digest breakfix.Runnable.Spec.validate_revision
    breakfix.Runnable.Spec.revision_digest breakfix.Runnable.Action.validate_action_identity
    breakfix.Runnable.Action.validate_credential breakfix.Runnable.Action.validate_materialize
    breakfix.Worker.Materializer.worker_materialize breakfix.Worker.Runner.process_one
    breakfix.Worker.Runner.Sent.logged_runner
sends_revision = refl

process-IsAccepted_example :
    (after : Unit {0} × List Sent) × (process narrow
        (logged_runner narrow providers runner)
        context
        (tt, [])
      ≡ some after)
    × All (IsAccepted backend context) after.1
process-IsAccepted_example =
    process-IsAccepted backend hash providers runner context tt (λ v. omega arith) context_valid

runner_retry_delay_curve_example :
    runner_retry_delay (pos 9) ≡ second * min (2 ^ rounds_of (pos 9)) 60
runner_retry_delay_curve_example = runner_retry_delay_curve (pos 9)

abbrev workshop : Workshop (Unit {0})
workshop = record {
  read_archive = λ c source w. (ok (codes "zip"), w);
  build = λ s archive w. (ok revision.artifact, w);
}

abbrev request : MaterializeRequest
request = record { credential = context.credential; spec = spec }

archive_built : (materialize_archive narrow workshop request tt).0 ≡ ok revision.artifact
unfolding breakfix.Text.contains breakfix.Text.all breakfix.Text.member
    breakfix.Runnable.Ident.valid_digest breakfix.Runnable.Ident.validate_id
    breakfix.Runnable.Ident.required_string breakfix.Runnable.Ident.validate_format
    breakfix.Runnable.Kinds.runtime_valid breakfix.Runnable.Kinds.permission_valid
    breakfix.Runnable.Kinds.network_valid breakfix.Runnable.Kinds.execution_valid
    breakfix.Runnable.Kinds.phase_valid breakfix.Runnable.Kinds.runtime_eq
    breakfix.Runnable.Kinds.is_read_write breakfix.Runnable.Kinds.is_read_only
    breakfix.Runnable.Kinds.is_materialize breakfix.Runnable.Profile.validate_identity
    breakfix.Runnable.Profile.identity_eq breakfix.Runnable.Profile.validate_resources
    breakfix.Runnable.Profile.validate_target breakfix.Runnable.Profile.validate_boundary
    breakfix.Runnable.Profile.validate_versions breakfix.Runnable.Profile.validate_boundaries
    breakfix.Runnable.Profile.validate_profile breakfix.Runnable.Profile.validate_source
    breakfix.Runnable.Plan.validate_entrypoint breakfix.Runnable.Plan.select_boundary
    breakfix.Runnable.Plan.timeout_ok breakfix.Runnable.Plan.is_sorted
    breakfix.Runnable.Plan.exit_codes_ok breakfix.Runnable.Plan.validate_action
    breakfix.Runnable.Plan.validate_assertion breakfix.Runnable.Plan.validate_phase_shape
    breakfix.Runnable.Plan.validate_phase breakfix.Runnable.Plan.validate_phases
    breakfix.Runnable.Plan.validate_plan breakfix.Runnable.Plan.validate_lifecycle
    breakfix.Runnable.Unique.each_unique breakfix.Runnable.Spec.validate_initialization
    breakfix.Runnable.Spec.reject_reserved breakfix.Runnable.Spec.validate_spec
    breakfix.Runnable.Spec.validate_artifact breakfix.Runnable.Spec.digest_bytes
    breakfix.Runnable.Spec.spec_digest breakfix.Runnable.Action.validate_action_identity
    breakfix.Runnable.Action.validate_credential breakfix.Runnable.Action.validate_materialize
    breakfix.Worker.Materializer.materialize_archive
archive_built = refl

materialize_archive-BuiltFrom_example :
    BuiltFrom narrow workshop request tt revision.artifact
    × (worker_materialize narrow
          (record { make = materialize_archive narrow workshop; judge = providers.judge })
          request
          tt
        ≡ (
          ok (record { format = codes format_version; spec = spec; artifact = revision.artifact }),
          (materialize_archive narrow workshop request tt).1,
        ))
materialize_archive-BuiltFrom_example =
    materialize_archive-BuiltFrom narrow workshop providers.judge request tt revision.artifact
      archive_built
