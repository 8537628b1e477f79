-- ===== src/Examples/Environments.antt =====
-- Environments of the controller.
use breakfix.Prelude.{true, none, some, Option, pos, []}
use breakfix.Text.{Text, codes}
use breakfix.Runnable.Kinds.{EnvironmentPurpose}
use breakfix.Runnable.Model.{Time}
use breakfix.Controller.Environment.{
  EnvironmentPhase, EnvironmentOperation, LeaseSpec, RuntimeEnvironment,
}
use breakfix.Controller.State.{Plan}
use breakfix.Examples.Data.{revision, digest}

abbrev pub lease : LeaseSpec
lease = record { renewed_at = 2; release_at = some 5 }

abbrev pub environment : EnvironmentPhase → Option Time → Option Text → RuntimeEnvironment
environment phase deleted provider = record {
  namespace = codes "n";
  name = codes "e";
  uid = codes "u";
  generation = pos 1;
  creation_timestamp = 1;
  deletion_timestamp = deleted;
  has_finalizer = true;
  reset_nonce_annotation = pos 0;
  reset_adopted_annotation = none;
  spec = record {
    runnable_revision_ref = some (record { id = codes "rev-1"; digest = digest });
    blank_provider = provider;
    purpose = EnvironmentPurpose.learning;
    lease = lease;
    reset_nonce = pos 0;
  };
  status = record {
    phase = phase;
    operation = EnvironmentOperation.operation_none;
    observed_reset_nonce = pos 0;
    observed_generation = pos 1;
    runtime = record { provider = []; profile_digest = []; resource_refs = []; endpoint_refs = [] };
    expires_at = none;
    released_at = none;
    failure = none;
  };
}

abbrev pub plan : Plan
plan = record { revision = revision; blank = none }

abbrev pub draining : RuntimeEnvironment
draining = environment EnvironmentPhase.draining none none

abbrev pub live : RuntimeEnvironment
live = environment EnvironmentPhase.ready none none
