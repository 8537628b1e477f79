-- ===== src/Examples/Data.antt =====
-- A small valid spec, with its revision and its report, under an encoding that forgets its input and
-- a hash that is constant.
use breakfix.Prelude.{ℕ, zero, suc, pos, true, List, [], ◌∷◌, ◌++◌, none, refl}
use breakfix.Text.{Text, codes}
use breakfix.Errors.{ok}
use breakfix.Runnable.Kinds.{Runtime, Permission, NetworkScope, PhaseExecution}
use breakfix.Runnable.Model.{
  ContentIdentity, ResourceLimits, TargetLocation, ExecutionBoundary, RuntimeProfile, ActionSpec,
  AssertionSpec, ValidationPhase, LifecyclePolicy, RunnableSpec, RunnableRevision, ActionResult,
  PhaseResult, VerificationReport,
}
use breakfix.Runnable.Ident.Laws.{HexHash}
use breakfix.Runnable.Ident.{is_hex}
use breakfix.Runnable.Spec.{Codec, BlankRuntimePlan}

abbrev repeat : ℕ → List ℕ → List ℕ
repeat zero s = []
repeat (suc n) s = s ++ repeat n s

abbrev pub sum : Text
sum = repeat 64 (codes "a")

abbrev pub digest : Text
digest = codes "sha256:" ++ sum

abbrev pub codec : Codec
codec = record {
  marshal_spec = λ s. ok [];
  marshal_profile = λ p. ok [];
  marshal_revision = λ r. ok [];
  marshal_report = λ r. ok [];
  marshal_blank = λ b. ok [];
  sha256_hex = λ t. sum;
}

pub hash : HexHash codec.sha256_hex
unfolding is_hex breakfix.Text.all
hash = record { hex = λ t. refl; size = λ t. refl }

abbrev pub identity : ContentIdentity
identity = record { kind = codes "lab"; id = codes "disk"; revision = codes "1" }

abbrev pub target : TargetLocation
target = record { kind = codes "node"; id = codes "a" }

abbrev resources : ResourceLimits
resources = record {
  cpu = codes "1";
  memory_bytes = pos 1024;
  ephemeral_bytes = pos 1024;
  max_processes = pos 8;
  max_concurrent_tasks = pos 2;
}

abbrev writer : ExecutionBoundary
writer = record {
  id = codes "rw";
  target = target;
  permission = Permission.read_write;
  network = NetworkScope.network_none;
  max_timeout = pos 60;
}

abbrev reader : ExecutionBoundary
reader = record {
  id = codes "ro";
  target = target;
  permission = Permission.read_only;
  network = NetworkScope.network_none;
  max_timeout = pos 60;
}

abbrev pub profile : RuntimeProfile
profile = record {
  runtime = Runtime.k8s;
  profile_revision = codes "1";
  base_image = codes "img";
  software_versions = (codes "os", codes "1") ∷ [];
  resources = resources;
  network = NetworkScope.isolated;
  topology = codes "one";
  execution_boundaries = writer ∷ reader ∷ [];
}

abbrev pub action : Text → ActionSpec
action id = record {
  id = id;
  entrypoint = codes "run.sh";
  target = target;
  boundary_id = codes "rw";
  timeout_seconds = pos 30;
  expected_exit_codes = pos 0 ∷ pos 3 ∷ [];
}

abbrev pub assertion : AssertionSpec
assertion = record {
  id = codes "up";
  entrypoint = codes "up.sh";
  target = target;
  boundary_id = codes "ro";
  timeout_seconds = pos 30;
}

abbrev phase : ValidationPhase
phase = record {
  id = codes "fix";
  timeout_seconds = pos 60;
  execution = PhaseExecution.sequential;
  actions = action (codes "mend") ∷ [];
  assertions = assertion ∷ [];
}

abbrev pub policy : LifecyclePolicy
policy = record {
  create_timeout_seconds = pos 60;
  reset_timeout_seconds = pos 60;
  stop_timeout_seconds = pos 60;
  reap_timeout_seconds = pos 60;
  idle_ttl_seconds = pos 600;
  max_lifetime = pos 3600;
}

abbrev pub spec : RunnableSpec
spec = record {
  format = codes "v1";
  identity = identity;
  runtime_profile = profile;
  source = record { format = codes "v1"; reference = codes "s"; digest = digest };
  initialization = action (codes "setup") ∷ [];
  validation_plan = record { format = codes "v1"; phases = phase ∷ [] };
  lifecycle_policy = policy;
}

abbrev pub revision : RunnableRevision
revision = record {
  format = codes "v1";
  spec = spec;
  artifact = record {
    format = codes "v1";
    runtime = Runtime.k8s;
    provider_reference = codes "r@" ++ digest;
    artifact_digest = digest;
    built_from_spec_digest = digest;
    builder_version = codes "b1";
  };
}

abbrev pub blank : BlankRuntimePlan
blank = record { profile = profile; lifecycle = policy; image = codes "img" }

abbrev done : Text → ActionResult
done id = record { id = id; exit_code = pos 3; summary = codes "ok"; outputs = [] }

abbrev pub results : List PhaseResult
results =
    record { id = codes "initialization"; actions = done (codes "setup") ∷ []; assertions = [] }
    ∷ record {
      id = codes "fix";
      actions = done (codes "mend") ∷ [];
      assertions =
          record {
            id = codes "up";
            satisfied = true;
            summary = codes "ok";
            details = [];
            outputs = [];
          }
          ∷ [];
    }
    ∷ []

abbrev pub report : VerificationReport
report = record {
  format = codes "v1";
  revision_digest = digest;
  environment = record { id = codes "env"; provider = codes "k8s"; profile_digest = digest };
  attempt = pos 1;
  phases = results;
  passed = true;
  failure = none;
  created_at = 1;
}
