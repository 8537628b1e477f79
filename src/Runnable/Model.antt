-- ===== src/Runnable/Model.antt =====
-- internal/domain/runnable/model.go: the limits and the records of the contract.
-- An int64 is an integer of ℤ. A `time.Time` is the number of nanoseconds since Go's zero time, so
-- that 0 is the zero time; instants before it are left out. A Go map is a list of its entries.
use breakfix.Prelude.{ℕ, ℤ, ◌*◌, Bool, List, Option, String}
use breakfix.Text.{Text}
use breakfix.Runnable.Kinds.{Runtime, Permission, NetworkScope, PhaseExecution, FailureClass}

abbrev pub format_version : String
format_version = "v1"

abbrev pub max_id_length : ℕ
max_id_length = 64

abbrev pub max_reference_length : ℕ
max_reference_length = 4096

abbrev pub max_entrypoint_length : ℕ
max_entrypoint_length = 512

abbrev pub max_summary_length : ℕ
max_summary_length = 1024

abbrev pub max_details_length : ℕ
max_details_length = 16 * 1024

abbrev pub max_output_reference_count : ℕ
max_output_reference_count = 32

abbrev pub max_validation_phases : ℕ
max_validation_phases = 32

abbrev pub max_actions_per_phase : ℕ
max_actions_per_phase = 64

abbrev pub max_assertions_per_phase : ℕ
max_assertions_per_phase = 64

abbrev pub max_action_timeout_seconds : ℕ
max_action_timeout_seconds = 60 * 60

abbrev pub max_phase_timeout_seconds : ℕ
max_phase_timeout_seconds = 4 * 60 * 60

abbrev pub max_lifecycle_timeout : ℕ
max_lifecycle_timeout = 4 * 60 * 60

abbrev pub max_lifetime_seconds : ℕ
max_lifetime_seconds = 7 * 24 * 60 * 60

abbrev pub Time : Type 0
Time = ℕ

pub record ContentIdentity : Type 0 where
  pub kind : Text
  pub id : Text
  pub revision : Text

pub record ResourceLimits : Type 0 where
  pub cpu : Text
  pub memory_bytes : ℤ
  pub ephemeral_bytes : ℤ
  pub max_processes : ℤ
  pub max_concurrent_tasks : ℤ

pub record TargetLocation : Type 0 where
  pub kind : Text
  pub id : Text

pub record ExecutionBoundary : Type 0 where
  pub id : Text
  pub target : TargetLocation
  pub permission : Permission
  pub network : NetworkScope
  pub max_timeout : ℤ

pub record RuntimeProfile : Type 0 where
  pub runtime : Runtime
  pub profile_revision : Text
  pub base_image : Text
  pub software_versions : List (Text × Text)
  pub resources : ResourceLimits
  pub network : NetworkScope
  pub topology : Text
  pub execution_boundaries : List ExecutionBoundary

pub record SourceArchive : Type 0 where
  pub format : Text
  pub reference : Text
  pub digest : Text

pub record ActionSpec : Type 0 where
  pub id : Text
  pub entrypoint : Text
  pub target : TargetLocation
  pub boundary_id : Text
  pub timeout_seconds : ℤ
  pub expected_exit_codes : List ℤ

pub record AssertionSpec : Type 0 where
  pub id : Text
  pub entrypoint : Text
  pub target : TargetLocation
  pub boundary_id : Text
  pub timeout_seconds : ℤ

pub record ValidationPhase : Type 0 where
  pub id : Text
  pub timeout_seconds : ℤ
  pub execution : PhaseExecution
  pub actions : List ActionSpec
  pub assertions : List AssertionSpec

pub record ValidationPlan : Type 0 where
  pub format : Text
  pub phases : List ValidationPhase

pub record LifecyclePolicy : Type 0 where
  pub create_timeout_seconds : ℤ
  pub reset_timeout_seconds : ℤ
  pub stop_timeout_seconds : ℤ
  pub reap_timeout_seconds : ℤ
  pub idle_ttl_seconds : ℤ
  pub max_lifetime : ℤ

pub record RunnableSpec : Type 0 where
  pub format : Text
  pub identity : ContentIdentity
  pub runtime_profile : RuntimeProfile
  pub source : SourceArchive
  pub initialization : List ActionSpec
  pub validation_plan : ValidationPlan
  pub lifecycle_policy : LifecyclePolicy

pub record ArtifactReference : Type 0 where
  pub format : Text
  pub runtime : Runtime
  pub provider_reference : Text
  pub artifact_digest : Text
  pub built_from_spec_digest : Text
  pub builder_version : Text

pub record RunnableRevision : Type 0 where
  pub format : Text
  pub spec : RunnableSpec
  pub artifact : ArtifactReference

pub record ImmutableReference : Type 0 where
  pub reference : Text
  pub digest : Text
  pub size_bytes : ℤ

pub record ActionResult : Type 0 where
  pub id : Text
  pub exit_code : ℤ
  pub summary : Text
  pub outputs : List ImmutableReference

pub record AssertionResult : Type 0 where
  pub id : Text
  pub satisfied : Bool
  pub summary : Text
  pub details : Text
  pub outputs : List ImmutableReference

pub record PhaseResult : Type 0 where
  pub id : Text
  pub actions : List ActionResult
  pub assertions : List AssertionResult

pub record EnvironmentIdentity : Type 0 where
  pub id : Text
  pub provider : Text
  pub profile_digest : Text

pub record VerificationFailure : Type 0 where
  pub failure_class : FailureClass
  pub component : Text
  pub reason : Text
  pub message : Text

pub record VerificationReport : Type 0 where
  pub format : Text
  pub revision_digest : Text
  pub environment : EnvironmentIdentity
  pub attempt : ℤ
  pub phases : List PhaseResult
  pub passed : Bool
  pub failure : Option VerificationFailure
  pub created_at : Time
