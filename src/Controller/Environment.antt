-- ===== src/Controller/Environment.antt =====
-- api/v2/runtime_environment_types.go: the custom resource that the controller reads and writes.
-- A string type is a data type whose `other` stands for the strings that are no constant of it.
-- Of the finalizers only the controller's own is kept, as a Boolean, and of the annotations the two
-- that it writes, as the values that it reads in them. The conditions and the progress of the status, which the lifecycle does not read, are left out.
use breakfix.Prelude.{ℤ, Bool, true, false, List, Option}
use breakfix.Text.{Text, text_eq}
use breakfix.Runnable.Kinds.{EnvironmentPurpose, FailureClass}
use breakfix.Runnable.Model.{Time}

pub data EnvironmentPhase : Type 0 where
  unset pending provisioning ready draining released failed : EnvironmentPhase
  other : Text → EnvironmentPhase

pub data EnvironmentOperation : Type 0 where
  unset operation_none resetting : EnvironmentOperation
  other : Text → EnvironmentOperation

pub record RunnableRevisionReference : Type 0 where
  pub id : Text
  pub digest : Text

pub record LeaseSpec : Type 0 where
  pub renewed_at : Time
  pub release_at : Option Time

pub record RuntimeEnvironmentSpec : Type 0 where
  pub runnable_revision_ref : Option RunnableRevisionReference
  pub blank_provider : Option Text
  pub purpose : EnvironmentPurpose
  pub lease : LeaseSpec
  pub reset_nonce : ℤ

pub record ResourceReference : Type 0 where
  pub provider : Text
  pub resource_kind : Text
  pub id : Text

pub record EndpointReference : Type 0 where
  pub endpoint_name : Text
  pub reference : Text

pub record RuntimeStatus : Type 0 where
  pub provider : Text
  pub profile_digest : Text
  pub resource_refs : List ResourceReference
  pub endpoint_refs : List EndpointReference

pub record EnvironmentFailure : Type 0 where
  pub class : FailureClass
  pub component : Text
  pub reason : Text
  pub message : Text
  pub at_time : Time

pub record RuntimeEnvironmentStatus : Type 0 where
  pub phase : EnvironmentPhase
  pub operation : EnvironmentOperation
  pub observed_reset_nonce : ℤ
  pub observed_generation : ℤ
  pub runtime : RuntimeStatus
  pub expires_at : Option Time
  pub released_at : Option Time
  pub failure : Option EnvironmentFailure

pub record RuntimeEnvironment : Type 0 where
  pub namespace : Text
  pub name : Text
  pub uid : Text
  pub generation : ℤ
  pub creation_timestamp : Time
  pub deletion_timestamp : Option Time
  pub has_finalizer : Bool
  pub reset_nonce_annotation : ℤ
  pub reset_adopted_annotation : Option Time
  pub spec : RuntimeEnvironmentSpec
  pub status : RuntimeEnvironmentStatus

-- a == b on phases
unfoldable pub phase_eq : EnvironmentPhase → EnvironmentPhase → Bool
phase_eq EnvironmentPhase.unset EnvironmentPhase.unset = true
phase_eq EnvironmentPhase.pending EnvironmentPhase.pending = true
phase_eq EnvironmentPhase.provisioning EnvironmentPhase.provisioning = true
phase_eq EnvironmentPhase.ready EnvironmentPhase.ready = true
phase_eq EnvironmentPhase.draining EnvironmentPhase.draining = true
phase_eq EnvironmentPhase.released EnvironmentPhase.released = true
phase_eq EnvironmentPhase.failed EnvironmentPhase.failed = true
phase_eq (EnvironmentPhase.other s) (EnvironmentPhase.other t) = text_eq s t
phase_eq _ _ = false

-- operation == OperationResetting
unfoldable pub is_resetting : EnvironmentOperation → Bool
is_resetting EnvironmentOperation.resetting = true
is_resetting _ = false

-- An operation that is none of "", "None" and "Resetting".
unfoldable pub is_other_operation : EnvironmentOperation → Bool
is_other_operation (EnvironmentOperation.other s) = true
is_other_operation _ = false
