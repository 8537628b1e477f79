-- ===== src/Runnable/Kinds.antt =====
-- The string types of internal/domain/runnable/model.go, action.go and reap.go with their `Valid`
-- methods. `other` stands for a string that is none of the named constants.
use breakfix.Prelude.{Bool, true, false}
use breakfix.Text.{Text, text_eq, codes}

pub data Runtime : Type 0 where
  node k8s : Runtime
  other : Text → Runtime

pub data Permission : Type 0 where
  read_only read_write : Permission
  other : Text → Permission

pub data NetworkScope : Type 0 where
  network_none isolated private : NetworkScope
  other : Text → NetworkScope

pub data PhaseExecution : Type 0 where
  sequential parallel : PhaseExecution
  other : Text → PhaseExecution

pub data FailureClass : Type 0 where
  artifact infrastructure : FailureClass
  other : Text → FailureClass

pub data ActionPhase : Type 0 where
  materialize_artifact verify : ActionPhase
  other : Text → ActionPhase

pub data EnvironmentPurpose : Type 0 where
  learning verification : EnvironmentPurpose
  other : Text → EnvironmentPurpose

unfoldable pub runtime_valid : Runtime → Bool
runtime_valid (Runtime.other s) = false
runtime_valid r = true

unfoldable pub permission_valid : Permission → Bool
permission_valid (Permission.other s) = false
permission_valid p = true

unfoldable pub network_valid : NetworkScope → Bool
network_valid (NetworkScope.other s) = false
network_valid n = true

unfoldable pub execution_valid : PhaseExecution → Bool
execution_valid (PhaseExecution.other s) = false
execution_valid p = true

unfoldable pub class_valid : FailureClass → Bool
class_valid (FailureClass.other s) = false
class_valid f = true

unfoldable pub phase_valid : ActionPhase → Bool
phase_valid (ActionPhase.other s) = false
phase_valid p = true

unfoldable pub purpose_valid : EnvironmentPurpose → Bool
purpose_valid (EnvironmentPurpose.other s) = false
purpose_valid p = true

-- a == b on runtimes
unfoldable pub runtime_eq : Runtime → Runtime → Bool
runtime_eq Runtime.node Runtime.node = true
runtime_eq Runtime.k8s Runtime.k8s = true
runtime_eq (Runtime.other s) (Runtime.other t) = text_eq s t
runtime_eq _ _ = false

-- p == PermissionReadWrite
unfoldable pub is_read_write : Permission → Bool
is_read_write Permission.read_write = true
is_read_write _ = false

-- p == PermissionReadOnly
unfoldable pub is_read_only : Permission → Bool
is_read_only Permission.read_only = true
is_read_only _ = false

-- f == FailureArtifact
unfoldable pub is_artifact : FailureClass → Bool
is_artifact FailureClass.artifact = true
is_artifact _ = false

-- f == FailureInfrastructure
unfoldable pub is_infrastructure : FailureClass → Bool
is_infrastructure FailureClass.infrastructure = true
is_infrastructure _ = false

-- p == ActionMaterializeArtifact
unfoldable pub is_materialize : ActionPhase → Bool
is_materialize ActionPhase.materialize_artifact = true
is_materialize _ = false

-- p == ActionVerify
unfoldable pub is_verify : ActionPhase → Bool
is_verify ActionPhase.verify = true
is_verify _ = false

-- The text of a value, as the conversion `string(v)` gives it.
unfoldable pub runtime_text : Runtime → Text
runtime_text Runtime.node = codes "node"
runtime_text Runtime.k8s = codes "k8s"
runtime_text (Runtime.other s) = s

unfoldable pub permission_text : Permission → Text
permission_text Permission.read_only = codes "read-only"
permission_text Permission.read_write = codes "read-write"
permission_text (Permission.other s) = s

unfoldable pub network_text : NetworkScope → Text
network_text NetworkScope.network_none = codes "none"
network_text NetworkScope.isolated = codes "isolated"
network_text NetworkScope.private = codes "private"
network_text (NetworkScope.other s) = s

unfoldable pub execution_text : PhaseExecution → Text
execution_text PhaseExecution.sequential = codes "sequential"
execution_text PhaseExecution.parallel = codes "parallel"
execution_text (PhaseExecution.other s) = s

unfoldable pub class_text : FailureClass → Text
class_text FailureClass.artifact = codes "artifact"
class_text FailureClass.infrastructure = codes "infrastructure"
class_text (FailureClass.other s) = s

unfoldable pub phase_text : ActionPhase → Text
phase_text ActionPhase.materialize_artifact = codes "materialize-artifact"
phase_text ActionPhase.verify = codes "verify"
phase_text (ActionPhase.other s) = s
