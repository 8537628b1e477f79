-- ===== src/Runnable/Profile.antt =====
-- internal/domain/runnable/validate.go: content identity, resource limits, execution boundaries,
-- the runtime profile and the source archive.
pub mod Approved
use breakfix.Prelude.{
  ℕ, ℤ, pos, negsuc, suc, zero, ◌+◌, ◌<◌, ◌≤◌, ◌≤ℤ◌, Bool, true, false, not, ◌&&◌, ◌||◌, List, [],
  ◌∷◌, ◌≡◌, refl, arith, map, Option, none, some, ltb, leb, ltb_ℤ, leb_ℤ, ◌==◌, length,
  if◌then◌else◌,
}
use breakfix.Text.{Text, codes, text_eq}
use breakfix.Errors.{Field, Error, Result, ok, err, Check, reject, ◌>>=◌, ◌>>◌}
use breakfix.Runnable.Kinds.{
  Runtime, runtime_valid, runtime_text, permission_valid, permission_text, network_valid,
  network_text,
}
use breakfix.Runnable.Model.{
  ContentIdentity, ResourceLimits, TargetLocation, ExecutionBoundary, RuntimeProfile, SourceArchive,
  max_reference_length, max_summary_length, max_id_length, max_actions_per_phase,
  max_action_timeout_seconds,
}
use breakfix.Runnable.Ident.{valid_digest, validate_id, required_string, validate_format}
use breakfix.Runnable.Unique.{each_unique}

-- 0 < value, on an int64
abbrev pub is_positive : ℤ → Bool
is_positive v = ltb_ℤ (pos 0) v

unfoldable pub validate_identity : ContentIdentity → Check
validate_identity v = do
  validate_id v.kind (Field.name "identity.content_kind")
  validate_id v.id (Field.name "identity.content_id")
  required_string v.revision (Field.name "identity.content_revision") max_reference_length

-- v == w
unfoldable pub identity_eq : ContentIdentity → ContentIdentity → Bool
identity_eq v w = text_eq v.kind w.kind && text_eq v.id w.id && text_eq v.revision w.revision

unfoldable pub validate_resources : ResourceLimits → Check
validate_resources r = do
  required_string r.cpu (Field.name "runtime_profile.resources.cpu") 128
  reject
      (not (is_positive r.memory_bytes)
        || (not (is_positive r.ephemeral_bytes)
            || (not (is_positive r.max_processes) || not (is_positive r.max_concurrent_tasks))))
      (Error.invalid (Field.name "runtime_profile.resources") "must contain positive limits")

unfoldable pub validate_target : TargetLocation → Field → Check
validate_target t field = do
  validate_id t.kind (Field.sub field "kind")
  validate_id t.id (Field.sub field "id")

-- t == u
unfoldable pub target_eq : TargetLocation → TargetLocation → Bool
target_eq t u = text_eq t.kind u.kind && text_eq t.id u.id

abbrev boundaries : Field
boundaries = Field.name "runtime_profile.execution_boundaries"

unfoldable pub validate_boundary : ExecutionBoundary → Check
validate_boundary b = do
  validate_id b.id (Field.sub boundaries "id")
  validate_target b.target (Field.sub boundaries "target")
  reject (not (permission_valid b.permission))
      (Error.unsupported (permission_text b.permission) (Field.sub boundaries "permission"))
  reject (not (network_valid b.network))
      (Error.unsupported (network_text b.network) (Field.sub boundaries "network"))
  reject (not (is_positive b.max_timeout) || ltb_ℤ (pos max_action_timeout_seconds) b.max_timeout)
      (Error.invalid (Field.sub boundaries "max_timeout_seconds") "is outside the platform limit")

-- The loop over the map of software versions, in the order of the list.
unfoldable pub validate_versions : List (Text × Text) → Check
validate_versions [] = ok tt
validate_versions ((name, version) ∷ rest) =
    let others = validate_versions rest in
    do
      validate_id name (Field.name "runtime_profile.software_versions key")
      required_string version (Field.name "runtime_profile.software_versions value") max_id_length
      others

unfoldable pub validate_boundaries : List ExecutionBoundary → Result (List Text)
validate_boundaries bs =
    each_unique (λ _ b. validate_boundary b) (λ b. b.id)
      (Error.invalid boundaries "contains duplicate identifiers") 0 [] bs

unfoldable pub validate_profile : RuntimeProfile → Check
validate_profile p = do
  reject (not (runtime_valid p.runtime))
      (Error.unsupported (runtime_text p.runtime) (Field.name "runtime_profile.runtime"))
  required_string p.profile_revision (Field.name "runtime_profile.profile_revision")
      max_reference_length
  required_string p.base_image (Field.name "runtime_profile.base_image") max_reference_length
  reject (not (network_valid p.network))
      (Error.unsupported (network_text p.network) (Field.name "runtime_profile.network"))
  required_string p.topology (Field.name "runtime_profile.topology") max_summary_length
  validate_resources p.resources
  reject (length p.software_versions == 0 || ltb 64 (length p.software_versions)) (
      Error.invalid (Field.name "runtime_profile.software_versions")
        "must contain between one and 64 entries")
  validate_versions p.software_versions
  reject
      (length p.execution_boundaries == 0
        || ltb max_actions_per_phase (length p.execution_boundaries))
      (Error.invalid boundaries "must contain approved targets")
  validate_boundaries p.execution_boundaries >>= λ _. ok tt

unfoldable pub validate_source : SourceArchive → Check
validate_source s = do
  validate_format s.format (Field.name "source.format_version")
  required_string s.reference (Field.name "source.reference") max_reference_length
  reject (not (valid_digest s.digest))
      (Error.invalid (Field.name "source.digest") "must be a sha256 digest")

-- profile.boundary(id): the first boundary with the identifier.
unfoldable pub find_boundary : List ExecutionBoundary → Text → Option ExecutionBoundary
find_boundary [] id = none
find_boundary (b ∷ bs) id = if text_eq b.id id then some b else find_boundary bs id
