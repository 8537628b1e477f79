-- ===== src/Repository/Records.antt =====
-- internal/adapter/postgres/runnable_repository.go: the immutable records. Specs, sources, revisions,
-- reports and outputs are stored once and never changed.
use breakfix.Prelude.{
  ℕ, Bool, not, ◌&&◌, ◌||◌, List, ◌∷◌, ◌++◌, Option, none, some, ltb, length, ◌==◌, ◌*◌,
}
use breakfix.Text.{Text, text_eq}
use breakfix.Text.Dict.{lookup, insert}
use breakfix.Errors.{Error, Result, ok, err, Check, reject, map_err, is_ok, ◌>>=◌, ◌>>◌}
use breakfix.Runnable.Kinds.{is_materialize}
use breakfix.Runnable.Model.{
  RunnableSpec, RunnableRevision, SourceArchive, ImmutableReference, Time,
}
use breakfix.Runnable.Ident.{valid_digest, digest_prefix}
use breakfix.Runnable.Profile.{validate_source}
use breakfix.Runnable.Plan.{eq_ℤ}
use breakfix.Runnable.Spec.{Codec, spec_digest, revision_digest}
use breakfix.Runnable.Outcome.{contract_error}
use breakfix.Runnable.Reap.{is_blank}
use breakfix.Runnable.Action.{
  LeaseCredential, StoredRevision, validate_credential, validate_stored_revision,
}
use breakfix.Repository.{SpecRow, RevisionRow, Tables, held_row, revision_of, revision_with}

abbrev pub max_source_archive_bytes : ℕ
max_source_archive_bytes = 64 * 1024 * 1024

-- a == b on references of outputs
unfoldable pub same_reference : ImmutableReference → ImmutableReference → Bool
same_reference a b =
    text_eq a.reference b.reference && (text_eq a.digest b.digest && eq_ℤ a.size_bytes b.size_bytes)

module _ (codec : Codec) where
  -- `runnableArchiveDigest`
  unfoldable pub archive_digest : Text → Text
  archive_digest archive = digest_prefix ++ codec.sha256_hex archive

  -- `insertRunnableSpecTx`: ON CONFLICT (spec_digest) DO NOTHING
  unfoldable pub insert_spec : RunnableSpec → Time → Tables → Result (Text × Tables)
  insert_spec spec now t = do
    digest ← spec_digest codec spec
    elim (lookup digest t.specs) [
      | some old ↦ ok (digest, t)
      | none ↦ ok (
        digest,
        record t { specs = insert digest (record { spec = spec; created_at = now }) t.specs },
      )
    ]

  -- `StoreRunnableSpec`
  unfoldable pub store_spec : RunnableSpec → Time → Tables → Result (Text × Tables)
  unfolding insert_spec
  store_spec spec now t = do
    reject (now == 0) (Error.plain "store runnable spec requires a creation time")
    insert_spec spec now t

  -- `StoreRunnableSource`
  unfoldable pub store_source : SourceArchive → (archive : Text) → Time → Tables → Result Tables
  unfolding archive_digest
  store_source source archive now t = do
    reject
        (not (is_ok (validate_source source))
          || (now == 0 || (length archive == 0 || ltb max_source_archive_bytes (length archive))))
        (Error.plain "store runnable source is invalid")
    reject (not (text_eq (archive_digest archive) source.digest))
        (contract_error "source-archive-digest" "source archive does not match its declared digest")
    elim (lookup source.digest t.sources) [
      | none ↦ ok (record t { sources = insert source.digest archive t.sources })
      | some stored ↦ do
        reject (not (text_eq (archive_digest stored) source.digest))
            (Error.plain "stored runnable source digest does not match its value")
        ok t
    ]

  -- `requireRunnableSource`
  unfoldable pub require_source : (digest : Text) → Tables → Check
  require_source digest t = elim (lookup digest t.sources) [
    | none ↦ err (Error.plain "runnable source archive not found")
    | some archive ↦ ok tt
  ]

  -- The archive of the spec of the action that is held.
  unfoldable pub source_of_spec : Option SpecRow → Tables → Result Text
  unfolding archive_digest
  source_of_spec none t = err Error.action_lease_lost
  source_of_spec (some row) t = elim (lookup row.spec.source.digest t.sources) [
    | none ↦ err (Error.plain "runnable source archive not found")
    | some archive ↦ do
      reject (not (text_eq (archive_digest archive) row.spec.source.digest))
          (Error.plain "stored runnable source digest does not match its value")
      ok archive
  ]

  -- `ReadRunnableActionSource`
  unfoldable pub read_source : LeaseCredential → Time → Tables → Result Text
  unfolding source_of_spec
  read_source c now t = do
    reject
        (not (is_ok (validate_credential c)) || (not (is_materialize c.identity.phase) || now == 0))
        Error.action_lease_lost
    elim (held_row c now t) [
      | none ↦ err Error.action_lease_lost
      | some row ↦ source_of_spec (lookup row.identity.spec_digest t.specs) t
    ]

  -- The row that is stored for a revision.
  unfoldable pub revision_row : StoredRevision → (spec_digest : Text) → RevisionRow
  revision_row value d = record {
    id = value.reference.id;
    digest = value.reference.digest;
    spec_digest = d;
    revision = value.revision;
    created_at = value.created_at;
  }

  -- The insertion that StoreRunnableRevision and CompleteRunnableMaterialization share: a row with
  -- the digest serves, whatever its identifier is.
  unfoldable pub insert_revision :
      StoredRevision → (spec_digest : Text) → List RevisionRow → Result (List RevisionRow)
  unfolding revision_row
  insert_revision value d rows = elim (revision_of value.reference.digest rows) [
    | some existing ↦ ok rows
    | none ↦ elim (revision_with value.reference.id rows) [
      | none ↦ ok (revision_row value d ∷ rows)
      | some existing ↦ do
        reject (not (text_eq existing.digest value.reference.digest))
            (Error.plain "runnable revision id is already bound to another digest")
        ok rows
    ]
  ]

  -- `StoreRunnableRevision`
  unfoldable pub store_revision : StoredRevision → Tables → Result Tables
  unfolding insert_spec insert_revision
  store_revision value t = do
    validate_stored_revision codec value
    stored ← insert_spec value.revision.spec value.created_at t
    rows ← insert_revision value stored.0 stored.1.revisions
    ok (record stored.1 { revisions = rows })

  -- The row of a revision with the identifier and the digest, and the check of its digest.
  unfoldable pub resolved : (id digest : Text) → Option RevisionRow → Result RunnableRevision
  resolved id digest none = err (Error.plain "runnable revision not found")
  resolved id digest (some row) = do
    reject (not (text_eq row.id id)) (Error.plain "runnable revision not found")
    computed ←
        map_err (Error.wrapped "validate stored runnable revision")
          (revision_digest codec row.revision)
    reject (not (text_eq computed digest))
        (Error.plain "stored runnable revision digest does not match its value")
    ok row.revision

  -- `ResolveRunnableRevision`; the digests of the rows are distinct.
  unfoldable pub resolve_revision : (id digest : Text) → Tables → Result RunnableRevision
  unfolding resolved
  resolve_revision id digest t = do
    reject (is_blank id || not (valid_digest digest))
        (Error.plain "runnable revision reference is invalid")
    resolved id digest (revision_of digest t.revisions)
