-- ===== src/Repository/Outputs.antt =====
-- internal/adapter/postgres/runnable_repository.go: the outputs of an execution, and the outputs that
-- a report refers to.
use breakfix.Prelude.{not, ◌||◌, List, [], ◌∷◌, none, some, ◌==◌}
use breakfix.Text.{Text, text_eq, is_empty}
use breakfix.Text.Dict.{lookup, insert}
use breakfix.Errors.{Field, Error, Result, ok, err, Check, reject, map_err, is_ok, ◌>>=◌, ◌>>◌}
use breakfix.Runnable.Kinds.{is_verify}
use breakfix.Runnable.Model.{PhaseResult, ActionResult, AssertionResult, ImmutableReference, Time}
use breakfix.Runnable.Outcome.{validate_reference}
use breakfix.Runnable.Output.{OutputCapture, capture_reference}
use breakfix.Runnable.Action.{LeaseCredential, validate_credential}
use breakfix.Repository.{ActionRow, Tables, Backend, held_row}
use breakfix.Repository.Records.{same_reference}
use breakfix.Repository.Actions.{coalesce}

module _ (b : Backend) where
  -- The capture that is stored is the one of the reference.
  unfoldable pub check_stored :
      ImmutableReference → (encoded : Text) → Result (ImmutableReference × Text) → Check
  check_stored reference encoded (err e) = err (
      Error.plain
        "verification report execution output reference does not match its stored capture")
  check_stored reference encoded (ok (actual, canonical)) =
      reject (not (same_reference actual reference) || not (text_eq encoded canonical)) (
        Error.plain
          "verification report execution output reference does not match its stored capture")

  -- One step of the loop of `validateRunnableExecutionOutputReferencesTx`.
  unfoldable pub check_output : Tables → ImmutableReference → Check
  unfolding check_stored
  check_output t reference = do
    validate_reference (Field.name "verification.output") reference
    elim (lookup reference.digest t.outputs) [
      | none ↦
          err
            (Error.plain "verification report refers to an execution output that was not persisted")
      | some encoded ↦ do
        capture ←
            map_err (Error.wrapped "decode verification execution output") (b.parse_capture encoded)
        check_stored reference encoded
            (capture_reference b.marshal_capture b.codec.sha256_hex capture)
    ]

  -- `validateRunnableExecutionOutputReferencesTx`
  unfoldable pub check_outputs : Tables → List ImmutableReference → Check
  unfolding check_output
  check_outputs t [] = ok tt
  check_outputs t (reference ∷ rest) =
      let others = check_outputs t rest in do check_output t reference; others

  unfoldable pub check_action_outputs : Tables → List ActionResult → Check
  unfolding check_outputs
  check_action_outputs t [] = ok tt
  check_action_outputs t (a ∷ rest) =
      let others = check_action_outputs t rest in do check_outputs t a.outputs; others

  unfoldable pub check_assertion_outputs : Tables → List AssertionResult → Check
  unfolding check_outputs
  check_assertion_outputs t [] = ok tt
  check_assertion_outputs t (a ∷ rest) =
      let others = check_assertion_outputs t rest in do check_outputs t a.outputs; others

  -- `validateRunnableVerificationOutputsTx`
  unfoldable pub check_phase_outputs : Tables → List PhaseResult → Check
  unfolding check_action_outputs check_assertion_outputs
  check_phase_outputs t [] = ok tt
  check_phase_outputs t (phase ∷ rest) =
      let others = check_phase_outputs t rest in
      do check_action_outputs t phase.actions; check_assertion_outputs t phase.assertions; others

  -- The capture of the output under the digest of its encoding.
  unfoldable pub keep_output :
      ImmutableReference × Text → Tables → Result (ImmutableReference × Tables)
  keep_output (reference, encoded) t = elim (lookup reference.digest t.outputs) [
    | none ↦ ok (reference, record t { outputs = insert reference.digest encoded t.outputs })
    | some stored ↦ do
      reject (not (text_eq stored encoded))
          (Error.plain "stored runnable execution output digest does not match its value")
      ok (reference, t)
  ]

  -- The rest of `StoreRunnableExecutionOutput` on the row that is held.
  unfoldable pub keep_held :
      ImmutableReference × Text → Tables → ActionRow → Result (ImmutableReference × Tables)
  unfolding keep_output
  keep_held made t r = do
    reject (is_empty (coalesce r.revision_digest))
        (Error.plain "runnable execution output action has no revision")
    keep_output made t

  -- `StoreRunnableExecutionOutput`
  unfoldable pub store_output :
      LeaseCredential → OutputCapture → Time → Tables → Result (ImmutableReference × Tables)
  unfolding keep_held
  store_output c capture now t = do
    reject (not (is_ok (validate_credential c)) || (not (is_verify c.identity.phase) || now == 0))
        Error.action_lease_lost
    made ← capture_reference b.marshal_capture b.codec.sha256_hex capture
    elim (held_row c now t) [ none ↦ err Error.action_lease_lost | some r ↦ keep_held made t r ]

  -- `ResolveRunnableExecutionOutput`
  unfoldable pub resolve_output : ImmutableReference → Tables → Result OutputCapture
  resolve_output reference t = do
    validate_reference (Field.name "execution_output") reference
    elim (lookup reference.digest t.outputs) [
      | none ↦ err (Error.plain "runnable execution output not found")
      | some encoded ↦ do
        capture ←
            map_err (Error.wrapped "decode runnable execution output") (b.decode_capture encoded)
        made ←
            map_err (Error.wrapped "validate stored runnable execution output")
              (capture_reference b.marshal_capture b.codec.sha256_hex capture)
        reject (not (same_reference made.0 reference) || not (text_eq encoded made.1))
            (Error.plain "stored runnable execution output reference does not match its value")
        ok capture
    ]
