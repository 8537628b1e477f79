-- ===== src/Runnable/Output.antt =====
-- internal/domain/runnable/output.go and assertion_output.go: the captured streams of one execution,
-- and what an assertion prints. A nil slice and an
-- empty one are both the empty list, so the encoding needs no case for nil.
use breakfix.Prelude.{
  ℕ, pos, ◌*◌, ◌-◌, ◌||◌, ◌++◌, ◌==◌, Bool, not, List, [], ◌∷◌, Option, none, some, ltb, length,
}
use breakfix.Text.{Text, codes, text_eq}
use breakfix.Errors.{Error, Result, ok, err, Check, reject, map_err, ◌>>=◌, ◌>>◌}
use breakfix.Runnable.Ident.{digest_prefix}
use breakfix.Runnable.Model.{ImmutableReference, AssertionResult}
use breakfix.Runnable.Outcome.{validate_assertion_result}

abbrev pub max_execution_output_bytes : ℕ
max_execution_output_bytes = 512 * 1024

pub record OutputCapture : Type 0 where
  pub stdout : Text
  pub stderr : Text

-- The subtraction is on an int; it is read only where stdout is within the limit.
unfoldable pub validate_capture : OutputCapture → Check
validate_capture c =
    reject
      (ltb max_execution_output_bytes (length c.stdout)
        || ltb (max_execution_output_bytes - length c.stdout) (length c.stderr))
      (Error.plain "runnable execution output exceeds the platform limit")

-- json.Marshal of a capture and the hexadecimal SHA-256 are parameters.
module _ (marshal : OutputCapture → Result Text) (sha256_hex : Text → Text) where
  unfoldable pub capture_reference : OutputCapture → Result (ImmutableReference × Text)
  capture_reference c = do
    validate_capture c
    encoded ← map_err (Error.wrapped "canonical JSON") (marshal c)
    ok (
      record {
        reference = codes "runnable-output://sha256/" ++ sha256_hex encoded;
        digest = digest_prefix ++ sha256_hex encoded;
        size_bytes = pos (length encoded);
      },
      encoded,
    )

abbrev pub max_assertion_output_bytes : ℕ
max_assertion_output_bytes = 256 * 1024

-- One entry of the document that an assertion prints; `satisfied` may be missing.
pub record AssertionDocument : Type 0 where
  pub id : Text
  pub satisfied : Option Bool
  pub summary : Text
  pub details : Text

abbrev not_once : Error
not_once = Error.plain "assertion output must report its declared id exactly once"

-- The test of the one entry, and the result.
unfoldable pub read_entry :
    (expected_id : Text)
    → List ImmutableReference
    → AssertionDocument
    → Option Bool
    → Result AssertionResult
read_entry expected_id outputs d none = err not_once
read_entry expected_id outputs d (some b) =
    let result : AssertionResult = record {
      id = d.id;
      satisfied = b;
      summary = d.summary;
      details = d.details;
      outputs = outputs;
    } in
    do reject (not (text_eq d.id expected_id)) not_once; validate_assertion_result result; ok result

unfoldable pub read_document :
    (expected_id : Text) → List ImmutableReference → List AssertionDocument → Result AssertionResult
unfolding read_entry
read_document expected_id outputs (d ∷ []) = read_entry expected_id outputs d d.satisfied
read_document expected_id outputs _ = err not_once

-- `ParseAssertionOutput`. The two calls of the JSON decoder, which take exactly one document without
-- unknown fields, are the parameter `decode`.
unfoldable pub parse_assertion_output :
    (Text → Result (List AssertionDocument))
    → (raw expected_id : Text) → List ImmutableReference
    → Result AssertionResult
unfolding read_document
parse_assertion_output decode raw id outputs = do
  reject (length raw == 0 || ltb max_assertion_output_bytes (length raw))
      (Error.plain "assertion output is empty or exceeds the protocol limit")
  documents ← decode raw
  read_document id outputs documents
