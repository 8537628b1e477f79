-- ===== src/Runnable/Ident.antt =====
-- internal/domain/runnable/validate.go and model.go: digests, identifiers and required strings.
pub mod Laws
use breakfix.Prelude.{
  ℕ, suc, zero, ◌+◌, ◌<◌, ◌≤◌, String, Bool, true, false, ◌&&◌, ◌||◌, not, List, [], ◌∷◌, leb, ltb,
  ◌==◌, if◌then◌else◌, length, ◌≡◌, refl, arith,
}
use breakfix.Text.{Text, codes, is_empty, has_prefix, all, text_eq}
use breakfix.Text.Trim.{trim_space}
use breakfix.Errors.{Field, Error, Result, ok, err, Check, reject, ◌>>=◌, ◌>>◌}
use breakfix.Runnable.Model.{max_id_length, format_version}

abbrev pub digest_prefix : Text
digest_prefix = codes "sha256:"

-- [0-9a-f]
unfoldable pub is_hex : ℕ → Bool
is_hex c = (leb b'0' c && leb c b'9') || (leb b'a' c && leb c b'f')

abbrev pub drop_bytes : ℕ → Text → Text
drop_bytes zero s = s
drop_bytes (suc n) [] = []
drop_bytes (suc n) (c ∷ s) = drop_bytes n s

-- The loop over the runes stops at the first that is no hexadecimal digit; a rune that takes more
-- than one byte is none, and neither is any of its bytes.
unfoldable pub valid_digest : Text → Bool
unfolding is_hex
valid_digest value =
    let v = trim_space value in
    has_prefix v digest_prefix && length v == 71 && all is_hex (drop_bytes 7 v)

-- [a-z]
unfoldable pub is_lower : ℕ → Bool
is_lower c = leb b'a' c && leb c b'z'

-- [a-z0-9-]
unfoldable pub is_id_byte : ℕ → Bool
unfolding is_lower
is_id_byte c = is_lower c || ((leb b'0' c && leb c b'9') || c == b'-')

-- `^[a-z][a-z0-9-]*$`
unfoldable pub stable_id : Text → Bool
unfolding is_lower is_id_byte
stable_id [] = false
stable_id (c ∷ s) = is_lower c && all is_id_byte s

unfoldable pub id_ok : Text → Bool
unfolding stable_id trim_space
id_ok value =
    let v = trim_space value in not (is_empty v) && leb (length v) max_id_length && stable_id v

unfoldable pub validate_id : Text → Field → Check
unfolding id_ok
validate_id value field =
    reject (not (id_ok value)) (Error.invalid field "must be a stable lowercase identifier")

unfoldable pub required_string : Text → Field → (maximum : ℕ) → Check
unfolding trim_space
required_string value field maximum =
    let v = trim_space value in
    do
      reject (is_empty v) (Error.invalid field "is required")
      reject (ltb maximum (length v)) (Error.invalid field "is too long")

-- `value != FormatVersion` is unsupported.
unfoldable pub validate_format : Text → Field → Check
validate_format value field =
    reject (not (text_eq value (codes format_version))) (Error.unsupported value field)

-- A value that passed: what the trimmed identifier looks like.
pub record IsId (value : Text) : Type 0 where
  pub stable : stable_id (trim_space value) ≡ true
  pub short : length (trim_space value) ≤ max_id_length

pub validate_id-IsId : (value : Text) (field : Field) → validate_id value field ≡ ok tt → IsId value
unfolding validate_id id_ok
validate_id-IsId value field h = ground arith
