-- ===== src/Runnable/Action/RecordId.antt =====
-- internal/domain/runnable/action.go: the identifiers that are derived from an action.
use native.Mathlib.Nat.{le_of_eq}
use breakfix.Prelude.{ℕ, ◌-◌, ◌≤◌, true, ◌++◌, length, length-append, length-take, take, ◌≡◌, arith}
use breakfix.Text.{Text, codes}
use breakfix.Errors.{Field, ok}
use breakfix.Runnable.Model.{max_id_length}
use breakfix.Runnable.Spec.{Codec}
use breakfix.Runnable.Ident.{stable_id, validate_id, is_hex}
use breakfix.Runnable.Ident.Laws.{HexHash, stable_id-dash, all-take, validate_id-of}
use breakfix.Runnable.Action.{ActionIdentity, action_key, record_id}

record_length :
    (prefix sum : Text)
    → length prefix ≤ 62
    → length sum ≡ 64
    → length (prefix ++ codes "-" ++ take (max_id_length - length prefix - 1) sum) ≡ max_id_length
record_length prefix sum n h =
    let cut : ℕ = max_id_length - length prefix - 1 in
    omega (
      arith,
      length-append (prefix ++ codes "-") (take cut sum),
      length-append prefix (codes "-"),
      length-take cut sum,
    )

module _ (codec : Codec) (hash : HexHash codec.sha256_hex) where
  -- A record identifier has exactly the 64 bytes that are allowed and is a stable identifier, so it
  -- passes the check of every stored reference, for a prefix that is a stable identifier of at most
  -- 62 bytes. The hash is taken to give 64 hexadecimal digits.
  pub record_id_valid :
      (prefix : Text) (identity : ActionIdentity) (field : Field)
      → stable_id prefix ≡ true
      → length prefix ≤ 62
      → (length (record_id codec prefix identity) ≡ max_id_length)
        × (validate_id (record_id codec prefix identity) field ≡ ok tt)
  unfolding record_id
  record_id_valid prefix identity field h n =
      let sum : Text = codec.sha256_hex (action_key identity) in
      let size : length (record_id codec prefix identity) ≡ max_id_length =
        record_length prefix sum n (hash.size (action_key identity)) in
      (
        size,
        validate_id-of (record_id codec prefix identity) field
            (stable_id-dash prefix (take (max_id_length - length prefix - 1) sum) h (
              all-take is_hex (max_id_length - length prefix - 1) sum
                (hash.hex (action_key identity))))
            (le_of_eq size),
      )
