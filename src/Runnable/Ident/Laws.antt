-- ===== src/Runnable/Ident/Laws.antt =====
-- internal/domain/runnable: digests and record identifiers that the code makes pass its own checks.
use breakfix.Prelude.{
  ℕ, suc, zero, ◌≤◌, Bool, true, ◌&&◌, not, [], ◌∷◌, ◌++◌, leb, ◌==◌, length, take, ◌≡◌, refl,
  arith,
}
use breakfix.Text.{Text, codes, is_empty, has_prefix, all}
use breakfix.Text.Laws.{trim_space_graphic, is_graphic, all-append, all_mono}
use breakfix.Errors.{Field, ok}
use breakfix.Runnable.Model.{max_id_length}
use breakfix.Runnable.Ident.{
  is_hex, valid_digest, digest_prefix, is_lower, is_id_byte, stable_id, id_ok, validate_id,
}

-- The documented shape of a SHA-256 sum in hexadecimal: 64 digits.
pub record HexHash (hash : Text → Text) : Type 0 where
  pub hex : (t : Text) → all is_hex (hash t) ≡ true
  pub size : (t : Text) → length (hash t) ≡ 64

hex-graphic : (c : ℕ) → is_hex c ≡ true → is_graphic c ≡ true
unfolding is_hex
hex-graphic c h = ground arith

hex-id_byte : (c : ℕ) → is_hex c ≡ true → is_id_byte c ≡ true
unfolding is_hex is_id_byte
hex-id_byte c h = ground arith

id_byte-graphic : (c : ℕ) → is_id_byte c ≡ true → is_graphic c ≡ true
unfolding is_id_byte
id_byte-graphic c h = ground arith

-- "sha256:" with 64 hexadecimal digits behind it is a valid digest.
pub valid_digest-prefix :
    (sum : Text)
    → all is_hex sum ≡ true
    → length sum ≡ 64
    → valid_digest (digest_prefix ++ sum) ≡ true
unfolding valid_digest
valid_digest-prefix sum h n = rw (trim_space_graphic (digest_prefix ++ sum) graphic) shape
  where
    graphic : all is_graphic (digest_prefix ++ sum) ≡ true
    graphic =
        all-append is_graphic digest_prefix sum (unfold all in refl)
          (all_mono is_hex is_graphic hex-graphic sum h)

    shape :
        (has_prefix (digest_prefix ++ sum) digest_prefix
          && length (digest_prefix ++ sum) == 71
          && all is_hex sum)
        ≡ true
    shape = unfold has_prefix in ground arith

lower-graphic : (c : ℕ) → is_lower c ≡ true → is_graphic c ≡ true
unfolding is_lower
lower-graphic c h = ground arith

stable_id-graphic : (s : Text) → stable_id s ≡ true → all is_graphic s ≡ true
unfolding stable_id all
stable_id-graphic [] h = refl
stable_id-graphic (c ∷ s) h =
    ground (arith, lower-graphic c, all_mono is_id_byte is_graphic id_byte-graphic s)

not_empty :
    (s : Text)
    → stable_id s ≡ true
    → length s ≤ max_id_length
    → (not (is_empty s) && leb (length s) max_id_length && stable_id s) ≡ true
unfolding stable_id
not_empty [] h n = absurd (ground arith)
not_empty (c ∷ s) h n = ground arith

-- A stable identifier of at most 64 bytes passes the check.
pub id_ok_stable : (s : Text) → stable_id s ≡ true → length s ≤ max_id_length → id_ok s ≡ true
unfolding id_ok
id_ok_stable s h n = rw (trim_space_graphic s (stable_id-graphic s h)) (not_empty s h n)

pub validate_id-of :
    (s : Text) (field : Field)
    → stable_id s ≡ true
    → length s ≤ max_id_length
    → validate_id s field ≡ ok tt
unfolding validate_id
validate_id-of s field h n = rw (id_ok_stable s h n)

-- An identifier prefix of lower case letters, a dash, and hexadecimal digits make an identifier.
pub stable_id-dash :
    (prefix digits : Text)
    → stable_id prefix ≡ true
    → all is_hex digits ≡ true
    → stable_id (prefix ++ codes "-" ++ digits) ≡ true
unfolding stable_id
stable_id-dash [] digits h k = absurd (ground arith)
stable_id-dash (c ∷ s) digits h k =
    let tail : all is_id_byte s ≡ true = ground arith in
    let dash : all is_id_byte (codes "-") ≡ true = unfold all is_id_byte in refl in
    let joined : all is_id_byte ((s ++ codes "-") ++ digits) ≡ true =
      all-append is_id_byte (s ++ codes "-") digits (all-append is_id_byte s (codes "-") tail dash)
        (all_mono is_hex is_id_byte hex-id_byte digits k) in
    let lower : is_lower c ≡ true = ground arith in rw (lower, joined)

pub all-take : (p : ℕ → Bool) (n : ℕ) (s : Text) → all p s ≡ true → all p (take n s) ≡ true
unfolding all
all-take p zero s h = refl
all-take p (suc n) [] h = refl
all-take p (suc n) (c ∷ s) h = ground (arith, all-take p n s)
