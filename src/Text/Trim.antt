-- ===== src/Text/Trim.antt =====
-- strings.TrimSpace. White space is that of unicode.IsSpace, in the bytes of its UTF-8 encoding.
use breakfix.Prelude.{
  ℕ, zero, suc, Bool, ◌&&◌, ◌||◌, List, [], ◌∷◌, leb, ◌==◌, get_or, if◌then◌else◌, reverse,
}

-- \t \n \v \f \r and the space
unfoldable pub is_ascii_space : ℕ → Bool
is_ascii_space c = (leb 9 c && leb c 13) || c == 32

-- U+0085 and U+00A0
unfoldable pub is_space_pair : ℕ → ℕ → Bool
is_space_pair a b = a == 0xC2 && (b == 0x85 || b == 0xA0)

-- U+1680, U+2000 to U+200A, U+2028, U+2029, U+202F, U+205F and U+3000
unfoldable pub is_space_triple : ℕ → ℕ → ℕ → Bool
is_space_triple a b c =
    (a == 0xE1 && (b == 0x9A && c == 0x80))
    || ((a == 0xE2
          && ((b == 0x80 && ((leb 0x80 c && leb c 0x8A) || (c == 0xA8 || (c == 0xA9 || c == 0xAF))))
              || (b == 0x81 && c == 0x9F)))
        || (a == 0xE3 && (b == 0x80 && c == 0x80)))

-- The bytes that the white space at the start of `a b c …` takes; a missing byte is given as 0.
unfoldable pub space_width : ℕ → ℕ → ℕ → ℕ
unfolding is_ascii_space is_space_pair is_space_triple
space_width a b c =
    if is_ascii_space a
    then 1
    else if is_space_pair a b
    then 2
    else if is_space_triple a b c
    then 3
    else 0

-- The width of the white space at the start of the text.
unfoldable pub first_width : ℕ → List ℕ → ℕ
unfolding space_width
first_width a rest = space_width a (get_or rest 0 0) (get_or rest 1 0)

-- The width of the white space at the end of the text, which is given in reverse.
unfoldable pub last_width : ℕ → List ℕ → ℕ
unfolding space_width is_ascii_space is_space_pair is_space_triple
last_width c rest =
    let b = get_or rest 0 0 in
    let a = get_or rest 1 0 in
    if is_ascii_space c
    then 1
    else if is_space_pair b c
    then 2
    else if is_space_triple a b c
    then 3
    else 0

-- Drops white space from the front; `skip` counts the bytes of a character that are still to go.
unfoldable pub drop_space : (ℕ → List ℕ → ℕ) → (skip : ℕ) → List ℕ → List ℕ
drop_space width skip [] = []
drop_space width (suc k) (c ∷ s) = drop_space width k s
drop_space width zero (c ∷ s) = elim (width c s) [ zero ↦ c ∷ s | suc k ↦ drop_space width k s ]

unfoldable pub trim_space : List ℕ → List ℕ
unfolding drop_space first_width last_width
trim_space s = reverse (drop_space last_width 0 (reverse (drop_space first_width 0 s)))
