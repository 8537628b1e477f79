-- ===== src/Text/Laws.antt =====
-- Laws of the string functions: equality decides, and trimming leaves graphic text alone.
use mathlib.Core.List.{reverse-reverse, reverse_aux}
use breakfix.Prelude.{
  ℕ, Bool, true, false, ◌&&◌, List, [], ◌∷◌, ◌++◌, ◌≡◌, refl, ◌↔◌, inl, inr, arith, leb, reverse,
  Among,
}
use breakfix.Text.{Text, text_eq, all, member, has_prefix}
use breakfix.Text.Trim.{first_width, last_width, drop_space, trim_space}

text_eq_sound : (s t : Text) → text_eq s t ≡ true → s ≡ t
unfolding text_eq
text_eq_sound [] [] h = refl
text_eq_sound (a ∷ s) (b ∷ t) h = ground (arith, text_eq_sound s t)
text_eq_sound [] (b ∷ t) h = ground arith
text_eq_sound (a ∷ s) [] h = ground arith

pub text_eq_self : (s : Text) → text_eq s s ≡ true
unfolding text_eq
text_eq_self [] = refl
text_eq_self (a ∷ s) = ground (arith, text_eq_self s)

text_eq_complete : (s t : Text) → s ≡ t → text_eq s t ≡ true
text_eq_complete s t e = rw e (text_eq_self t)

pub text_eq_iff : (s t : Text) → (text_eq s t ≡ true) ↔ (s ≡ t)
text_eq_iff s t = (text_eq_sound s t, text_eq_complete s t)

pub member-Among : (s : Text) (ts : List Text) → member s ts ≡ true → Among s ts
unfolding member
member-Among s [] h = ground arith
member-Among s (t ∷ ts) h = ground (arith, text_eq_iff s t, member-Among s ts)

pub Among-member : (s : Text) (ts : List Text) → Among s ts → member s ts ≡ true
unfolding member
Among-member s [] h = absurd h
Among-member s (t ∷ ts) (inl e) = ground (arith, text_eq_iff s t)
Among-member s (t ∷ ts) (inr h) = ground (arith, Among-member s ts h)

pub not-Among : (s : Text) (ts : List Text) → member s ts ≡ false → ¬ Among s ts
not-Among s ts h a = ground (arith, Among-member s ts a)

pub all-append :
    (p : ℕ → Bool) (s t : Text) → all p s ≡ true → all p t ≡ true → all p (s ++ t) ≡ true
unfolding all
all-append p [] t h k = k
all-append p (c ∷ s) t h k = ground (arith, all-append p s t)

pub has_prefix-append : (s t : Text) → has_prefix (s ++ t) s ≡ true
unfolding has_prefix
has_prefix-append [] [] = refl
has_prefix-append [] (c ∷ t) = refl
has_prefix-append (c ∷ s) t = ground (arith, has_prefix-append s t)

-- A byte that is neither white space nor part of a longer character.
abbrev pub is_graphic : ℕ → Bool
is_graphic c = leb 33 c && leb c 126

first_width_graphic : (c : ℕ) (s : Text) → is_graphic c ≡ true → first_width c s ≡ 0
unfolding first_width
first_width_graphic c s h = ground arith

last_width_graphic : (c : ℕ) (s : Text) → is_graphic c ≡ true → last_width c s ≡ 0
unfolding last_width
last_width_graphic c s h = ground arith

drop_space-keep :
    (width : ℕ → List ℕ → ℕ) (c : ℕ) (s : Text) → width c s ≡ 0 → drop_space width 0 (c ∷ s) ≡ c ∷ s
unfolding drop_space
drop_space-keep width c s h = rw (h, drop_space)

drop_first : (s : Text) → all is_graphic s ≡ true → drop_space first_width 0 s ≡ s
unfolding all
drop_first [] h = unfold drop_space in refl
drop_first (c ∷ s) h = drop_space-keep first_width c s (first_width_graphic c s (ground arith))

drop_last : (s : Text) → all is_graphic s ≡ true → drop_space last_width 0 s ≡ s
unfolding all
drop_last [] h = unfold drop_space in refl
drop_last (c ∷ s) h = drop_space-keep last_width c s (last_width_graphic c s (ground arith))

all-reverse_aux :
    (p : ℕ → Bool) (s t : Text) → all p s ≡ true → all p t ≡ true → all p (reverse_aux s t) ≡ true
unfolding all
all-reverse_aux p [] t h k = k
all-reverse_aux p (c ∷ s) t h k = all-reverse_aux p s (c ∷ t) (ground arith) (ground arith)

pub all-reverse : (p : ℕ → Bool) (s : Text) → all p s ≡ true → all p (reverse s) ≡ true
all-reverse p s h = all-reverse_aux p s [] h (unfold all in refl)

-- Text without white space is trimmed to itself.
pub trim_space_graphic : (s : Text) → all is_graphic s ≡ true → trim_space s ≡ s
unfolding trim_space
trim_space_graphic s h =
    rw (drop_first s h)
      (rw (drop_last (reverse s) (all-reverse is_graphic s h)) (reverse-reverse s))

pub all_mono :
    (p q : ℕ → Bool)
    → ((c : ℕ) → p c ≡ true → q c ≡ true)
    → (s : Text) → all p s ≡ true
    → all q s ≡ true
unfolding all
all_mono p q imp [] h = refl
all_mono p q imp (c ∷ s) h = ground (arith, imp c, all_mono p q imp s)
