-- ===== src/Runnable/Unique.antt =====
-- The loops of internal/domain/runnable/validate.go that check each element and refuse an
-- identifier that was seen before, `seen` being the Go map of the identifiers so far.
use breakfix.Prelude.{
  ℕ, suc, List, [], ◌∷◌, ◌++◌, ◌≡◌, refl, arith, sym, inl, inr, map, Among, Distinct, All,
  Bool-cases,
}
use breakfix.Text.{Text, member}
use breakfix.Text.Laws.{member-Among, not-Among}
use breakfix.Errors.{Error, Result, ok, Check, reject, ◌>>◌, >>-eq-ok, reject-eq-ok}

module _ {A : Type 0} (check : ℕ → A → Check) (id : A → Text) (duplicate : Error) where
  -- `index` is the position in the slice, which the error's field name shows.
  unfoldable pub each_unique : (index : ℕ) → (seen : List Text) → List A → Result (List Text)
  each_unique index seen [] = ok seen
  each_unique index seen (x ∷ xs) =
      let rest = each_unique (suc index) (id x ∷ seen) xs in
      do check index x; reject (member (id x) seen) duplicate; rest

-- Every element passes its check.
abbrev pub Checks : {A : Type 0} → (ℕ → A → Check) → ℕ → List A → Type 0
Checks check index [] = Unit
Checks check index (x ∷ xs) = (check index x ≡ ok tt) × Checks check (suc index) xs

-- No identifier is among those seen before it.
abbrev pub Fresh : {A : Type 0} → (A → Text) → List Text → List A → Type 0
Fresh id seen [] = Unit
Fresh id seen (x ∷ xs) = (¬ Among (id x) seen) × Fresh id (id x ∷ seen) xs

-- The identifiers seen after the loop.
abbrev pub seen_after : {A : Type 0} → (A → Text) → List Text → List A → List Text
seen_after id seen [] = seen
seen_after id seen (x ∷ xs) = seen_after id (id x ∷ seen) xs

module _ {A : Type 0} (check : ℕ → A → Check) (id : A → Text) (duplicate : Error) where
  pub each_unique_sound :
      (index : ℕ) (seen : List Text) (xs : List A) {after : List Text}
      → each_unique check id duplicate index seen xs ≡ ok after
      → Checks check index xs × Fresh id seen xs × (after ≡ seen_after id seen xs)
  unfolding each_unique
  each_unique_sound index seen [] h = (tt, tt, ground arith)
  each_unique_sound index seen (x ∷ xs) h =
      let (passed, h1) = >>-eq-ok (check index x) _ h in
      let (new, h2) = >>-eq-ok (reject (member (id x) seen) duplicate) _ h1 in
      let (cs, fs, e) = each_unique_sound (suc index) (id x ∷ seen) xs h2 in
      ((passed, cs), (not-Among (id x) seen (reject-eq-ok _ _ new), fs), e)

  pub each_unique_complete :
      (index : ℕ) (seen : List Text) (xs : List A)
      → Checks check index xs
      → Fresh id seen xs
      → each_unique check id duplicate index seen xs ≡ ok (seen_after id seen xs)
  unfolding each_unique
  each_unique_complete index seen [] c f = refl
  each_unique_complete index seen (x ∷ xs) (c, cs) (f, fs) =
      elim (Bool-cases (member (id x) seen)) [
        | inl old ↦ absurd (f (member-Among (id x) seen old))
        | inr new ↦ ground (arith, each_unique_complete (suc index) (id x ∷ seen) xs cs fs)
      ]

module _ {A : Type 0} (id : A → Text) where
  -- An identifier of the rest of the list is not one of those seen before.
  pub Fresh-apart :
      (seen : List Text) (xs : List A)
      → Fresh id seen xs
      → (t : Text) → Among t (map id xs)
      → ¬ Among t seen
  Fresh-apart seen [] f t a = absurd a
  Fresh-apart seen (x ∷ xs) (f, fs) t (inl e) = λ s. f (rw e s)
  Fresh-apart seen (x ∷ xs) (f, fs) t (inr a) = λ s. Fresh-apart (id x ∷ seen) xs fs t a (inr s)

  pub Fresh-Distinct : (seen : List Text) (xs : List A) → Fresh id seen xs → Distinct (map id xs)
  Fresh-Distinct seen [] f = tt
  Fresh-Distinct seen (x ∷ xs) (f, fs) =
      (λ a. Fresh-apart (id x ∷ seen) xs fs (id x) a (inl refl), Fresh-Distinct (id x ∷ seen) xs fs)

  -- The loop over a list that was cut in two goes on with the identifiers of the first part.
  pub Fresh-append :
      (seen : List Text) (xs ys : List A)
      → Fresh id seen xs
      → Fresh id (seen_after id seen xs) ys
      → Fresh id seen (xs ++ ys)
  Fresh-append seen [] ys f g = g
  Fresh-append seen (x ∷ xs) ys (f, fs) g = (f, Fresh-append (id x ∷ seen) xs ys fs g)

  pub seen_after-append :
      (seen : List Text) (xs ys : List A)
      → seen_after id seen (xs ++ ys) ≡ seen_after id (seen_after id seen xs) ys
  seen_after-append seen [] ys = refl
  seen_after-append seen (x ∷ xs) ys = seen_after-append (id x ∷ seen) xs ys

module _ {A : Type 0} (id : A → Text) where
  apart_extend :
      (t : Text) (seen : List Text) (xs : List A)
      → ¬ Among t (map id xs)
      → All (λ x. ¬ Among (id x) seen) xs
      → All (λ x. ¬ Among (id x) (t ∷ seen)) xs
  apart_extend t seen [] n a = tt
  apart_extend t seen (x ∷ xs) n (p, a) = (
    λ m. elim m [ inl e ↦ n (inl (sym e)) | inr old ↦ p old ],
    apart_extend t seen xs (λ m. n (inr m)) a,
  )

  -- Distinct identifiers, none of which was seen before, pass the loop.
  pub Distinct-Fresh :
      (seen : List Text) (xs : List A)
      → Distinct (map id xs)
      → All (λ x. ¬ Among (id x) seen) xs
      → Fresh id seen xs
  Distinct-Fresh seen [] d a = tt
  Distinct-Fresh seen (x ∷ xs) (n, d) (p, a) =
      (p, Distinct-Fresh (id x ∷ seen) xs d (apart_extend (id x) seen xs n a))

-- What the check of each element gives holds of all.
pub Checks-All :
    {A : Type 0} (P : A → Type 0) (check : ℕ → A → Check)
    → ((i : ℕ) (a : A) → check i a ≡ ok tt → P a)
    → (i : ℕ) (xs : List A) → Checks check i xs
    → All P xs
Checks-All P check each i [] c = tt
Checks-All P check each i (x ∷ xs) (c, cs) = (each i x c, Checks-All P check each (suc i) xs cs)
