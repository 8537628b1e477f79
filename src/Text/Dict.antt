-- ===== src/Text/Dict.antt =====
-- A Go map with string keys, as a list of its entries with one entry for each key.
use breakfix.Prelude.{
  List, [], ◌∷◌, ◌≡◌, refl, arith, Option, none, some, if◌then◌else◌, map, inl, inr, ◌≢◌,
  Bool-cases, ◌⊎◌, Among, Distinct, ap,
}
use breakfix.Text.{Text, text_eq}
use breakfix.Text.Laws.{text_eq_iff, text_eq_self}

module _ {V : Type 0} where
  -- v, found := m[key]
  unfoldable pub lookup : Text → List (Text × V) → Option V
  unfolding text_eq
  lookup k [] = none
  lookup k ((j, v) ∷ m) = if text_eq j k then some v else lookup k m

  -- m[key] = value
  unfoldable pub insert : Text → V → List (Text × V) → List (Text × V)
  unfolding text_eq
  insert k v [] = (k, v) ∷ []
  insert k v ((j, w) ∷ m) = if text_eq j k then (j, v) ∷ m else (j, w) ∷ insert k v m

  abbrev pub keys : List (Text × V) → List Text
  keys = map (λ e. e.0)

module _ {V : Type 0} where
  pub lookup-insert :
      (k j : Text) (v : V) (m : List (Text × V))
      → lookup j (insert k v m) ≡ (if text_eq k j then some v else lookup j m)
  unfolding lookup insert
  lookup-insert k j v [] = refl
  lookup-insert k j v ((i, w) ∷ m) =
      ground (arith, text_eq_iff i k, text_eq_iff i j, text_eq_iff k j, lookup-insert k j v m)

  pub lookup-insert_self :
      (k : Text) (v : V) (m : List (Text × V)) → lookup k (insert k v m) ≡ some v
  lookup-insert_self k v m = rw (lookup-insert k k v m) (rw (text_eq_self k))

  -- Another key keeps its value.
  pub lookup-insert_ne :
      (k j : Text) (v : V) (m : List (Text × V)) → k ≢ j → lookup j (insert k v m) ≡ lookup j m
  lookup-insert_ne k j v m h = rw (lookup-insert k j v m) (ground (arith, text_eq_iff k j))

  -- Every value of the map has the property.
  abbrev pub Values : (Text → V → Type 0) → List (Text × V) → Type 0
  Values P [] = Unit
  Values P ((k, v) ∷ m) = P k v × Values P m

  pub Values-lookup :
      (P : Text → V → Type 0) (k : Text) (m : List (Text × V)) {v : V}
      → Values P m
      → lookup k m ≡ some v
      → P k v
  unfolding lookup
  Values-lookup P k [] h e = ground arith
  Values-lookup P k ((j, w) ∷ m) {v} (p, h) e = elim (Bool-cases (text_eq j k)) [
    | inl same ↦
        let at_key : j ≡ k = (text_eq_iff j k).0 same in
        let value : w ≡ v = ground arith in rw (← at_key, ← value) p
    | inr other ↦ Values-lookup P k m h (ground arith)
  ]

  pub Values-insert :
      (P : Text → V → Type 0) (k : Text) (v : V) (m : List (Text × V))
      → P k v
      → Values P m
      → Values P (insert k v m)
  unfolding insert
  Values-insert P k v [] p h = (p, tt)
  Values-insert P k v ((j, w) ∷ m) p (q, h) = elim (Bool-cases (text_eq j k)) [
    | inl same ↦ rw same (let at_key : j ≡ k = (text_eq_iff j k).0 same in (rw at_key p, h))
    | inr other ↦ rw other (q, Values-insert P k v m p h)
  ]

  pub Values-map :
      (P Q : Text → V → Type 0)
      → ((k : Text) (v : V) → P k v → Q k v)
      → (m : List (Text × V)) → Values P m
      → Values Q m
  Values-map P Q f [] h = tt
  Values-map P Q f ((k, v) ∷ m) (p, h) = (f k v p, Values-map P Q f m h)

  pub Values-at : (P : Text → V → Type 0) {m n : List (Text × V)} → m ≡ n → Values P n → Values P m
  Values-at P e h = rw e h

  keys-insert :
      (k j : Text) (v : V) (m : List (Text × V))
      → Among j (keys (insert k v m))
      → (k ≡ j) ⊎ Among j (keys m)
  unfolding insert
  keys-insert k j v [] (inl e) = inl e
  keys-insert k j v [] (inr x) = elim x [ ]
  keys-insert k j v ((i, w) ∷ m) h = elim (Bool-cases (text_eq i k)) [
    | inl same ↦ inr (let here : Among j (keys ((i, v) ∷ m)) = rw same at h in here)
    | inr other ↦
        let there : Among j (keys ((i, w) ∷ insert k v m)) = rw other at h in
        elim there [
          | inl e ↦ inr (inl e)
          | inr x ↦ elim (keys-insert k j v m x) [ inl e ↦ inl e | inr y ↦ inr (inr y) ]
        ]
  ]

  -- A map keeps one entry for each key.
  pub Distinct-insert :
      (k : Text) (v : V) (m : List (Text × V)) → Distinct (keys m) → Distinct (keys (insert k v m))
  unfolding insert
  Distinct-insert k v [] d = (λ x. x, tt)
  Distinct-insert k v ((i, w) ∷ m) (fresh, d) = elim (Bool-cases (text_eq i k)) [
    | inl same ↦ rw same (fresh, d)
    | inr other ↦ rw other (
      λ x. elim (keys-insert k i v m x) [
        | inl e ↦ ground (arith, text_eq_iff i k)
        | inr y ↦ fresh y
      ],
      Distinct-insert k v m d,
    )
  ]

  -- With one entry for each key, the lookup finds every entry.
  pub lookup-Among :
      (k : Text) (v : V) (m : List (Text × V))
      → Distinct (keys m)
      → Among (k, v) m
      → lookup k m ≡ some v
  unfolding lookup
  lookup-Among k v [] d x = elim x [ ]
  lookup-Among k v ((i, w) ∷ m) (fresh, d) (inl e) =
      let key : i ≡ k = ap (λ p. p.0) e in
      let value : w ≡ v = ap (λ p. p.1) e in rw (key, text_eq_self k, value)
  lookup-Among k v ((i, w) ∷ m) (fresh, d) (inr x) = elim (Bool-cases (text_eq i k)) [
    | inl same ↦ absurd (fresh (rw ((text_eq_iff i k).0 same) (key_of k v m x)))
    | inr other ↦ rw other (lookup-Among k v m d x)
  ]
    where
      key_of : (k : Text) (v : V) (m : List (Text × V)) → Among (k, v) m → Among k (keys m)
      key_of k v [] x = elim x [ ]
      key_of k v ((i, w) ∷ m) (inl e) = inl (ap (λ p. p.0) e)
      key_of k v ((i, w) ∷ m) (inr x) = inr (key_of k v m x)
