-- ===== src/Repository/Growth.antt =====
-- internal/adapter/postgres/runnable_repository.go: the insertions of records only add rows, and rows
-- that keep the constraints.
use breakfix.Prelude.{
  Bool, true, false, not, ◌||◌, List, ◌∷◌, map, none, some, ◌≡◌, refl, arith, All, Distinct, inl,
  inr, sym, ap, ◌∙◌, Option-cases, ◌==◌,
}
use breakfix.Text.{Text, text_eq}
use breakfix.Text.Laws.{text_eq_iff, text_eq_self}
use breakfix.Text.Dict.{lookup, insert, Values-insert, Values-at, lookup-insert, lookup-insert_self}
use breakfix.Errors.{ok, ok_injective, >>-eq-ok, >>=-eq-ok, reject-eq-ok}
use breakfix.Runnable.Model.{RunnableSpec, Time}
use breakfix.Runnable.Spec.{Codec, spec_digest, validate_revision, revision_digest}
use breakfix.Runnable.Action.{StoredRevision, validate_stored_revision, validate_revision_reference}
use breakfix.Repository.{SpecRow, RevisionRow, Tables, revision_of, revision_with}
use breakfix.Repository.Records.{insert_spec, insert_revision, revision_row}
use breakfix.Repository.Valid.{
  IsSpec, IsRevision, revision_of-absent, revision_with-absent, revision_with-known,
}
use breakfix.Repository.Changes.{Grows}

left_false : (a b : Bool) → (not a || b) ≡ false → a ≡ true
left_false a b h = ground arith

All-at : (P : RevisionRow → Type 0) {m n : List RevisionRow} → m ≡ n → All P n → All P m
All-at P e h = rw e h

Distinct-at :
    (f : RevisionRow → Text) {m n : List RevisionRow}
    → m ≡ n
    → Distinct (map f n)
    → Distinct (map f m)
Distinct-at f e h = rw e h

lookup_new :
    (d k : Text) (row new : SpecRow) (m : List (Text × SpecRow))
    → lookup k m ≡ none
    → lookup d m ≡ some row
    → lookup d (insert k new m) ≡ some row
lookup_new d k row new m absent h = rw (lookup-insert k d new m) (ground (arith, text_eq_iff k d))

revision_of_new :
    (d : Text) (row new : RevisionRow) (rows : List RevisionRow)
    → revision_of new.digest rows ≡ none
    → revision_of d rows ≡ some row
    → revision_of d (new ∷ rows) ≡ some row
unfolding revision_of
revision_of_new d row new rows absent h = ground (arith, text_eq_iff new.digest d)

module _ (codec : Codec) where
  -- Tables with the same records.
  pub Grows-same :
      {t t' : Tables} → t'.specs ≡ t.specs → t'.revisions ≡ t.revisions → Grows codec t t'
  Grows-same s r = record {
    specs = λ d row h. ap (lookup d) s ∙ h;
    revisions = λ d row h. ap (revision_of d) r ∙ h;
    valid_specs = λ v. Values-at (IsSpec codec) s v;
    valid_revisions = λ v. All-at (IsRevision codec) r v;
    distinct = λ v. Distinct-at (λ x. x.digest) r v;
    distinct_ids = λ v. Distinct-at (λ x. x.id) r v;
  }

  -- A new spec under its digest.
  new_spec :
      (t : Tables) (d : Text) (new : SpecRow)
      → lookup d t.specs ≡ none
      → IsSpec codec d new
      → Grows codec t (record t { specs = insert d new t.specs })
  new_spec t d new absent valid = record {
    specs = λ k row h. lookup_new k d row new t.specs absent h;
    revisions = λ k row h. h;
    valid_specs = λ v. Values-insert (IsSpec codec) d new t.specs valid v;
    valid_revisions = λ v. v;
    distinct = λ v. v;
    distinct_ids = λ v. v;
  }

  -- What the insertion of a spec gives: its digest, and tables where a spec stands under it.
  pub record Stored (spec : RunnableSpec) (t : Tables) (made : Text × Tables) : Type 0 where
    pub grows : Grows codec t made.1
    pub digest : spec_digest codec spec ≡ ok (made.0)
    pub row : SpecRow
    pub found : lookup made.0 made.1.specs ≡ some row
    pub actions : made.1.actions ≡ t.actions
    pub revisions : made.1.revisions ≡ t.revisions

  pub insert_spec-Stored :
      (spec : RunnableSpec) (now : Time) (t : Tables) (made : Text × Tables)
      → insert_spec codec spec now t ≡ ok made
      → Stored spec t made
  unfolding insert_spec
  insert_spec-Stored spec now t made h =
      let (d, digest, h1) = >>=-eq-ok (spec_digest codec spec) _ h in
      elim (Option-cases (lookup d t.specs)) [
        | inr (old, found) ↦
            let same : (d, t) ≡ made = ok_injective (rw found at h1) in
            rw (← same) (record {
              grows = Grows-same refl refl;
              digest = digest;
              row = old;
              found = found;
              actions = refl;
              revisions = refl;
            })
        | inl absent ↦
            let new : SpecRow = record { spec = spec; created_at = now } in
            let stored : Tables = record t { specs = insert d new t.specs } in
            let same : (d, stored) ≡ made = ok_injective (rw absent at h1) in
            rw (← same) (record {
              grows = new_spec t d new absent digest;
              digest = digest;
              row = new;
              found = lookup-insert_self d new t.specs;
              actions = refl;
              revisions = refl;
            })
      ]

  -- A revision that passed its check, as a row.
  revision_row-IsRevision :
      (value : StoredRevision) (d : Text)
      → validate_stored_revision codec value ≡ ok tt
      → IsRevision codec (revision_row codec value d)
  unfolding validate_stored_revision revision_row
  revision_row-IsRevision value d h =
      let (reference, h1) = >>-eq-ok (validate_revision_reference value.reference) _ h in
      let (_, h2) = >>-eq-ok (validate_revision codec value.revision) _ h1 in
      let (e, digest, h3) = >>=-eq-ok (revision_digest codec value.revision) _ h2 in
      let same : value.reference.digest ≡ e = (text_eq_iff value.reference.digest e).0 (
        left_false (text_eq value.reference.digest e) (value.created_at == 0)
          (reject-eq-ok _ _ h3)) in
      record { reference = reference; digest = digest ∙ ap ok (sym same) }

  -- What the insertion of a revision gives: rows where the digest is known.
  pub record Added (value : StoredRevision) (t : Tables) (rows : List RevisionRow) : Type 0 where
    pub grows : Grows codec t (record t { revisions = rows })
    pub row : RevisionRow
    pub found : revision_of value.reference.digest rows ≡ some row

  new_revision :
      (t : Tables) (new : RevisionRow)
      → revision_of new.digest t.revisions ≡ none
      → revision_with new.id t.revisions ≡ none
      → IsRevision codec new
      → Grows codec t (record t { revisions = new ∷ t.revisions })
  new_revision t new absent unbound valid = record {
    specs = λ d row h. h;
    revisions = λ d row h. revision_of_new d row new t.revisions absent h;
    valid_specs = λ v. v;
    valid_revisions = λ v. (valid, v);
    distinct = λ v. (revision_of-absent new.digest t.revisions absent, v);
    distinct_ids = λ v. (revision_with-absent new.id t.revisions unbound, v);
  }

  insert_absent :
      (value : StoredRevision) (d : Text) (t : Tables) (rows : List RevisionRow)
      → IsRevision codec (revision_row codec value d)
      → revision_of value.reference.digest t.revisions ≡ none
      → insert_revision codec value d t.revisions ≡ ok rows
      → Added value t rows
  unfolding insert_revision
  insert_absent value d t rows valid absent h =
      elim (Option-cases (revision_with value.reference.id t.revisions)) [
        | inl unbound ↦
            let new : RevisionRow = revision_row codec value d in
            let same : new ∷ t.revisions ≡ rows = ground arith in
            rw (← same) (record {
              grows =
                  new_revision t new (unfold revision_row in absent)
                    (unfold revision_row in unbound) valid;
              row = new;
              found = unfold revision_of revision_row in rw (text_eq_self value.reference.digest);
            })
        | inr (old, bound) ↦
            let other : text_eq old.digest value.reference.digest ≡ false =
              revision_with-known value.reference.id value.reference.digest t.revisions {r = old}
                absent bound in
            absurd (ground arith)
      ]

  pub insert_revision-Added :
      (value : StoredRevision) (d : Text) (t : Tables) (rows : List RevisionRow)
      → validate_stored_revision codec value ≡ ok tt
      → insert_revision codec value d t.revisions ≡ ok rows
      → Added value t rows
  unfolding insert_revision
  insert_revision-Added value d t rows v h =
      elim (Option-cases (revision_of value.reference.digest t.revisions)) [
        | inl absent ↦ insert_absent value d t rows (revision_row-IsRevision value d v) absent h
        | inr (old, found) ↦
            let same : t.revisions ≡ rows = ground arith in
            rw (← same) (record { grows = Grows-same refl refl; row = old; found = found })
      ]
