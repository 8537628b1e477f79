-- ===== src/Repository/Order.antt =====
-- internal/adapter/postgres/runnable_repository.go: the order of the rows that a claim chooses from.
use breakfix.Prelude.{
  ◌≤◌, Bool, true, not, ◌&&◌, List, [], ◌∷◌, Option, none, some, ◌≡◌, arith, Among, inl, inr, ap,
  ◌∙◌, Bool-cases, Option-cases,
}
use breakfix.Text.{Text}
use breakfix.Runnable.Model.{Time}
use breakfix.Repository.{ActionRow}
use breakfix.Repository.Actions.{is_due, comes_first, sooner, first_due}

-- No row that is due and free is to run before the first of the rows of the claim.
abbrev pub NotAfter : Time → (Text → Bool) → Text × ActionRow → Text × ActionRow → Type 0
NotAfter now locked e f =
    (is_due now f.1 && not (locked f.0)) ≡ true → e.1.next_run_at ≤ f.1.next_run_at

sooner_least :
    (collate : Text → Text → Bool) (e f : Text × ActionRow) (o : Option (Text × ActionRow))
    → sooner collate e o ≡ some f
    → (f.1.next_run_at ≤ e.1.next_run_at)
      × ((g : Text × ActionRow) → o ≡ some g → f.1.next_run_at ≤ g.1.next_run_at)
unfolding sooner comes_first
sooner_least collate e f none h =
    let same : e ≡ f = ground arith in (rw (← same) (omega arith), λ g k. absurd (ground arith))
sooner_least collate e f (some g) h = elim (Bool-cases (comes_first collate e g)) [
  | inl before ↦
      let same : e ≡ f = ground arith in
      (
        rw (← same) (omega arith),
        λ g' k. let at : g ≡ g' = ground arith in rw (← same, ← at) (ground arith),
      )
  | inr after ↦
      let same : g ≡ f = ground arith in
      (
        rw (← same) (ground arith),
        λ g' k. let at : g ≡ g' = ground arith in rw (← same, ← at) (omega arith),
      )
]

sooner_some :
    (collate : Text → Text → Bool) (e : Text × ActionRow) (o : Option (Text × ActionRow))
    → sooner collate e o ≡ none
    → ⊥
unfolding sooner
sooner_some collate e none h = ground arith
sooner_some collate e (some g) h = ground arith

none_due :
    (collate : Text → Text → Bool) (now : Time) (locked : Text → Bool) (m : List (Text × ActionRow))
    (f : Text × ActionRow)
    → first_due collate now locked m ≡ none
    → Among f m
    → (is_due now f.1 && not (locked f.0)) ≡ true
    → ⊥
unfolding first_due
none_due collate now locked [] f h x free = elim x [ ]
none_due collate now locked ((j, s) ∷ m) f h x free =
    elim (Bool-cases (is_due now s && not (locked j))) [
      | inl good ↦ sooner_some collate (j, s) (first_due collate now locked m) (ground arith)
      | inr other ↦ elim x [
        | inl here ↦
            let bad : (is_due now s && not (locked j)) ≡ true =
              ap (λ p. is_due now p.1 && not (locked p.0)) here ∙ free in
            ground arith
        | inr later ↦ none_due collate now locked m f (ground arith) later free
      ]
    ]

pub first_due_least :
    (collate : Text → Text → Bool) (now : Time) (locked : Text → Bool) (m : List (Text × ActionRow))
    (e f : Text × ActionRow)
    → first_due collate now locked m ≡ some e
    → Among f m
    → NotAfter now locked e f
unfolding first_due
first_due_least collate now locked [] e f h x free = elim x [ ]
first_due_least collate now locked ((j, s) ∷ m) e f h x free =
    elim (Bool-cases (is_due now s && not (locked j))) [
      | inr other ↦ elim x [
        | inl here ↦ absurd (
            let bad : (is_due now s && not (locked j)) ≡ true =
              ap (λ p. is_due now p.1 && not (locked p.0)) here ∙ free in
            ground arith)
        | inr later ↦ first_due_least collate now locked m e f (ground arith) later free
      ]
      | inl good ↦
          let first : sooner collate (j, s) (first_due collate now locked m) ≡ some e =
            ground arith in
          let (least, rest) =
            sooner_least collate (j, s) e (first_due collate now locked m) first in
          elim x [
            | inl here ↦ rw (← here) least
            | inr later ↦ elim (Option-cases (first_due collate now locked m)) [
              | inl idle ↦ absurd (none_due collate now locked m f idle later free)
              | inr (g, found) ↦
                  let before : g.1.next_run_at ≤ f.1.next_run_at =
                    first_due_least collate now locked m g f found later free in
                  let mine : e.1.next_run_at ≤ g.1.next_run_at = rest g found in omega arith
            ]
          ]
    ]
