-- ===== src/Repository/Keys.antt =====
-- internal/domain/runnable/action.go: the key of an action, which is the primary key of its row.
use mathlib.Core.List.{append_assoc}
use breakfix.Prelude.{
  ℕ, ℤ, pos, negsuc, suc, zero, ◌+◌, ◌/◌, ◌%◌, Bool, true, not, [], ◌∷◌, ◌++◌, ◌==◌, ◌≡◌, refl,
  arith, sym, ◌∙◌,
}
use breakfix.Text.{Text, all}
use breakfix.Text.Laws.{all-append}
use breakfix.Text.Path.{slash, join}
use breakfix.Errors.Render.{digits}
use breakfix.Runnable.Kinds.{ActionPhase, phase_text, phase_valid}
use breakfix.Runnable.Action.{ActionIdentity, action_key, int_text}

abbrev no_slash : ℕ → Bool
no_slash c = not (c == slash)

has_slash : (t b : Text) → all no_slash (t ++ slash ∷ b) ≡ true → ⊥
unfolding all
has_slash [] b h = ground arith
has_slash (c ∷ t) b h = has_slash t b (ground arith)

not_inside : (t a b : Text) (c : ℕ) → all no_slash a ≡ true → slash ∷ a ≡ (c ∷ t) ++ slash ∷ b → ⊥
not_inside t a b c p e =
    let inside : a ≡ t ++ slash ∷ b = ground arith in has_slash t b (rw (← inside) p)

-- The last component of a path is determined, and so is what stands before it.
last_component :
    (s t a b : Text)
    → all no_slash a ≡ true
    → all no_slash b ≡ true
    → s ++ slash ∷ a ≡ t ++ slash ∷ b
    → (s ≡ t) × (a ≡ b)
last_component [] [] a b p q e = (refl, ground arith)
last_component [] (c ∷ t) a b p q e = absurd (not_inside t a b c p e)
last_component (c ∷ s) [] a b p q e = absurd (not_inside s b a c q (sym e))
last_component (c ∷ s) (d ∷ t) a b p q e =
    let (here, there) = last_component s t a b p q (ground arith) in
    let head : c ≡ d = ground arith in (rw (head, here), there)

digit_no_slash : (n : ℕ) → no_slash (48 + n) ≡ true
digit_no_slash n = ground arith

digits-no_slash : (fuel n : ℕ) → all no_slash (digits fuel n) ≡ true
unfolding digits all
digits-no_slash zero n = refl
digits-no_slash (suc fuel) n =
    let rest : all no_slash (digits fuel (n / 10) ++ (48 + n % 10) ∷ []) ≡ true =
      all-append no_slash (digits fuel (n / 10)) ((48 + n % 10) ∷ [])
        (digits-no_slash fuel (n / 10)) (ground (arith, digit_no_slash (n % 10))) in
    ground (arith, digit_no_slash n)

int_no_slash : (n : ℤ) → all no_slash (int_text n) ≡ true
unfolding int_text all
int_no_slash (pos n) = digits-no_slash (suc n) n
int_no_slash (negsuc n) = digits-no_slash (suc (suc n)) (suc n)

phase_no_slash : (p : ActionPhase) → phase_valid p ≡ true → all no_slash (phase_text p) ≡ true
unfolding phase_valid phase_text all
phase_no_slash ActionPhase.materialize_artifact h = refl
phase_no_slash ActionPhase.verify h = refl
phase_no_slash (ActionPhase.other s) h = absurd (ground arith)

phase_text_injective :
    (p q : ActionPhase)
    → phase_valid p ≡ true
    → phase_valid q ≡ true
    → phase_text p ≡ phase_text q
    → p ≡ q
unfolding phase_valid phase_text
phase_text_injective ActionPhase.materialize_artifact ActionPhase.materialize_artifact h k e = refl
phase_text_injective ActionPhase.verify ActionPhase.verify h k e = refl
phase_text_injective ActionPhase.materialize_artifact ActionPhase.verify h k e =
    absurd (ground arith)
phase_text_injective ActionPhase.verify ActionPhase.materialize_artifact h k e =
    absurd (ground arith)
phase_text_injective (ActionPhase.other s) q h k e = absurd (ground arith)
phase_text_injective ActionPhase.materialize_artifact (ActionPhase.other s) h k e =
    absurd (ground arith)
phase_text_injective ActionPhase.verify (ActionPhase.other s) h k e = absurd (ground arith)

-- What stands before the phase in a key.
unfoldable before_phase : ActionIdentity → Text
before_phase i =
    i.content.kind ++ slash ∷ i.content.id ++ slash ∷ i.content.revision ++ slash ∷ i.spec_digest

key_parts :
    (i : ActionIdentity)
    → action_key i
      ≡ (before_phase i ++ slash ∷ phase_text i.phase) ++ slash ∷ int_text i.state_version
unfolding action_key join before_phase
key_parts i = simp (arith, append_assoc)

-- Two valid actions with the same key are in the same phase.
pub action_key-phase :
    (i j : ActionIdentity)
    → phase_valid i.phase ≡ true
    → phase_valid j.phase ≡ true
    → action_key i ≡ action_key j
    → i.phase ≡ j.phase
action_key-phase i j h k e =
    let (front, _) =
      last_component (before_phase i ++ slash ∷ phase_text i.phase)
        (before_phase j ++ slash ∷ phase_text j.phase) (int_text i.state_version)
        (int_text j.state_version) (int_no_slash i.state_version) (int_no_slash j.state_version)
        (sym (key_parts i) ∙ e ∙ key_parts j) in
    let (_, same) =
      last_component (before_phase i) (before_phase j) (phase_text i.phase) (phase_text j.phase)
        (phase_no_slash i.phase h) (phase_no_slash j.phase k) front in
    phase_text_injective i.phase j.phase h k same
