-- ===== src/Errors.antt =====
-- Go errors as values: `errors.New` and `fmt.Errorf`, the helpers `invalid` and `unsupported` of
-- internal/domain/runnable/model.go, and the `*ArtifactFailure` that carries a code.
pub mod Render
use breakfix.Prelude.{
  ℕ, String, Bool, true, false, not, ◌≡◌, refl, Option, none, some, ◌⊎◌, ◌↔◌, inl, inr, arith,
}
use breakfix.Text.{Text}

-- A formatted field name such as `validation_plan.phases[3].actions[0].id`.
pub data Field : Type 0 where
  name : String → Field
  sub : Field → String → Field
  index : Field → ℕ → Field

pub data Error : Type 0 where
  plain : String → Error
  invalid : Field → String → Error
  unsupported : Text → Field → Error
  wrapped : String → Error → Error
  artifact_failure : (code summary : Text) → Error
  external : Text → Error
  action_failed : (failure_class code summary : Text) → Error
  reap_not_found reap_lease_lost resource_absent action_lease_lost deadline_exceeded : Error

pub data Result (A : Type 0) : Type 0 where
  ok : A → Result A
  err : Error → Result A

-- A Go function that returns only an `error`; nil is `ok tt`.
abbrev pub Check : Type 0
Check = Result (Unit {0})

-- `a, err := m; if err != nil { return err }`, and the rest of the function on `a`.
infixl 5 ◌>>=◌ ◌>>◌
abbrev pub ◌>>=◌ : {Answer Next : Type 0} → Result Answer → (Answer → Result Next) → Result Next
m >>= rest = elim m [ err x ↦ err x | ok answer ↦ rest answer ]

-- `if err := m; err != nil { return err }`, and the rest of the function.
abbrev pub ◌>>◌ : {Next : Type 0} → Check → Result Next → Result Next
check >> rest = elim check [ err x ↦ err x | ok t ↦ rest ]

-- `if test { return e }`
abbrev pub reject : Bool → Error → Check
reject true e = err e
reject false e = ok tt

-- `if err := m; err != nil { return f(err) }`
abbrev pub map_err : {A : Type 0} → (Error → Error) → Result A → Result A
map_err f (ok a) = ok a
map_err f (err e) = err (f e)

-- `err == nil`
abbrev pub is_ok : {A : Type 0} → Result A → Bool
is_ok (ok a) = true
is_ok (err e) = false

-- errors.As(err, &artifact): the code and the summary of an artifact failure under the wrappings.
unfoldable pub as_artifact : Error → Option (Text × Text)
as_artifact (artifact_failure code summary) = some (code, summary)
as_artifact (wrapped context e) = as_artifact e
as_artifact _ = none

-- errors.Is(err, ErrResourceAbsent)
unfoldable pub is_resource_absent : Error → Bool
is_resource_absent resource_absent = true
is_resource_absent (wrapped context e) = is_resource_absent e
is_resource_absent _ = false

-- errors.Is(err, ErrActionLeaseLost)
unfoldable pub is_lease_lost : Error → Bool
is_lease_lost action_lease_lost = true
is_lease_lost (wrapped context e) = is_lease_lost e
is_lease_lost _ = false

-- errors.Is(err, context.DeadlineExceeded)
unfoldable pub is_deadline : Error → Bool
is_deadline deadline_exceeded = true
is_deadline (wrapped context e) = is_deadline e
is_deadline _ = false

pub ok_injective : {A : Type 0} {a b : A} → ok a ≡ ok b → a ≡ b
ok_injective h = ground arith

pub >>=-eq-ok :
    {Answer Next : Type 0} (m : Result Answer) (rest : Answer → Result Next) {b : Next}
    → (m >>= rest) ≡ ok b
    → (answer : Answer) × (m ≡ ok answer) × (rest answer ≡ ok b)
>>=-eq-ok (err x) rest h = ground arith
>>=-eq-ok (ok answer) rest h = (answer, refl, h)

pub >>-eq-ok :
    {B : Type 0} (m : Check) (k : Result B) {b : B} → (m >> k) ≡ ok b → (m ≡ ok tt) × (k ≡ ok b)
>>-eq-ok (ok tt) k h = (refl, h)
>>-eq-ok (err e) k h = ground arith

pub bind_ok :
    {A B : Type 0} (m : Result A) (f : A → Result B) {a : A} {b : Result B}
    → m ≡ ok a
    → f a ≡ b
    → (m >>= f) ≡ b
bind_ok m f h k = rw h k

pub Result-cases :
    {A : Type 0} (m : Result A) → ((a : A) × (m ≡ ok a)) ⊎ ((e : Error) × (m ≡ err e))
Result-cases (ok a) = inl (a, refl)
Result-cases (err e) = inr (e, refl)

pub is_ok-eq : (m : Check) → is_ok m ≡ true → m ≡ ok tt
is_ok-eq (ok t) h = refl
is_ok-eq (err e) h = ground arith

pub reject-eq-ok : (b : Bool) (e : Error) → reject b e ≡ ok tt → b ≡ false
reject-eq-ok true e h = ground arith
reject-eq-ok false e h = refl

pub reject-not : (b : Bool) (e : Error) → reject (not b) e ≡ ok tt → b ≡ true
reject-not true e h = refl
reject-not false e h = ground arith

-- A sequence succeeds exactly when both parts do.
pub >>-ok_iff :
    {B : Type 0} (m : Check) (k : Result B) {b : B} → ((m >> k) ≡ ok b) ↔ ((m ≡ ok tt) × (k ≡ ok b))
>>-ok_iff (ok tt) k = (λ h. (refl, h), λ h. h.1)
>>-ok_iff (err e) k = (λ h. absurd (ground arith), λ h. absurd (ground arith))

pub map_err-eq-ok :
    {A : Type 0} (f : Error → Error) (m : Result A) {a : A} → map_err f m ≡ ok a → m ≡ ok a
map_err-eq-ok f (ok a) h = h
map_err-eq-ok f (err e) h = absurd (ground arith)
