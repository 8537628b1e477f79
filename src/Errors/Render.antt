-- ===== src/Errors/Render.antt =====
-- The text of an error, `err.Error()`.
use breakfix.Prelude.{ℕ, zero, suc, ◌+◌, ◌/◌, ◌%◌, [], ◌∷◌, ◌++◌, ltb, ◌≡◌, refl, if◌then◌else◌}
use breakfix.Text.{Text, codes, is_empty}
use breakfix.Text.Trim.{trim_space}
use breakfix.Errors.{Field, Error}

-- The decimal digits of a number; the fuel is at least the number of digits.
unfoldable pub digits : (fuel : ℕ) → ℕ → Text
digits zero n = []
digits (suc fuel) n =
    let rest = digits fuel (n / 10) in
    if ltb n 10 then (48 + n) ∷ [] else rest ++ (48 + n % 10) ∷ []

unfoldable pub field_text : Field → Text
unfolding digits
field_text (Field.name s) = codes s
field_text (Field.sub f s) = field_text f ++ codes "." ++ codes s
field_text (Field.index f n) = field_text f ++ codes "[" ++ digits (suc n) n ++ codes "]"

unfoldable pub error_text : Error → Text
unfolding field_text trim_space
error_text (Error.plain s) = codes s
error_text (Error.invalid f s) = codes "runnable " ++ field_text f ++ codes " " ++ codes s
error_text (Error.unsupported v f) =
    codes "runnable " ++ field_text f ++ codes " is unsupported: " ++ v
error_text (Error.wrapped s e) = codes s ++ codes ": " ++ error_text e
error_text (Error.artifact_failure code summary) =
    if is_empty (trim_space summary) then codes "runnable artifact failure" else summary
error_text (Error.external s) = s
error_text (Error.action_failed failure_class code summary) =
    codes "runnable action failed: "
    ++ summary
    ++ codes " ["
    ++ failure_class
    ++ codes "/"
    ++ code
    ++ codes "]"
error_text Error.reap_not_found = codes "runnable reap request not found"
error_text Error.reap_lease_lost = codes "runnable reap lease lost"
error_text Error.resource_absent = codes "runnable resource absent"
error_text Error.action_lease_lost = codes "runnable action lease lost"
error_text Error.deadline_exceeded = codes "context deadline exceeded"

index_text :
    field_text (Field.sub (Field.index (Field.name "phases") 12) "id") ≡ codes "phases[12].id"
unfolding field_text
index_text = refl
