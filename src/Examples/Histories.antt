-- ===== src/Examples/Histories.antt =====
-- The theorems on the tables, on the calls of Examples/Tables.
use breakfix.Prelude.{◌≡◌, refl, none, some, true, false, pos, arith, ap, Option}
use breakfix.Text.{Text, codes}
use breakfix.Errors.{Field, ok, is_ok}
use breakfix.Runnable.Reap.{is_blank}
use breakfix.Runnable.Kinds.{FailureClass}
use breakfix.Runnable.Model.{max_id_length}
use breakfix.Runnable.Ident.{required_string}
use breakfix.Runnable.Action.{ActionContext, action_key, validate_credential}
use breakfix.Text.Dict.{lookup}
use breakfix.Repository.{ActionRow, Tables, held_row}
use breakfix.Repository.Actions.{claim_action, report_action_failure}
use breakfix.Repository.Scheduling.{schedule_materialization}
use breakfix.Repository.Valid.{IsTables}
use breakfix.Repository.History.{
  no_tables, Step, schedules_build, claims, builds, stores_source, Reach, here, next,
  reached-IsTables,
}
use breakfix.Repository.Final.{completed_final}
use breakfix.Repository.Claims.{claim_succeeds}
use breakfix.Repository.Taken.{Taken, claim_takes}
use breakfix.Repository.Retries.{Decided, report_decides}
use breakfix.Examples.Data.{spec}
use breakfix.Examples.Tables.{
  narrow, backend, apart, action, key, scheduled, running_row, running, context, stored,
  finished_row, completed, source_kept, action_enqueued, action_claimed, action_completed,
}

chained : {t u v : Tables} → u ≡ v → Step backend t u → Step backend t v
chained e s = rw (← e) s

to_scheduled : Reach backend no_tables scheduled
to_scheduled =
    next (next here (stores_source spec.source (codes "zip") 4 source_kept))
      (chained (ap (λ m. m.1) action_enqueued) (schedules_build spec (pos 1) 5))

to_running : Reach backend no_tables running
to_running =
    next to_scheduled
      (claims (codes "w") (pos 100) 6 (λ k. false) (some context, running) action_claimed)

to_completed : Reach backend no_tables completed
to_completed = next to_running (builds context.credential stored 8 action_completed)

reached-IsTables_example : IsTables narrow completed
reached-IsTables_example = reached-IsTables backend apart completed to_completed

scheduled-IsTables : IsTables narrow scheduled
scheduled-IsTables = reached-IsTables backend apart scheduled to_scheduled

-- The same action is scheduled again.
again : Reach backend completed (schedule_materialization backend spec (pos 1) 9 completed).1
again = next here (schedules_build spec (pos 1) 9)

completed_found : lookup key completed.actions ≡ some finished_row
unfolding lookup breakfix.Text.text_eq
completed_found = refl

completed_final_example :
    lookup key (schedule_materialization backend spec (pos 1) 9 completed).1.actions
    ≡ some finished_row
completed_final_example =
    completed_final apart key finished_row (reached-IsTables backend apart completed to_completed)
      again completed_found (unfold breakfix.Repository.row_completed in refl)

owner_fits : required_string (codes "w") (Field.name "action.lease_owner") max_id_length ≡ ok tt
unfolding required_string breakfix.Text.Trim.trim_space
owner_fits = refl

claim_succeeds_example :
    (made : Option ActionContext × Tables) × (claim_action backend
        (codes "w")
        (pos 100)
        6
        (λ k. false)
        scheduled
      ≡ ok made)
claim_succeeds_example =
    claim_succeeds backend scheduled (codes "w") owner_fits scheduled-IsTables (pos 100) 6
      (λ k. false) refl (omega arith)

claim_takes_example : Taken backend (codes "w") (pos 100) 6 (λ k. false) scheduled context running
claim_takes_example =
    claim_takes backend (codes "w") (pos 100) 6 (λ k. false) scheduled running context
      scheduled-IsTables action_claimed

running_held : held_row context.credential 7 running ≡ some running_row
unfolding breakfix.Text.Dict.lookup breakfix.Runnable.Action.record_id
    breakfix.Runnable.Kinds.phase_text breakfix.Repository.held_row
running_held = refl

holder_valid : is_ok (validate_credential context.credential) ≡ true
unfolding breakfix.Text.contains breakfix.Text.all breakfix.Runnable.Ident.valid_digest
    breakfix.Runnable.Ident.validate_id breakfix.Runnable.Ident.required_string
    breakfix.Runnable.Kinds.phase_valid breakfix.Runnable.Profile.validate_identity
    breakfix.Runnable.Action.validate_action_identity breakfix.Runnable.Action.validate_credential
holder_valid = refl

not_blank : (is_blank (codes "net") ≡ false) × (is_blank (codes "no route") ≡ false)
unfolding breakfix.Text.Trim.is_ascii_space breakfix.Text.Trim.is_space_pair
    breakfix.Text.Trim.is_space_triple breakfix.Text.Trim.space_width breakfix.Text.Trim.first_width
    breakfix.Text.Trim.last_width breakfix.Text.Trim.drop_space breakfix.Text.Trim.trim_space
not_blank = (refl, refl)

report_decides_example :
    (t' : Tables) × (after : ActionRow) × (report_action_failure backend context.credential
        FailureClass.infrastructure
        (codes "net")
        (codes "no route")
        7
        running
      ≡ ok t')
    × (lookup (action_key action) t'.actions ≡ some after)
    × (after.lease_expires ≡ none)
    × (after.failure_class ≡ some FailureClass.infrastructure)
    × Decided FailureClass.infrastructure (codes "net") 7 running_row after
report_decides_example =
    report_decides backend context.credential FailureClass.infrastructure (codes "net")
      (codes "no route") 7 running running_row holder_valid
      (unfold breakfix.Runnable.Kinds.class_valid in refl) (not_blank.0) (not_blank.1) (omega arith)
      running_held
