-- ===== src/Renewals/Executor/Pipeline.antt =====
-- hermes/renewals/executor.py: `process_job` and its stages. The guid of an insured is a text.
use rsg_hermes.Prelude.{
  ℕ, ◌+◌, Bool, true, false, Option, none, some, List, [], ◌∷◌, ◌++◌, or_else, if◌then◌else◌,
}
use rsg_hermes.Prelude.Text.{Text, codes, text_eq, strip, lower}
use rsg_hermes.Prelude.Dict.{Dict, get, assign}
use rsg_hermes.Overrides.{Value, text}
use rsg_hermes.Renewals.Lifecycle.{Lifecycle, normalize_status, is_dead, is_superseded}
use rsg_hermes.Renewals.Executor.Instruction.{
  Action, request_terms, prepare_options, update_ams, action_named, JobContext, Policy, value_at,
  or_value, stripped,
}
use rsg_hermes.Renewals.Executor.Calls.{
  Reason, unknown_action, missing_approval, missing_policy_number, missing_expected_result,
  missing_renewal_id, missing_fields, renewal_lookup_failed, renewal_not_found, insured_inactive,
  status_dead, status_superseded, Due, on_date, on_day, Task, Note, Response, other, Ids, no_ids,
  policy_database_id, note_id, task_ids, Step, Env, attempt, is_insured_active, extract_created_id,
  select_renewal, update_policy, insert_task, manage_notes,
}
use rsg_hermes.Renewals.Executor.Finish.{◌>>=◌, return}

-- What `_validate` finds: a reason to block, or the context with its renewal.
pub data Checked : Type 0 where
  stopped : Reason → Checked
  authorized : JobContext → Checked

abbrev pub with_renewal : JobContext → List Text → Checked
with_renewal ctx [] = stopped renewal_not_found
with_renewal ctx (i ∷ rest) = authorized (record ctx { renewal_row = some i })

-- `not s` of a text, and of an optional one.
abbrev pub is_empty : Text → Bool
is_empty [] = true
is_empty (c ∷ s) = false

abbrev pub is_absent : Option Text → Bool
is_absent none = true
is_absent (some s) = is_empty s

abbrev pub lacks_fields : Action → Dict Value → Bool
lacks_fields update_ams [] = true
lacks_fields _ _ = false

-- The checks of `_validate` that ask nobody.
unfoldable pub incomplete : JobContext → Option Reason
incomplete ctx = elim (action_named ctx.action) [
  | none ↦ some unknown_action
  | some a ↦
      if is_empty ctx.approved_by
      then some missing_approval
      else if is_absent ctx.approved_at
      then some missing_approval
      else if is_empty ctx.policy_number
      then some missing_policy_number
      else if is_empty ctx.expected_result
      then some missing_expected_result
      else if is_empty ctx.renewal_id
      then some missing_renewal_id
      else if lacks_fields a ctx.fields
      then some missing_fields
      else none
]

unfoldable pub validate : Env → JobContext → Step Checked
validate env ctx h = elim (incomplete ctx) [
  | some r ↦ (some (stopped r), h)
  | none ↦
      attempt (env.renewals ctx.renewal_id h) (λ rows. return (with_renewal ctx rows))
        (return (stopped renewal_lookup_failed)) (select_renewal ctx.renewal_id ∷ h)
]

abbrev pub text_of : Value → Text
text_of (text s) = s
text_of _ = []

unfoldable pub guid_of : Policy → Text
guid_of p =
    text_of
      (or_value (value_at (codes "insuredDatabaseId") p) (value_at (codes "InsuredDatabaseId") p))

unfoldable pub lifecycle_of : Policy → Lifecycle
lifecycle_of p = normalize_status (
    some (
      text_of (
        or_value (value_at (codes "policyStatus") p) (
          or_value (value_at (codes "PolicyStatus") p)
            (or_value (value_at (codes "status") p) (value_at (codes "Status") p))))))

-- The part of `_revalidate_eligibility` behind the insured.
abbrev pub lifecycle_stop : Lifecycle → Option Reason
lifecycle_stop s =
    if is_dead s
    then some (status_dead s)
    else if is_superseded s
    then some (status_superseded s)
    else none

unfoldable pub revalidate_eligibility : Env → Policy → Step (Option Reason)
revalidate_eligibility env before = do
  is_active ← is_insured_active env (guid_of before)
  return (if is_active then lifecycle_stop (lifecycle_of before) else some insured_inactive)

-- `{**base, **fields}`
unfoldable pub merged : Policy → Dict Value → Policy
merged base [] = base
merged base ((k, v) ∷ fields) = merged (assign k v base) fields

unfoldable pub database_id : Policy → Value
database_id p = or_value (value_at (codes "databaseId") p) (value_at (codes "DatabaseId") p)

unfoldable pub update_body : JobContext → Policy → Policy
update_body ctx before = merged ((codes "DatabaseId", database_id before) ∷ []) ctx.fields

-- `d.get(k) or default`
abbrev pub or_text : Option Text → Text → Text
or_text none d = d
or_text (some []) d = d
or_text (some (c ∷ s)) d = c ∷ s

abbrev default_title : Option Action → Text
default_title (some request_terms) = codes "Renewal — request terms"
default_title _ = codes "Renewal — client follow-up"

unfoldable pub task_title : JobContext → Text
task_title ctx = or_text (get (codes "title") ctx.payload) (default_title (action_named ctx.action))

unfoldable pub task_body : JobContext → Text
task_body ctx = strip (
    or_text (some (stripped (get (codes "note") ctx.payload))) ctx.expected_result
    ++ (codes "\n\nApproved by: " ++ ctx.approved_by))

-- `p.get(k) or before.get(…)`, of a text of the payload.
abbrev id_or : Option Text → Value → Value
id_or none v = v
id_or (some []) v = v
id_or (some (c ∷ s)) v = text (c ∷ s)

abbrev due_of : ℕ → JobContext → Due
due_of today ctx = elim (get (codes "due_date") ctx.payload) [
  | some (c ∷ s) ↦ on_date (c ∷ s)
  | _ ↦ on_day (today + or_else ctx.due_in_days 7)
]

unfoldable pub build_task_payload : ℕ → JobContext → Policy → Task
build_task_payload today ctx before = record {
  title = task_title ctx;
  status = or_text (get (codes "task_status") ctx.payload) (codes "Open");
  priority = or_text (get (codes "task_priority") ctx.payload) (codes "Normal");
  due_date = due_of today ctx;
  description = task_body ctx;
  insured_database_id =
      id_or (get (codes "insured_database_id") ctx.payload)
        (value_at (codes "insuredDatabaseId") before);
  policy_number = ctx.policy_number;
  category_name = or_text (get (codes "category_name") ctx.payload) (codes "Renewal");
}

unfoldable pub note_body : JobContext → Policy → Note
note_body ctx before = record {
  database_id =
      id_or (get (codes "momentum_client_id") ctx.payload)
        (value_at (codes "insuredDatabaseId") before);
  title = task_title ctx;
  note = task_body ctx;
  renewal_id = ctx.renewal_id;
}

unfoldable pub is_note : JobContext → Bool
is_note ctx =
    text_eq (lower (strip (or_text (get (codes "channel") ctx.payload) (codes "task"))))
      (codes "note")

-- What `_execute` ends with: the result and the ids, or an error of the AMS clients.
pub data Executed : Type 0 where
  done : Response → Ids → Executed
  refused : Executed

module _ (env : Env) (ctx : JobContext) where
  unfoldable pub execute_contact : Policy → Step Executed
  execute_contact before h = elim (is_note ctx) [
    | true ↦
        attempt (env.notes h) (λ r. return (done r (note_id (extract_created_id r))))
          (return refused) (manage_notes (note_body ctx before) ∷ h)
    | false ↦
        attempt (env.tasks h)
          (λ r. return (
            done r (
              task_ids (extract_created_id r)
                (build_task_payload env.today ctx before).insured_database_id)))
          (return refused) (insert_task (build_task_payload env.today ctx before) ∷ h)
  ]

  unfoldable pub execute : Option Action → Policy → Step Executed
  execute (some prepare_options) before h = (some (done other no_ids), h)
  execute (some update_ams) before h =
      attempt (env.updates h) (λ r. return (done other (policy_database_id (database_id before))))
        (return refused) (update_policy (update_body ctx before) ∷ h)
  execute _ before h = execute_contact before h
