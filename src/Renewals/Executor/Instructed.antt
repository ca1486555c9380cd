-- ===== src/Renewals/Executor/Instructed.antt =====
-- What an instruction must have, and what it asks for, apart from the code that checks it and builds it.
use rsg_hermes.Prelude.{
  ◌≡◌, ◌≢◌, refl, ◌∙◌, Bool, true, false, Option, none, some, [], ◌∷◌, arith, inl, inr, ◌⊎◌,
  if◌then◌else◌, Bool-cases, Option-cases,
}
use rsg_hermes.Prelude.Text.{Text, codes, text_eq}
use rsg_hermes.Prelude.Dict.{Dict, get, assign, get-assign}
use rsg_hermes.Overrides.{Value}
use rsg_hermes.Renewals.Executor.Calls.{
  History, Env, update_policy, insert_task, manage_notes, Note, Task,
}
use rsg_hermes.Renewals.Executor.Instruction.{
  Action, request_terms, prepare_options, client_follow_up, update_ams, action_named, JobContext,
  Policy,
}
use rsg_hermes.Renewals.Executor.Pipeline.{
  incomplete, lacks_fields, merged, database_id, update_body, note_body, build_task_payload,
  is_note,
}
use rsg_hermes.Renewals.Executor.Writes.{approved_writes, contact_write, onto}

-- The instruction is one of the four, somebody has approved it at some time, it names a policy, a
-- renewal and the result that is expected, and an update has fields.
pub record IsApproved (ctx : JobContext) : Type 0 where
  pub action : Action
  pub known : action_named ctx.action ≡ some action
  pub by_somebody : ctx.approved_by ≢ []
  pub at_some_time : (ctx.approved_at ≢ none) × (ctx.approved_at ≢ some [])
  pub policy : ctx.policy_number ≢ []
  pub result : ctx.expected_result ≢ []
  pub renewal : ctx.renewal_id ≢ []
  pub fields : (action ≢ update_ams) ⊎ (ctx.fields ≢ [])

has_fields :
    (a : Action) (fields : Dict Value)
    → lacks_fields a fields ≡ false
    → (a ≢ update_ams) ⊎ (fields ≢ [])
has_fields request_terms fields h = inl (λ e. cc)
has_fields prepare_options fields h = inl (λ e. cc)
has_fields client_follow_up fields h = inl (λ e. cc)
has_fields update_ams [] h = cc
has_fields update_ams (x ∷ fields) h = inr (λ e. cc)

pub IsApproved-if_complete : (ctx : JobContext) → incomplete ctx ≡ none → IsApproved ctx
unfolding incomplete
IsApproved-if_complete ctx h = elim (Option-cases (action_named ctx.action)) [
  | inl e ↦ absurd (ground (arith, rw (e, incomplete) at h))
  | inr (a, e) ↦
      let clear = rw (e, incomplete) at h in
      record {
        action = a;
        known = e;
        by_somebody = λ f. ground (arith, clear, f);
        at_some_time = (λ f. ground (arith, clear, f), λ f. ground (arith, clear, f));
        policy = λ f. ground (arith, clear, f);
        result = λ f. ground (arith, clear, f);
        renewal = λ f. ground (arith, clear, f);
        fields = has_fields a ctx.fields (ground (arith, clear));
      }
]

abbrev pub kept_or : Option Value → Option Value → Option Value
kept_or none o = o
kept_or (some v) o = some v

-- The value of the last entry of a key.
abbrev pub last_of : Text → Dict Value → Option Value
last_of k [] = none
last_of k ((j, v) ∷ d) = kept_or (last_of k d) (if text_eq j k then some v else none)

-- What an update sends at a key: the approved value, and else nothing but the policy's id.
abbrev pub approved_value : JobContext → Policy → Text → Option Value
approved_value ctx p k =
    kept_or (last_of k ctx.fields)
      (if text_eq (codes "DatabaseId") k then some (database_id p) else none)

get-merged :
    (k : Text) (fields base : Dict Value)
    → get k (merged base fields) ≡ kept_or (last_of k fields) (get k base)
unfolding merged
get-merged k [] base = refl
get-merged k ((j, v) ∷ fields) base =
    get-merged k fields (assign j v base) ∙ step (last_of k fields)
  where
    step :
        (o : Option Value)
        → kept_or o (get k (assign j v base))
          ≡ kept_or (kept_or o (if text_eq j k then some v else none)) (get k base)
    step (some w) = refl
    step none = elim (Bool-cases (text_eq j k)) [
      | inl e ↦ get-assign j k v base ∙ rw e refl
      | inr e ↦ get-assign j k v base ∙ rw e refl
    ]

get-update_body :
    (ctx : JobContext) (p : Policy) (k : Text) → get k (update_body ctx p) ≡ approved_value ctx p k
unfolding update_body get
get-update_body ctx p k = get-merged k ctx.fields ((codes "DatabaseId", database_id p) ∷ [])

-- The calls that change the AMS before and after a job that has done what its instruction asks for:
-- preparing options changes nothing; an update sends the policy once, with the approved values and the
-- policy's id and nothing else; and a contact adds one note of the renewal or one task on the policy.
abbrev pub IsInstructed : JobContext → Policy → Option Action → History → History → Type 0
IsInstructed ctx p (some prepare_options) before after = after ≡ before
IsInstructed ctx p (some update_ams) before after =
    (body : Policy) × (after ≡ update_policy body ∷ before)
    × ((k : Text) → get k body ≡ approved_value ctx p k)
IsInstructed ctx p _ before after =
    ((n : Note) × (after ≡ manage_notes n ∷ before) × (n.renewal_id ≡ ctx.renewal_id))
    ⊎ ((t : Task) × (after ≡ insert_task t ∷ before) × (t.policy_number ≡ ctx.policy_number))

module _ (env : Env) (ctx : JobContext) (p : Policy) where
  contact_instructed :
      (b : Bool) (w : History)
      → ((n : Note) × (contact_write env ctx p b ∷ w ≡ manage_notes n ∷ w)
          × (n.renewal_id ≡ ctx.renewal_id))
        ⊎ ((t : Task) × (contact_write env ctx p b ∷ w ≡ insert_task t ∷ w)
            × (t.policy_number ≡ ctx.policy_number))
  unfolding note_body build_task_payload
  contact_instructed true w = inl (note_body ctx p, refl, refl)
  contact_instructed false w = inr (build_task_payload env.today ctx p, refl, refl)

  pub instructed :
      (a : Option Action) (w : History)
      → IsInstructed ctx p a w (onto (approved_writes env ctx p a) w)
  instructed none w = contact_instructed (is_note ctx) w
  instructed (some request_terms) w = contact_instructed (is_note ctx) w
  instructed (some prepare_options) w = refl
  instructed (some client_follow_up) w = contact_instructed (is_note ctx) w
  instructed (some update_ams) w = (update_body ctx p, refl, get-update_body ctx p)
