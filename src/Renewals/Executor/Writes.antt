-- ===== src/Renewals/Executor/Writes.antt =====
-- What a job of the executor writes to the AMS, and when.
use rsg_hermes.Prelude.{
  ◌≡◌, refl, ◌∙◌, Bool, true, false, Option, none, some, [], ◌∷◌, arith, inl, inr, Bool-cases,
}
use rsg_hermes.Renewals.Executor.Calls.{
  Call, History, Env, update_policy, insert_task, manage_notes, Ids, Response,
}
use rsg_hermes.Renewals.Executor.Instruction.{
  Action, request_terms, prepare_options, client_follow_up, update_ams, action_named, JobContext,
  Policy,
}
use rsg_hermes.Renewals.Executor.Finish.{return}
use rsg_hermes.Renewals.Executor.Pipeline.{
  update_body, note_body, build_task_payload, is_note, execute, execute_contact, Executed, done,
  refused,
}
use rsg_hermes.Renewals.Executor.Process.{
  Check, confirmed, unconfirmed, verify, on_check, on_executed, perform,
}
use rsg_hermes.Renewals.Executor.Steps.{
  only, is_ams, Quiet, >>=-Quiet, >>=-tail, return-Quiet, complete-Quiet, fail-Quiet, find-Quiet,
}

abbrev pub contact_write : Env → JobContext → Policy → Bool → Call
contact_write env ctx before true = manage_notes (note_body ctx before)
contact_write env ctx before false = insert_task (build_task_payload env.today ctx before)

-- The write that an instruction asks for: none, the update, or a task or note.
abbrev pub approved_writes : Env → JobContext → Policy → Option Action → History
approved_writes env ctx before (some prepare_options) = []
approved_writes env ctx before (some update_ams) = update_policy (update_body ctx before) ∷ []
approved_writes env ctx before _ = contact_write env ctx before (is_note ctx) ∷ []

abbrev pub onto : History → History → History
onto [] h = h
onto (c ∷ w) h = c ∷ onto w h

module _ (env : Env) (ctx : JobContext) (before : Policy) where
  contact_writes :
      (h : History)
      → only is_ams (execute_contact env ctx before h).1
        ≡ contact_write env ctx before (is_note ctx) ∷ only is_ams h
  unfolding execute_contact return
  contact_writes h = elim (Bool-cases (is_note ctx)) [
    | inl e ↦ rw (e, execute_contact) (ground arith)
    | inr e ↦ rw (e, execute_contact) (ground arith)
  ]

  execute_writes :
      (a : Option Action) (h : History)
      → only is_ams (execute env ctx a before h).1
        ≡ onto (approved_writes env ctx before a) (only is_ams h)
  unfolding execute return
  execute_writes none h = contact_writes h
  execute_writes (some request_terms) h = contact_writes h
  execute_writes (some prepare_options) h = refl
  execute_writes (some client_follow_up) h = contact_writes h
  execute_writes (some update_ams) h = ground arith

  pub verify-Quiet : (a : Option Action) (r : Response) → Quiet is_ams (verify env ctx a r before)
  unfolding verify
  verify-Quiet none r = record { quiet = λ h. refl }
  verify-Quiet (some request_terms) r = record { quiet = λ h. refl }
  verify-Quiet (some prepare_options) r = record { quiet = λ h. refl }
  verify-Quiet (some client_follow_up) r = record { quiet = λ h. refl }
  verify-Quiet (some update_ams) r = record {
    quiet = (>>=-Quiet (find-Quiet env (λ n. refl) ctx.policy_number) (λ a. return-Quiet _)).quiet;
  }

  on_check-Quiet : (ids : Ids) (c : Check) → Quiet is_ams (on_check env ctx before ids c)
  on_check-Quiet ids (confirmed after) = complete-Quiet env ctx _ _ _ _
  on_check-Quiet ids (unconfirmed r after) = fail-Quiet env ctx _ _ _ _

  pub on_executed-Quiet : (x : Executed) → Quiet is_ams (on_executed env ctx before x)
  on_executed-Quiet refused = fail-Quiet env ctx _ _ _ _
  on_executed-Quiet (done r ids) = >>=-Quiet (verify-Quiet _ r) (on_check-Quiet ids)

  pub perform_writes :
      (h : History)
      → only is_ams (perform env ctx before h).1
        ≡ onto (approved_writes env ctx before (action_named ctx.action)) (only is_ams h)
  unfolding perform
  perform_writes h = >>=-tail _ _ on_executed-Quiet h ∙ execute_writes _ h
