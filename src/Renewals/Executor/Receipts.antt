-- ===== src/Renewals/Executor/Receipts.antt =====
-- The calls by which a job that returns files its receipt and its queue status.
use mathlib.Core.Path.{subst}
use rsg_hermes.Prelude.{
  ◌≡◌, refl, ◌∙◌, Bool, true, false, Option, none, some, ap, inl, inr, Bool-cases,
}
use rsg_hermes.Prelude.Text.{Text}
use rsg_hermes.Renewals.Executor.Calls.{
  History, Step, Env, Reading, missing, ambiguous, found, Reason, Ids, Response,
}
use rsg_hermes.Renewals.Executor.Instruction.{
  Action, request_terms, prepare_options, client_follow_up, update_ams, action_named, JobContext,
  Row, Policy, load,
}
use rsg_hermes.Renewals.Executor.Finish.{JobOutcome}
use rsg_hermes.Renewals.Executor.Pipeline.{
  validate, Checked, stopped, authorized, execute, execute_contact, Executed, done, refused,
  is_note,
}
use rsg_hermes.Renewals.Executor.Process.{
  verify, Check, confirmed, unconfirmed, on_check, on_executed, perform, compared, on_revalidated,
  on_reading, on_checked, process_job,
}
use rsg_hermes.Renewals.Executor.Steps.{
  is_filing, Quiet, find-Quiet, revalidate-Quiet, validate-Quiet, >>=-Quiet, return-Quiet,
  attempt-Quiet,
}
use rsg_hermes.Renewals.Executor.Filing.{
  IsFiled, >>=-returned, complete_files, block_files, fail_files,
}
use rsg_hermes.Renewals.Executor.Authority.{validate-authorized}

module _ (env : Env) where
  -- Calls of other kinds before the finalizer.
  IsFiled-Quiet :
      {A : Type 0} {m : Step A} (i : Text) (h h' : History) (o : JobOutcome)
      → Quiet is_filing m
      → IsFiled env i (m h).1 o h'
      → IsFiled env i h o h'
  IsFiled-Quiet i h h' o q f = record {
    receipt = f.receipt;
    filed = rw (← q.quiet h) f.filed;
    same_status = f.same_status;
    same_queue_id = f.same_queue_id;
    verified = f.verified;
    said = f.said;
    behind = f.behind;
    same_filings = f.same_filings ∙ q.quiet h;
    receipt_id = f.receipt_id;
  }

  module _ (ctx : JobContext) (before : Policy) where
    contact-Quiet : Quiet is_filing (execute_contact env ctx before)
    unfolding execute_contact
    contact-Quiet = record {
      quiet = λ h. elim (Bool-cases (is_note ctx)) [
        | inl e ↦
            rw (e, execute_contact)
              (attempt-Quiet (env.notes h) _ _ _ refl (λ r. return-Quiet _) (return-Quiet _) h)
        | inr e ↦
            rw (e, execute_contact)
              (attempt-Quiet (env.tasks h) _ _ _ refl (λ r. return-Quiet _) (return-Quiet _) h)
      ];
    }

    execute-Quiet : (a : Option Action) → Quiet is_filing (execute env ctx a before)
    unfolding execute
    execute-Quiet none = record { quiet = contact-Quiet.quiet }
    execute-Quiet (some request_terms) = record { quiet = contact-Quiet.quiet }
    execute-Quiet (some prepare_options) = record { quiet = λ h. refl }
    execute-Quiet (some client_follow_up) = record { quiet = contact-Quiet.quiet }
    execute-Quiet (some update_ams) = record {
      quiet =
          λ h. attempt-Quiet (env.updates h) _ _ _ refl (λ r. return-Quiet _) (return-Quiet _) h;
    }

    verify-Quiet : (a : Option Action) (r : Response) → Quiet is_filing (verify env ctx a r before)
    unfolding verify
    verify-Quiet none r = record { quiet = λ h. refl }
    verify-Quiet (some request_terms) r = record { quiet = λ h. refl }
    verify-Quiet (some prepare_options) r = record { quiet = λ h. refl }
    verify-Quiet (some client_follow_up) r = record { quiet = λ h. refl }
    verify-Quiet (some update_ams) r = record {
      quiet =
          (>>=-Quiet (find-Quiet env (λ n. refl) ctx.policy_number) (λ a. return-Quiet _)).quiet;
    }

    check_files :
        (ids : Ids) (c : Check) (h h' : History) (o : JobOutcome)
        → on_check env ctx before ids c h ≡ (some o, h')
        → IsFiled env ctx.queue_id h o h'
    check_files ids (confirmed after) h h' o e = complete_files env ctx _ _ _ _ h h' o e
    check_files ids (unconfirmed r after) h h' o e = fail_files env ctx _ _ _ _ h h' o e

    executed_files :
        (x : Executed) (h h' : History) (o : JobOutcome)
        → on_executed env ctx before x h ≡ (some o, h')
        → IsFiled env ctx.queue_id h o h'
    executed_files refused h h' o e = fail_files env ctx _ _ _ _ h h' o e
    executed_files (done r ids) h h' o e =
        let (c, _, e1) = >>=-returned _ _ h h' o e in
        IsFiled-Quiet _ h h' o (verify-Quiet (action_named ctx.action) r)
          (check_files ids c _ h' o e1)

    compared_files :
        (b : Bool) (h h' : History) (o : JobOutcome)
        → compared env ctx before b h ≡ (some o, h')
        → IsFiled env ctx.queue_id h o h'
    unfolding perform
    compared_files true h h' o e = complete_files env ctx _ _ _ _ h h' o e
    compared_files false h h' o e =
        let (x, _, e1) = >>=-returned _ _ h h' o e in
        IsFiled-Quiet _ h h' o (execute-Quiet (action_named ctx.action))
          (executed_files x _ h' o e1)

    revalidated_files :
        (r : Option Reason) (h h' : History) (o : JobOutcome)
        → on_revalidated env ctx before r h ≡ (some o, h')
        → IsFiled env ctx.queue_id h o h'
    revalidated_files (some r) h h' o e = block_files env ctx r _ h h' o e
    revalidated_files none h h' o e = compared_files _ h h' o e

  reading_files :
      (ctx : JobContext) (x : Reading) (h h' : History) (o : JobOutcome)
      → on_reading env ctx x h ≡ (some o, h')
      → IsFiled env ctx.queue_id h o h'
  reading_files ctx missing h h' o e = block_files env ctx _ _ h h' o e
  reading_files ctx (ambiguous n) h h' o e = block_files env ctx _ _ h h' o e
  reading_files ctx (found p) h h' o e =
      let (r, _, e1) = >>=-returned _ _ h h' o e in
      IsFiled-Quiet _ h h' o (revalidate-Quiet env (λ n. refl) p)
        (revalidated_files ctx p r _ h' o e1)

  -- A job that returns an outcome has asked the client exactly once to insert a receipt, and then exactly
  -- once to set the status of its own queue row: `completed` if the outcome is that, and else `failed`
  -- with the reason. The receipt has the outcome as its status, and is verified exactly if the job is
  -- completed. The client's errors are swallowed, so the row and the receipt may still be missing: the
  -- outcome has the id that the client has answered for the receipt, and none if that was an error.
  pub job_files :
      (row : Row) (h h' : History) (o : JobOutcome)
      → process_job env row h ≡ (some o, h')
      → IsFiled env row.id h o h'
  unfolding process_job load
  job_files row h h' o e =
      let (c, f, e1) =
        >>=-returned (validate env (load row)) (on_checked env (load row)) h h' o e in
      IsFiled-Quiet _ h h' o (validate-Quiet env (λ n. refl) (load row)) (checked_files c f e1)
    where
      checked_files :
          (c : Checked)
          → (validate env (load row) h).0 ≡ some c
          → on_checked env (load row) c (validate env (load row) h).1 ≡ (some o, h')
          → IsFiled env row.id (validate env (load row) h).1 o h'
      checked_files (stopped r) f e1 = block_files env (load row) r _ _ h' o e1
      checked_files (authorized ctx) f e1 =
          let (i, ok, same, after) = validate-authorized env (load row) ctx h f in
          let (x, _, e2) = >>=-returned _ _ _ h' o e1 in
          let filed =
            IsFiled-Quiet _ _ h' o (find-Quiet env (λ n. refl) ctx.policy_number)
              (reading_files ctx x _ h' o e2) in
          subst (λ j. IsFiled env j (validate env (load row) h).1 o h')
            (ap (λ (c : JobContext). c.queue_id) same) filed
