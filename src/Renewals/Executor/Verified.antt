-- ===== src/Renewals/Executor/Verified.antt =====
-- A completed job has its proof: the AMS shows the approved values, or has named what it created.
use rsg_hermes.Prelude.{◌≡◌, refl, ◌∙◌, true, Option, none, some, ap, sym, inl, inr, Bool-cases}
use mathlib.Core.Path.{subst}
use rsg_hermes.Prelude.Text.{Text}
use rsg_hermes.Renewals.Executor.Calls.{
  History, Env, Reading, missing, ambiguous, found, find_policy_by_number, Reason, Ids, Evidence,
  ReceiptStatus,
}
use rsg_hermes.Renewals.Executor.Instruction.{
  Action, request_terms, prepare_options, client_follow_up, update_ams, action_named, JobContext,
  Row, Policy, load,
}
use rsg_hermes.Renewals.Executor.Finish.{JobOutcome}
use rsg_hermes.Renewals.Executor.Pipeline.{
  validate, Checked, stopped, authorized, execute, Executed, done, refused,
}
use rsg_hermes.Renewals.Executor.Process.{
  Check, confirmed, unconfirmed, on_check, on_executed, perform, noop_of, compared, on_revalidated,
  on_reading, on_checked, process_job,
}
use rsg_hermes.Renewals.Executor.Steps.{only, is_ams, find-Quiet, revalidate-Quiet, complete-Quiet}
use rsg_hermes.Renewals.Executor.Writes.{on_executed-Quiet}
use rsg_hermes.Renewals.Executor.Filing.{>>=-returned, block_value, fail_value}
use rsg_hermes.Renewals.Executor.Authority.{validate-authorized, linked}
use rsg_hermes.Renewals.Executor.Proofs.{IsProven, verify-IsProven, noop_shows}

module _ (env : Env) where
  module _ (ctx : JobContext) (before : Policy) where
    check_confirmed :
        (ids : Ids) (c : Check) (h h' : History) (o : JobOutcome)
        → o.outcome ≡ ReceiptStatus.completed
        → on_check env ctx before ids c h ≡ (some o, h')
        → (after : Evidence) × (c ≡ confirmed after)
    check_confirmed ids (confirmed after) h h' o ok e = (after, refl)
    check_confirmed ids (unconfirmed r after) h h' o ok e =
        absurd (cc (fail_value env ctx r _ after ids h h' o e).0)

    perform-IsProven :
        (h h' : History) (o : JobOutcome)
        → o.outcome ≡ ReceiptStatus.completed
        → perform env ctx before h ≡ (some o, h')
        → IsProven env ctx (action_named ctx.action) (only is_ams h')
    unfolding perform
    perform-IsProven h h' o completed e =
        let (x, ran, e1) = >>=-returned _ _ h h' o e in
        let settled =
          ap (λ r. only is_ams r.1) (sym e1) ∙ (on_executed-Quiet env ctx before x).quiet _ in
        subst (IsProven env ctx (action_named ctx.action)) (sym settled) (executed_proven x ran e1)
      where
        executed_proven :
            (x : Executed)
            → (execute env ctx (action_named ctx.action) before h).0 ≡ some x
            → on_executed env ctx before x (execute env ctx (action_named ctx.action) before h).1
              ≡ (some o, h')
            → IsProven env ctx
                (action_named ctx.action)
                (only is_ams (execute env ctx (action_named ctx.action) before h).1)
        executed_proven refused ran e1 = absurd (cc (fail_value env ctx _ _ _ _ _ h' o e1).0)
        executed_proven (done r ids) ran e1 =
            let (c, checked, e2) = >>=-returned _ _ _ h' o e1 in
            let (after, same) = check_confirmed ids c _ h' o completed e2 in
            verify-IsProven env ctx before (action_named ctx.action) r ids h after ran
              (checked ∙ ap some same)

    noop-IsProven :
        (a : Option Action) (g : History)
        → (find_policy_by_number env ctx.policy_number g).0 ≡ some (found before)
        → noop_of a ctx before ≡ true
        → IsProven env ctx a (only is_ams g)
    noop-IsProven none g read e = absurd (cc)
    noop-IsProven (some request_terms) g read e = absurd (cc)
    noop-IsProven (some prepare_options) g read e = absurd (cc)
    noop-IsProven (some client_follow_up) g read e = absurd (cc)
    noop-IsProven (some update_ams) g read e =
        (g, before, refl, read, noop_shows env ctx before ctx.fields e)

    revalidated-IsProven :
        (r : Option Reason) (g h h' : History) (o : JobOutcome)
        → only is_ams h ≡ only is_ams g
        → o.outcome ≡ ReceiptStatus.completed
        → (find_policy_by_number env ctx.policy_number g).0 ≡ some (found before)
        → on_revalidated env ctx before r h ≡ (some o, h')
        → IsProven env ctx (action_named ctx.action) (only is_ams h')
    revalidated-IsProven (some r) g h h' o quiet ok read e =
        absurd (cc (block_value env ctx r _ h h' o e).0)
    revalidated-IsProven none g h h' o quiet ok read e =
        elim (Bool-cases (noop_of (action_named ctx.action) ctx before)) [
          | inl same ↦
              let ended = ap (λ b. compared env ctx before b h) (sym same) ∙ e in
              subst (IsProven env ctx (action_named ctx.action))
                (sym (
                  ap (λ r. only is_ams r.1) (sym ended)
                  ∙ ((complete-Quiet env ctx _ _ _ _).quiet h ∙ quiet)))
                (noop-IsProven (action_named ctx.action) g read same)
          | inr changes ↦
              perform-IsProven h h' o ok (ap (λ b. compared env ctx before b h) (sym changes) ∙ e)
        ]

  reading-IsProven :
      (ctx : JobContext) (x : Reading) (g h' : History) (o : JobOutcome)
      → o.outcome ≡ ReceiptStatus.completed
      → (find_policy_by_number env ctx.policy_number g).0 ≡ some x
      → on_reading env ctx x (find_policy_by_number env ctx.policy_number g).1 ≡ (some o, h')
      → IsProven env ctx (action_named ctx.action) (only is_ams h')
  reading-IsProven ctx missing g h' o ok read e = absurd (cc (block_value env ctx _ _ _ h' o e).0)
  reading-IsProven ctx (ambiguous n) g h' o ok read e =
      absurd (cc (block_value env ctx _ _ _ h' o e).0)
  reading-IsProven ctx (found p) g h' o ok read e =
      let (r, _, e1) = >>=-returned _ _ _ h' o e in
      let first = (find-Quiet env {kind = is_ams} (λ n. refl) ctx.policy_number).quiet g in
      let second =
        (revalidate-Quiet env {kind = is_ams} (λ n. refl) p).quiet
          (find_policy_by_number env ctx.policy_number g).1 in
      revalidated-IsProven ctx p r g _ h' o (second ∙ first) ok read e1

  unlinked :
      (ctx : JobContext) (i : Text) (a : Option Action) (writes : History)
      → IsProven env (linked ctx i) a writes
      → IsProven env ctx a writes
  unlinked ctx i none w p = p
  unlinked ctx i (some request_terms) w p = p
  unlinked ctx i (some prepare_options) w p = p
  unlinked ctx i (some client_follow_up) w p = p
  unlinked ctx i (some update_ams) w p = p

  -- A job that ends as completed has its proof. Of an update: behind all the calls by which the job
  -- has changed the AMS, a read of the policy by its number has shown every approved field with its
  -- approved value. Of a task or a note: it is the last such call, and its answer names an id. A job
  -- that prepares options needs none.
  pub completed-IsProven :
      (row : Row) (h h' : History) (o : JobOutcome)
      → process_job env row h ≡ (some o, h')
      → o.outcome ≡ ReceiptStatus.completed
      → IsProven env (load row) (action_named (load row).action) (only is_ams h')
  unfolding process_job
  completed-IsProven row h h' o e ok =
      let (c, f, e1) =
        >>=-returned (validate env (load row)) (on_checked env (load row)) h h' o e in
      checked_proven c f e1
    where
      checked_proven :
          (c : Checked)
          → (validate env (load row) h).0 ≡ some c
          → on_checked env (load row) c (validate env (load row) h).1 ≡ (some o, h')
          → IsProven env (load row) (action_named (load row).action) (only is_ams h')
      checked_proven (stopped r) f e1 = absurd (cc (block_value env (load row) r _ _ h' o e1).0)
      checked_proven (authorized ctx) f e1 =
          let (i, _, same, _) = validate-authorized env (load row) ctx h f in
          let (x, read, e2) = >>=-returned _ _ _ h' o e1 in
          unlinked (load row) i _ _ (
            subst (λ c. IsProven env c (action_named c.action) (only is_ams h')) same
              (reading-IsProven ctx x _ h' o ok read e2))
