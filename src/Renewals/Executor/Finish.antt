-- ===== src/Renewals/Executor/Finish.antt =====
-- hermes/renewals/executor.py: the finalizers of a job: receipt, queue status, trail and escalation.
use rsg_hermes.Prelude.{Bool, true, false, Option, none, some, ◌∷◌}
use rsg_hermes.Prelude.Text.{Text}
use rsg_hermes.Queue.{Status}
use rsg_hermes.Renewals.Executor.Instruction.{Action, action_named, JobContext}
use rsg_hermes.Renewals.Executor.Calls.{
  Reason, Evidence, Ids, no_ids, ReceiptStatus, Receipt, Trail, Step, Env, attempt, insert_receipt,
  update_queue, insert_action, insert_guardrail, post_message,
}

-- `verified` with the reason, and the receipt's id.
pub record JobOutcome : Type 0 where
  pub outcome : ReceiptStatus
  pub reason : Option Reason
  pub receipt_id : Option Text
  pub verified : Bool
  pub nowcerts_ids : Ids

-- `ACTION_TO_TRAIL[action]`, or `none` where it raises.
abbrev pub trail_of : Option Action → Option Trail
trail_of none = none
trail_of (some Action.request_terms) = some Trail.request_terms
trail_of (some Action.prepare_options) = some Trail.prepare_options
trail_of (some Action.client_follow_up) = some Trail.client_follow_up
trail_of (some Action.update_ams) = some Trail.ams_update

abbrev pub is_high_impact : Option Action → Bool
is_high_impact (some Action.update_ams) = true
is_high_impact _ = false

infixl 5 ◌>>=◌ ◌>>◌
unfoldable pub ◌>>=◌ : {A B : Type 0} → Step A → (A → Step B) → Step B
◌>>=◌ m k h = elim (m h).0 [ some a ↦ k a (m h).1 | none ↦ (none, (m h).1) ]

abbrev pub ◌>>◌ : {B : Type 0} → Step (Unit {0}) → Step B → Step B
m >> k = m >>= λ _. k

unfoldable pub return : {A : Type 0} → A → Step A
return a h = (some a, h)

-- An exception.
abbrev pub raise : {A : Type 0} → Step A
raise h = (none, h)

module _ (env : Env) (ctx : JobContext) where
  -- `_write_receipt`
  unfoldable pub write_receipt : Receipt → Step (Option Text)
  write_receipt r h = attempt (env.receipts h) return (return none) (insert_receipt r ∷ h)

  unfoldable pub set_queue_status : Status → Option Reason → Step (Unit {0})
  set_queue_status s error h =
      attempt (env.statuses h) return (return tt) (update_queue ctx.queue_id s error ∷ h)

  unfoldable pub log_trail : Trail → Step (Unit {0})
  log_trail t h = elim ctx.renewal_row [
    | none ↦ (some tt, h)
    | some i ↦ attempt (env.actions h) return (return tt) (insert_action i t ∷ h)
  ]

  unfoldable pub log_guardrail : ReceiptStatus → Reason → Step (Unit {0})
  log_guardrail s r h = attempt (env.guardrails h) return (return tt) (insert_guardrail ctx s r ∷ h)

  -- `_escalate`, which lets no exception through.
  unfoldable pub escalate : ReceiptStatus → Reason → Step (Unit {0})
  escalate s r h = (some tt, post_message ctx s r ∷ h)

  abbrev pub escalate_if : Bool → ReceiptStatus → Reason → Step (Unit {0})
  escalate_if true s r = escalate s r
  escalate_if false s r = return tt

  abbrev pub logged : Option Trail → Step (Unit {0})
  logged none = raise
  logged (some t) = log_trail t

  unfoldable pub complete : Evidence → Evidence → Ids → Option Reason → Step JobOutcome
  complete before after ids note = do
    receipt_id ← write_receipt (record {
      context = ctx;
      status = ReceiptStatus.completed;
      verified = true;
      before_state = some before;
      after_state = some after;
      nowcerts_ids = ids;
      error = note;
    })
    set_queue_status Status.completed none
    logged (trail_of (action_named ctx.action))
    return record {
      outcome = ReceiptStatus.completed;
      reason = none;
      receipt_id = receipt_id;
      verified = true;
      nowcerts_ids = ids;
    }

  unfoldable pub terminal :
      ReceiptStatus → Trail → Reason → Option Evidence → Option Evidence → Ids → Step JobOutcome
  terminal status trail reason before after ids = do
    receipt_id ← write_receipt (record {
      context = ctx;
      status = status;
      verified = false;
      before_state = before;
      after_state = after;
      nowcerts_ids = ids;
      error = some reason;
    })
    set_queue_status Status.failed (some reason)
    log_trail trail
    log_guardrail status reason
    escalate_if (is_high_impact (action_named ctx.action)) status reason
    return record {
      outcome = status;
      reason = some reason;
      receipt_id = receipt_id;
      verified = false;
      nowcerts_ids = no_ids;
    }

  unfoldable pub block : Reason → Option Evidence → Step JobOutcome
  block reason before =
      terminal ReceiptStatus.blocked Trail.execution_blocked reason before none no_ids

  unfoldable pub fail : Reason → Option Evidence → Option Evidence → Ids → Step JobOutcome
  fail reason before after ids =
      terminal ReceiptStatus.failed Trail.execution_failed reason before after ids
