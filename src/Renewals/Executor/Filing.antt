-- ===== src/Renewals/Executor/Filing.antt =====
-- What a job that returns has filed: one receipt, and one status of its queue row.
use rsg_hermes.Prelude.{
  ◌≡◌, refl, ◌∙◌, Bool, true, false, Option, none, some, ◌∷◌, arith, inl, inr, ap, sym,
}
use rsg_hermes.Prelude.Text.{Text}
use rsg_hermes.Queue.{Status}
use rsg_hermes.Renewals.Executor.Calls.{
  History, Step, Env, Answer, answered, client_error, raised, Reason, Receipt, ReceiptStatus, Trail,
  Evidence, Ids, insert_receipt, update_queue,
}
use rsg_hermes.Renewals.Executor.Instruction.{JobContext}
use rsg_hermes.Renewals.Executor.Finish.{
  ◌>>=◌, ◌>>◌, return, JobOutcome, write_receipt, set_queue_status, complete, terminal, block, fail,
  log_trail, log_guardrail, escalate_if,
}
use rsg_hermes.Renewals.Executor.Steps.{
  only, is_filing, Quiet, >>=-cases, >>=-Quiet, return-Quiet, logs-Quiet, logged-Quiet,
}

pub >>=-returned :
    {A B : Type 0} (m : Step A) (k : A → Step B) (h h' : History) (b : B)
    → (m >>= k) h ≡ (some b, h')
    → (a : A) × ((m h).0 ≡ some a) × (k a (m h).1 ≡ (some b, h'))
>>=-returned m k h h' b e = elim (>>=-cases m k h) [
  | inl (f, step) ↦ absurd (cc)
  | inr (a, f, step) ↦ (a, f, sym step ∙ e)
]

abbrev pub queue_status : ReceiptStatus → Status
queue_status ReceiptStatus.completed = Status.completed
queue_status ReceiptStatus.failed = Status.failed
queue_status ReceiptStatus.blocked = Status.failed

abbrev pub is_completed : ReceiptStatus → Bool
is_completed ReceiptStatus.completed = true
is_completed ReceiptStatus.failed = false
is_completed ReceiptStatus.blocked = false

-- The id of a receipt that the client has answered, and none if the client has an error, which is
-- swallowed.
abbrev pub created_id : Answer (Option Text) → Option Text
created_id (answered i) = i
created_id client_error = none
created_id raised = none

-- One call for a receipt, then one for a status, in agreement with the outcome.
pub record IsFiled (env : Env) (queue_id : Text) (h : History) (o : JobOutcome) (h' : History)
    : Type 0 where
  pub receipt : Receipt
  pub filed :
      only is_filing h'
      ≡ update_queue queue_id (queue_status o.outcome) o.reason
        ∷ insert_receipt receipt
        ∷ only is_filing h
  pub same_status : receipt.status ≡ o.outcome
  pub same_queue_id : receipt.context.queue_id ≡ queue_id
  pub verified : receipt.verified ≡ is_completed o.outcome
  pub said : o.verified ≡ receipt.verified
  pub behind : History
  pub same_filings : only is_filing behind ≡ only is_filing h
  pub receipt_id : o.receipt_id ≡ created_id (env.receipts behind)

pub returned_value : {A : Type 0} (a b : A) (h h' : History) → return a h ≡ (some b, h') → b ≡ a
unfolding return
returned_value a b h h' e = cc

module _ (env : Env) (ctx : JobContext) where
  receipt_history :
      (r : Receipt) (h : History) → (write_receipt env ctx r h).1 ≡ insert_receipt r ∷ h
  unfolding write_receipt return
  receipt_history r h = ground arith

  receipt_answer :
      (r : Receipt) (h : History) (i : Option Text)
      → (write_receipt env ctx r h).0 ≡ some i
      → i ≡ created_id (env.receipts h)
  unfolding write_receipt return
  receipt_answer r h i e = ground (arith, e)

  status_history :
      (s : Status) (e : Option Reason) (h : History)
      → (set_queue_status env ctx s e h).1 ≡ update_queue ctx.queue_id s e ∷ h
  unfolding set_queue_status return
  status_history s e h = ground arith

  -- A receipt and a status, and then calls of other kinds.
  files :
      {A : Type 0} (r : Receipt) (s : Status) (e : Option Reason) (k : Option Text → Step A)
      (h h' : History) (a : A)
      → ((i : Option Text) → Quiet is_filing (k i))
      → (write_receipt env ctx r >>= λ i. set_queue_status env ctx s e >> k i) h ≡ (some a, h')
      → (i : Option Text) × (g : History) × (k i g ≡ (some a, h'))
        × (i ≡ created_id (env.receipts h))
        × (only is_filing h' ≡ update_queue ctx.queue_id s e ∷ insert_receipt r ∷ only is_filing h)
  files r s e k h h' a q f =
      let (i, f1, f2) = >>=-returned _ _ h h' a f in
      let (u, g1, g2) = >>=-returned _ _ _ h' a f2 in
      (
        i,
        (set_queue_status env ctx s e (write_receipt env ctx r h).1).1,
        g2,
        receipt_answer r h i f1,
        ap (λ p. only is_filing p.1) (sym g2)
            ∙ ((q i).quiet _ ∙ rw (status_history s e _) (rw (receipt_history r h) refl)),
      )

  pub complete_files :
      (before after : Evidence) (ids : Ids) (error : Option Reason) (h h' : History)
      (o : JobOutcome)
      → complete env ctx before after ids error h ≡ (some o, h')
      → IsFiled env ctx.queue_id h o h'
  unfolding complete
  complete_files before after ids error h h' o e =
      let (i, g, last, id_is, filed) =
        files _ _ _ _ h h' o
          (λ i.
            >>=-Quiet (logged-Quiet env ctx (λ _ _. refl, λ _ _ _. refl, λ _ _ _. refl) _)
              λ _. return-Quiet _)
          e in
      let (u, g1, g2) = >>=-returned _ _ g h' o last in
      rw (returned_value _ o _ h' g2) (record {
        receipt = record {
          context = ctx;
          status = ReceiptStatus.completed;
          verified = true;
          before_state = some before;
          after_state = some after;
          nowcerts_ids = ids;
          error = error;
        };
        filed = filed;
        same_status = refl;
        same_queue_id = refl;
        verified = refl;
        said = refl;
        behind = h;
        same_filings = refl;
        receipt_id = id_is;
      })

  terminal_outcome :
      {A : Type 0} (t : Trail) (s : ReceiptStatus) (r : Reason) (b : Bool) (a a' : A)
      (g h' : History)
      → (log_trail env ctx t
            >> (log_guardrail env ctx s r >> (escalate_if env ctx b s r >> return a)))
          g
        ≡ (some a', h')
      → a' ≡ a
  terminal_outcome t s r b a a' g h' e =
      let (u, _, e1) = >>=-returned _ _ g h' a' e in
      let (v, _, e2) = >>=-returned _ _ _ h' a' e1 in
      let (w, _, e3) = >>=-returned _ _ _ h' a' e2 in returned_value a a' _ h' e3

  terminal_files :
      (s : ReceiptStatus) (t : Trail) (r : Reason) (before after : Option Evidence) (ids : Ids)
      (h h' : History) (o : JobOutcome)
      → is_completed s ≡ false
      → terminal env ctx s t r before after ids h ≡ (some o, h')
      → IsFiled env ctx.queue_id h o h'
  unfolding terminal
  terminal_files s t r before after ids h h' o failed e =
      let (i, g, last, id_is, filed) =
        files _ _ _ _ h h' o
          (λ i. logs-Quiet env ctx (λ _ _. refl, λ _ _ _. refl, λ _ _ _. refl) t s r _ _) e in
      rw (terminal_outcome t s r _ _ o g h' last) (record {
        receipt = record {
          context = ctx;
          status = s;
          verified = false;
          before_state = before;
          after_state = after;
          nowcerts_ids = ids;
          error = some r;
        };
        filed = rw (stopped_status s failed) filed;
        same_status = refl;
        same_queue_id = refl;
        verified = sym failed;
        said = refl;
        behind = h;
        same_filings = refl;
        receipt_id = id_is;
      })
    where
      stopped_status : (s : ReceiptStatus) → is_completed s ≡ false → queue_status s ≡ Status.failed
      stopped_status ReceiptStatus.completed e = cc
      stopped_status ReceiptStatus.failed e = refl
      stopped_status ReceiptStatus.blocked e = refl

  pub block_files :
      (r : Reason) (before : Option Evidence) (h h' : History) (o : JobOutcome)
      → block env ctx r before h ≡ (some o, h')
      → IsFiled env ctx.queue_id h o h'
  unfolding block
  block_files r before h h' o e = terminal_files _ _ r before _ _ h h' o refl e

  pub fail_files :
      (r : Reason) (before after : Option Evidence) (ids : Ids) (h h' : History) (o : JobOutcome)
      → fail env ctx r before after ids h ≡ (some o, h')
      → IsFiled env ctx.queue_id h o h'
  unfolding fail
  fail_files r before after ids h h' o e = terminal_files _ _ r before after ids h h' o refl e

  terminal_value :
      (s : ReceiptStatus) (t : Trail) (r : Reason) (before after : Option Evidence) (ids : Ids)
      (h h' : History) (o : JobOutcome)
      → terminal env ctx s t r before after ids h ≡ (some o, h')
      → (o.outcome ≡ s) × (o.reason ≡ some r)
  unfolding terminal
  terminal_value s t r before after ids h h' o e =
      let (i, f, e1) = >>=-returned _ _ h h' o e in
      let (u, g, e2) = >>=-returned _ _ _ h' o e1 in
      rw (terminal_outcome t s r _ _ o _ h' e2) (refl, refl)

  pub block_value :
      (r : Reason) (before : Option Evidence) (h h' : History) (o : JobOutcome)
      → block env ctx r before h ≡ (some o, h')
      → (o.outcome ≡ ReceiptStatus.blocked) × (o.reason ≡ some r)
  unfolding block
  block_value r before h h' o e = terminal_value _ _ r before _ _ h h' o e

  pub fail_value :
      (r : Reason) (before after : Option Evidence) (ids : Ids) (h h' : History) (o : JobOutcome)
      → fail env ctx r before after ids h ≡ (some o, h')
      → (o.outcome ≡ ReceiptStatus.failed) × (o.reason ≡ some r)
  unfolding fail
  fail_value r before after ids h h' o e = terminal_value _ _ r before after ids h h' o e

  pub complete_value :
      (before after : Evidence) (ids : Ids) (error : Option Reason) (h h' : History)
      (o : JobOutcome)
      → complete env ctx before after ids error h ≡ (some o, h')
      → (o.outcome ≡ ReceiptStatus.completed) × (o.reason ≡ none)
  unfolding complete
  complete_value before after ids error h h' o e =
      let (i, f, e1) = >>=-returned _ _ h h' o e in
      let (u, g, e2) = >>=-returned _ _ _ h' o e1 in
      let (v, k, e3) = >>=-returned _ _ _ h' o e2 in rw (returned_value _ o _ h' e3) (refl, refl)
