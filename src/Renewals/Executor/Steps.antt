-- ===== src/Renewals/Executor/Steps.antt =====
-- Steps that add no call of a kind, and the finalizers among them.
use rsg_hermes.Prelude.{
  ◌≡◌, refl, ◌∙◌, Bool, true, false, Option, none, some, [], ◌∷◌, inl, inr, ◌⊎◌, Option-cases,
  if◌then◌else◌,
}
use rsg_hermes.Renewals.Executor.Calls.{
  Call, History, Answer, answered, client_error, raised, Step, Env, attempt, select_renewal,
  get_policy, get_insured, update_policy, insert_task, manage_notes, insert_receipt, update_queue,
  insert_action, insert_guardrail, post_message, find_policy_by_number, is_insured_active, Evidence,
  Ids, Reason, ReceiptStatus, Receipt, Trail,
}
use rsg_hermes.Renewals.Executor.Instruction.{JobContext, Policy}
use rsg_hermes.Prelude.Text.{Text}
use rsg_hermes.Queue.{Status}
use rsg_hermes.Renewals.Executor.Finish.{
  ◌>>=◌, ◌>>◌, return, write_receipt, set_queue_status, log_trail, log_guardrail, escalate,
  escalate_if, logged, complete, terminal, block, fail,
}
use rsg_hermes.Renewals.Executor.Pipeline.{validate, incomplete, revalidate_eligibility}

-- The calls of a kind, latest first.
abbrev pub only : (Call → Bool) → History → History
only kind [] = []
only kind (c ∷ h) = if kind c then c ∷ only kind h else only kind h

-- The calls that change the AMS.
abbrev pub is_ams : Call → Bool
is_ams (update_policy p) = true
is_ams (insert_task t) = true
is_ams (manage_notes n) = true
is_ams _ = false

-- Receipts, and writes of the status of a queue row.
abbrev pub is_filing : Call → Bool
is_filing (insert_receipt r) = true
is_filing (update_queue i s e) = true
is_filing _ = false

pub >>=-cases :
    {A B : Type 0} (m : Step A) (k : A → Step B) (h : History)
    → ((m h).0 ≡ none) × ((m >>= k) h ≡ (none, (m h).1))
      ⊎ ((a : A) × ((m h).0 ≡ some a) × ((m >>= k) h ≡ k a (m h).1))
unfolding ◌>>=◌
>>=-cases m k h = elim (Option-cases (m h).0) [
  | inl e ↦ inl (e, rw (e, ◌>>=◌) refl)
  | inr (a, e) ↦ inr (a, e, rw (e, ◌>>=◌) refl)
]

-- A step that adds no call of the kind, whatever it is answered.
pub record Quiet (kind : Call → Bool) {A : Type 0} (m : Step A) : Type 0 where
  pub quiet : (h : History) → only kind (m h).1 ≡ only kind h

module _ {kind : Call → Bool} where
  pub return-Quiet : {A : Type 0} (a : A) → Quiet kind (return a)
  unfolding return
  return-Quiet a = record { quiet = λ h. refl }

  pub >>=-Quiet :
      {A B : Type 0} {m : Step A} {k : A → Step B}
      → Quiet kind m
      → ((a : A) → Quiet kind (k a))
      → Quiet kind (m >>= k)
  >>=-Quiet {m = m} {k = k} qm qk = record {
    quiet = λ h. elim (>>=-cases m k h) [
      | inl (e, step) ↦ rw step (qm.quiet h)
      | inr (a, e, step) ↦ rw step ((qk a).quiet (m h).1 ∙ qm.quiet h)
    ];
  }

  -- Behind a quiet continuation the calls are those of the step.
  pub >>=-tail :
      {A B : Type 0} (m : Step A) (k : A → Step B)
      → ((a : A) → Quiet kind (k a))
      → (h : History) → only kind ((m >>= k) h).1 ≡ only kind (m h).1
  >>=-tail m k qk h = elim (>>=-cases m k h) [
    | inl (e, step) ↦ rw step refl
    | inr (a, e, step) ↦ rw step ((qk a).quiet (m h).1)
  ]

  pub attempt-Quiet :
      {A B : Type 0} (answer : Answer A) (k : A → Step B) (refused : Step B) (c : Call)
      → kind c ≡ false
      → ((a : A) → Quiet kind (k a))
      → Quiet kind refused
      → (h : History) → only kind (attempt answer k refused (c ∷ h)).1 ≡ only kind h
  attempt-Quiet (answered a) k refused c e qk qr h = (qk a).quiet (c ∷ h) ∙ rw e refl
  attempt-Quiet client_error k refused c e qk qr h = qr.quiet (c ∷ h) ∙ rw e refl
  attempt-Quiet raised k refused c e qk qr h = rw e refl

-- A kind without trails, guardrail rows and messages.
abbrev pub SkipsLogs : (Call → Bool) → Type 0
SkipsLogs kind =
    ((i : Text) (t : Trail) → kind (insert_action i t) ≡ false)
    × ((c : JobContext) (s : ReceiptStatus) (r : Reason) → kind (insert_guardrail c s r) ≡ false)
    × ((c : JobContext) (s : ReceiptStatus) (r : Reason) → kind (post_message c s r) ≡ false)

module _ (env : Env) (ctx : JobContext) {kind : Call → Bool} (skips : SkipsLogs kind) where
  trail-Quiet : (t : Trail) → Quiet kind (log_trail env ctx t)
  unfolding log_trail
  trail-Quiet t = record {
    quiet = λ h. elim (Option-cases ctx.renewal_row) [
      | inl n ↦ rw (n, log_trail) refl
      | inr (i, n) ↦
          rw (n, log_trail)
            (attempt-Quiet (env.actions h) _ _ _ (skips.0 i t) return-Quiet (return-Quiet tt) h)
    ];
  }

  pub logged-Quiet : (t : Option Trail) → Quiet kind (logged env ctx t)
  logged-Quiet none = record { quiet = λ h. refl }
  logged-Quiet (some t) = trail-Quiet t

  guardrail-Quiet : (s : ReceiptStatus) (r : Reason) → Quiet kind (log_guardrail env ctx s r)
  unfolding log_guardrail
  guardrail-Quiet s r = record {
    quiet = λ h.
        attempt-Quiet (env.guardrails h) _ _ _ (skips.1 ctx s r) return-Quiet (return-Quiet tt) h;
  }

  escalate_if-Quiet :
      (b : Bool) (s : ReceiptStatus) (r : Reason) → Quiet kind (escalate_if env ctx b s r)
  unfolding escalate
  escalate_if-Quiet true s r = record { quiet = λ h. rw (skips.2 ctx s r) refl }
  escalate_if-Quiet false s r = return-Quiet tt

  -- What `_terminal` does behind the queue status.
  pub logs-Quiet :
      {A : Type 0} (t : Trail) (s : ReceiptStatus) (r : Reason) (b : Bool) (a : A)
      → Quiet kind (
          log_trail env ctx t
          >> (log_guardrail env ctx s r >> (escalate_if env ctx b s r >> return a)))
  logs-Quiet t s r b a = >>=-Quiet (trail-Quiet t) λ _.
      >>=-Quiet (guardrail-Quiet s r) λ _. >>=-Quiet (escalate_if-Quiet b s r) λ _. return-Quiet a

-- The finalizers write nothing to the AMS.
module _ (env : Env) (ctx : JobContext) where
  receipt-Quiet : (r : Receipt) → Quiet is_ams (write_receipt env ctx r)
  unfolding write_receipt
  receipt-Quiet r = record {
    quiet = λ h. attempt-Quiet (env.receipts h) _ _ _ refl return-Quiet (return-Quiet none) h;
  }

  status-Quiet : (s : Status) (e : Option Reason) → Quiet is_ams (set_queue_status env ctx s e)
  unfolding set_queue_status
  status-Quiet s e = record {
    quiet = λ h. attempt-Quiet (env.statuses h) _ _ _ refl return-Quiet (return-Quiet tt) h;
  }

  pub complete-Quiet :
      (before after : Evidence) (ids : Ids) (error : Option Reason)
      → Quiet is_ams (complete env ctx before after ids error)
  unfolding complete
  complete-Quiet before after ids error = >>=-Quiet (receipt-Quiet _) λ _.
      >>=-Quiet (status-Quiet _ _) λ _.
        >>=-Quiet (logged-Quiet env ctx (λ _ _. refl, λ _ _ _. refl, λ _ _ _. refl) _)
          λ _. return-Quiet _

  terminal-Quiet :
      (s : ReceiptStatus) (t : Trail) (r : Reason) (before after : Option Evidence) (ids : Ids)
      → Quiet is_ams (terminal env ctx s t r before after ids)
  unfolding terminal
  terminal-Quiet s t r before after ids = >>=-Quiet (receipt-Quiet _) λ _.
      >>=-Quiet (status-Quiet _ _)
        λ _. logs-Quiet env ctx (λ _ _. refl, λ _ _ _. refl, λ _ _ _. refl) t s r _ _

  pub block-Quiet : (r : Reason) (before : Option Evidence) → Quiet is_ams (block env ctx r before)
  unfolding block
  block-Quiet r before = terminal-Quiet _ _ r before _ _

  pub fail-Quiet :
      (r : Reason) (before after : Option Evidence) (ids : Ids)
      → Quiet is_ams (fail env ctx r before after ids)
  unfolding fail
  fail-Quiet r before after ids = terminal-Quiet _ _ r before after ids

-- The checks and reads before an action, for a kind that holds none of their calls.
module _ (env : Env) {kind : Call → Bool} where
  pub find-Quiet :
      ((n : Text) → kind (get_policy n) ≡ false)
      → (n : Text) → Quiet kind (find_policy_by_number env n)
  unfolding find_policy_by_number
  find-Quiet e [] = record { quiet = λ h. refl }
  find-Quiet e (c ∷ s) = record {
    quiet = λ h.
        attempt-Quiet (env.policies (c ∷ s) h) _ _ _ (e (c ∷ s)) (λ a. record { quiet = λ g. refl })
          (record { quiet = λ g. refl }) h;
  }

  insured-Quiet :
      ((n : Text) → kind (get_insured n) ≡ false)
      → (n : Text) → Quiet kind (is_insured_active env n)
  unfolding is_insured_active
  insured-Quiet e [] = record { quiet = λ h. refl }
  insured-Quiet e (c ∷ s) = record {
    quiet = λ h.
        attempt-Quiet (env.insureds (c ∷ s) h) _ _ _ (e (c ∷ s)) (λ a. record { quiet = λ g. refl })
          (record { quiet = λ g. refl }) h;
  }

  pub revalidate-Quiet :
      ((n : Text) → kind (get_insured n) ≡ false)
      → (p : Policy) → Quiet kind (revalidate_eligibility env p)
  unfolding revalidate_eligibility
  revalidate-Quiet e p = >>=-Quiet (insured-Quiet e _) λ a. return-Quiet _

  pub validate-Quiet :
      ((n : Text) → kind (select_renewal n) ≡ false)
      → (ctx : JobContext) → Quiet kind (validate env ctx)
  unfolding validate
  validate-Quiet e ctx = record {
    quiet = λ h. elim (Option-cases (incomplete ctx)) [
      | inl i ↦
          rw (i, validate)
            (attempt-Quiet (env.renewals ctx.renewal_id h) _ _ _ (e _) (λ a. return-Quiet _)
              (return-Quiet _) h)
      | inr (r, i) ↦ rw (i, validate) refl
    ];
  }
