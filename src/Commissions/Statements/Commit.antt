-- ===== src/Commissions/Statements/Commit.antt =====
-- hermes/commissions/statements.py: `commit_statement` and `reject_statement`. What the database, the
-- relinking and the rollup answer is given.
use rsg_hermes.Prelude.{
  ℕ, zero, suc, ◌+◌, Bool, true, false, not, ◌&&◌, Option, none, some, List, [], ◌∷◌, ◌++◌, length,
  or_else, if◌then◌else◌,
}
use rsg_hermes.Prelude.Text.{Text, text_eq}
use rsg_hermes.Commissions.Matching.Relink.{LinkRun}
use rsg_hermes.Commissions.Statements.Batches.{
  BatchStatus, pending_review, rejected, committed, error, Batch, Staged, Transaction, Store,
  requires_source_confirmation, with_carrier,
}

-- The `ValueError`s of a commit.
pub data Refusal : Type 0 where
  not_found not_pending crosscheck_failed not_confirmed no_staged_lines : Refusal

pub record CommitResult : Type 0 where
  pub statement_id : Text
  pub committed : ℕ
  pub refused_lines : List Staged
  pub link : LinkRun

pub data CommitOutcome : Type 0 where
  refused : Refusal → CommitOutcome
  crashed : CommitOutcome
  done : CommitResult → CommitOutcome

-- The answers of a commit: the new statement's id, which lines the database accepts, and what the
-- relinking, the rollup and the last update do; `none` and `false` are exceptions.
pub record CommitEnv : Type 0 where
  pub statement_id : Option Text
  pub accepts : Staged → Bool
  pub relinks : List Transaction → Option LinkRun
  pub rolls_up : List Transaction → Bool
  pub updates : Bool

abbrev pub find_batch : Text → List Batch → Option Batch
find_batch i [] = none
find_batch i (b ∷ bs) = if text_eq b.id i then some b else find_batch i bs

abbrev pub staged_for : Text → List Staged → List Staged
staged_for i [] = []
staged_for i (l ∷ ls) =
    let rest = staged_for i ls in if text_eq l.batch_id i then l ∷ rest else rest

abbrev pub is_pending : BatchStatus → Bool
is_pending pending_review = true
is_pending _ = false

abbrev pub refuse_lines : List Staged → Option Refusal
refuse_lines [] = some no_staged_lines
refuse_lines (l ∷ ls) = none

-- The gate of a commit.
unfoldable pub refusal : Batch → Bool → List Staged → Option Refusal
refusal b confirmed_source staged =
    if not (is_pending b.ingest_status)
    then some not_pending
    else if not (or_else b.crosscheck_ok false)
    then some crosscheck_failed
    else if requires_source_confirmation b.extraction_method b.is_ocr && not confirmed_source
    then some not_confirmed
    else refuse_lines staged

abbrev pub transaction_of : Text → Batch → Staged → Transaction
transaction_of statement_id b l = record {
  statement_id = statement_id;
  line = with_carrier b.carrier_name l.line;
}

-- The lines that the database accepts, and those that it does not.
abbrev pub filter : (Staged → Bool) → List Staged → List Staged
filter p [] = []
filter p (l ∷ ls) = let rest = filter p ls in if p l then l ∷ rest else rest

-- `supa.update(BATCHES_TABLE, id, …)`
unfoldable pub update_batch : Text → (Batch → Batch) → List Batch → List Batch
update_batch i patch [] = []
update_batch i patch (b ∷ bs) = (if text_eq b.id i then patch b else b) ∷ update_batch i patch bs

abbrev pub final_status : ℕ → BatchStatus
final_status zero = error
final_status (suc n) = committed

abbrev pub reviewed : Text → BatchStatus → Option Text → Batch → Batch
reviewed by status statement_id b = record b {
  ingest_status = status;
  statement_id = statement_id;
  reviewed_by = some by;
}

module _ (env : CommitEnv) where
  -- The loop over the staged lines: one that is refused does not cost the rest.
  unfoldable pub insert_lines :
      Text
      → Batch
      → List Staged
      → ℕ × List Staged × List Transaction
      → ℕ × List Staged × List Transaction
  insert_lines i b [] acc = acc
  insert_lines i b (l ∷ ls) (n, errors, rows) = insert_lines i b ls (
      if env.accepts l
      then (n + 1, errors, rows ++ transaction_of i b l ∷ [])
      else (n, errors ++ l ∷ [], rows))

  -- From the relinking on.
  abbrev pub settle :
      Text → Text → Text → ℕ × List Staged × List Transaction → Store → CommitOutcome × Store
  settle batch_id by i (n, errors, rows) s = elim (env.relinks rows) [
    | none ↦ (crashed, record s { transactions = rows })
    | some link ↦
        if env.rolls_up rows && env.updates
        then (
          done (record { statement_id = i; committed = n; refused_lines = errors; link = link }),
          record s {
            transactions = rows;
            batches = update_batch batch_id (reviewed by (final_status n) (some i)) s.batches;
          },
        )
        else (crashed, record s { transactions = rows })
  ]

  abbrev pub promote : Text → Text → Batch → List Staged → Store → CommitOutcome × Store
  promote batch_id by b staged s = elim env.statement_id [
    | none ↦ (crashed, s)
    | some i ↦
        settle batch_id by i (insert_lines i b staged (0, [], s.transactions))
          (record s { statements = s.statements ++ (i, length staged) ∷ [] })
  ]

  unfoldable pub commit_statement : Text → Text → Bool → Store → CommitOutcome × Store
  commit_statement batch_id by confirmed_source s = elim (find_batch batch_id s.batches) [
    | none ↦ (refused not_found, s)
    | some b ↦ elim (refusal b confirmed_source (staged_for batch_id s.staging)) [
      | some r ↦ (refused r, s)
      | none ↦ promote batch_id by b (staged_for batch_id s.staging) s
    ]
  ]

unfoldable pub reject_statement : Text → Text → Option Text → Store → Bool × Store
reject_statement batch_id by reason s = elim (find_batch batch_id s.batches) [
  | none ↦ (false, s)
  | some b ↦ (
    true,
    record s {
      batches =
          update_batch batch_id
            (λ b. record b {
              ingest_status = rejected;
              reviewed_by = some by;
              rejected_reason = reason;
            })
            s.batches;
    },
  )
]
