-- ===== src/Renewals/Executor/Runs.antt =====
-- hermes/renewals/executor.py: `_claim`, `run_executor` and `_preview_job`. The clients are given.
use rsg_hermes.Prelude.{
  ℕ, zero, suc, ◌+◌, Bool, true, false, Option, none, some, List, [], ◌∷◌, ◌++◌, if◌then◌else◌,
}
use rsg_hermes.Renewals.Executor.Calls.{
  Reason, missing_mapping, duplicate_policies, unexpected_error, no_ids, ReceiptStatus, Step, Env,
  Reading, missing, ambiguous, found, find_policy_by_number, attempt, select_jobs, claim,
}
use rsg_hermes.Renewals.Executor.Instruction.{action_named, JobContext, Row, load}
use rsg_hermes.Renewals.Executor.Finish.{◌>>=◌, return, raise, JobOutcome, fail}
use rsg_hermes.Renewals.Executor.Pipeline.{Checked, stopped, authorized, validate}
use rsg_hermes.Renewals.Executor.Process.{noop_of, process_job}

pub data Verdict : Type 0 where
  would_block : Reason → Verdict
  would_noop would_execute : Verdict

pub record Preview : Type 0 where
  pub context : JobContext
  pub verdict : Verdict

pub record Summary : Type 0 where
  pub claimed : ℕ
  pub completed : ℕ
  pub failed : ℕ
  pub blocked : ℕ
  pub previews : List Preview

abbrev pub no_jobs : Summary
no_jobs = record { claimed = 0; completed = 0; failed = 0; blocked = 0; previews = [] }

abbrev pub count : ReceiptStatus → Summary → Summary
count ReceiptStatus.completed s = record s { completed = s.completed + 1 }
count ReceiptStatus.failed s = record s { failed = s.failed + 1 }
count ReceiptStatus.blocked s = record s { blocked = s.blocked + 1 }

abbrev pub first_of : List Row → Option Row
first_of [] = none
first_of (r ∷ rows) = some r

-- `eligible[:limit]`
abbrev pub take : ℕ → List Row → List Row
take zero rows = []
take (suc n) [] = []
take (suc n) (r ∷ rows) = r ∷ take n rows

-- `max(limit, 1)`
abbrev pub at_least_one : ℕ → ℕ
at_least_one zero = 1
at_least_one (suc n) = suc n

module _ (env : Env) where
  -- `_claim`: the row as the database returns it, or `none`.
  unfoldable pub claim_row : Row → Step (Option Row)
  claim_row row h =
      attempt (env.claims row.id h) (λ rows. return (first_of rows)) (return none)
        (claim row.id ∷ h)

  -- `_terminal_error`
  unfoldable pub terminal_error : Row → Step JobOutcome
  terminal_error row = fail env (load row) unexpected_error none none no_ids

  -- `try: process_job(…) except Exception`
  unfoldable pub guarded_job : Row → Step JobOutcome
  guarded_job row h = elim (process_job env row h).0 [
    | some o ↦ (some o, (process_job env row h).1)
    | none ↦ terminal_error row (process_job env row h).1
  ]

  abbrev pub verdict_of : JobContext → Reading → Verdict
  verdict_of ctx missing = would_block missing_mapping
  verdict_of ctx (ambiguous n) = would_block duplicate_policies
  verdict_of ctx (found before) =
      if noop_of (action_named ctx.action) ctx before then would_noop else would_execute

  abbrev pub previewed : JobContext → Checked → Step Preview
  previewed ctx (stopped r) = return record { context = ctx; verdict = would_block r }
  previewed ctx (authorized ctx') = find_policy_by_number env ctx'.policy_number >>= λ before.
      return record { context = ctx'; verdict = verdict_of ctx' before }

  unfoldable pub preview_job : Row → Step Preview
  preview_job row = validate env (load row) >>= previewed (load row)

  abbrev pub on_claimed : Summary → Option Row → Step Summary
  on_claimed s none = return s
  on_claimed s (some row) =
      guarded_job row >>= λ o. return (count o.outcome (record s { claimed = s.claimed + 1 }))

  -- One round of the loop.
  unfoldable pub run_row : Bool → Row → Summary → Step Summary
  run_row true row s =
      preview_job row >>= λ p. return (record s { previews = s.previews ++ p ∷ [] })
  run_row false row s = claim_row row >>= on_claimed s

  unfoldable pub run_rows : Bool → List Row → Summary → Step Summary
  run_rows dry [] s = return s
  run_rows dry (row ∷ rows) s = run_row dry row s >>= run_rows dry rows

  unfoldable pub run_executor : ℕ → Bool → Step Summary
  run_executor limit dry h =
      attempt (env.jobs h) (λ rows. run_rows dry (take limit rows) no_jobs) raise
        (select_jobs (at_least_one limit) ∷ h)
