-- ===== src/Commissions/Reconcile/Run.antt =====
-- `_index_transactions` and `run_rollup` of hermes/commissions/reconcile.py: the two selects are the
-- lists given, and the updates are the list returned, in order.
use rsg_hermes.Prelude.{
  ℕ, ◌+◌, Bool, true, false, ◌&&◌, Option, none, some, List, [], ◌∷◌, ◌++◌, leb, or_else,
  if◌then◌else◌,
}
use rsg_hermes.Prelude.Int.{ℤ, eqb_ℤ}
use rsg_hermes.Prelude.Text.{Text, text_eq, strip}
use rsg_hermes.Python.Decimal.{Scalar, null, num}
use rsg_hermes.Commissions.Reconcile.{
  Status, status_eq, Transaction, LedgerRow, Classification, Severity, dec, term_window, rollup,
  classify_reconciliation,
}

abbrev pub Index : Type 0
Index = List (Text × List Transaction)

-- `out.setdefault(key, []).append(row)`
unfoldable pub append_at : Text → Transaction → Index → Index
append_at key row [] = (key, row ∷ []) ∷ []
append_at key row ((k, rows) ∷ rest) =
    if text_eq k key then (k, rows ++ row ∷ []) ∷ rest else (k, rows) ∷ append_at key row rest

abbrev keyed : Text → Transaction → Index → Index
keyed [] row out = out
keyed (c ∷ key) row out = append_at (c ∷ key) row out

abbrev index_from : Index → List Transaction → Index
index_from out [] = out
index_from out (row ∷ rows) = index_from (keyed (strip (or_else row.ledger_id [])) row out) rows

unfoldable pub index_transactions : List Transaction → Index
index_transactions rows = index_from [] rows

-- `by_ledger.get(ledger_id)`, where an absent key and an empty list are both falsy.
unfoldable pub lines_of : Text → Index → List Transaction
lines_of key [] = []
lines_of key ((k, rows) ∷ rest) = if text_eq k key then rows else lines_of key rest

-- `as_update`: the derived columns. A float shows the decimal that it was made of.
pub record Patch : Type 0 where
  pub actual_commission : Scalar
  pub reconciliation_status : Status

abbrev pub scalar_of : Option ℤ → Scalar
scalar_of none = null
scalar_of (some z) = num z

unfoldable pub as_update : Classification → Patch
as_update c = record { actual_commission = scalar_of c.actual; reconciliation_status = c.status }

abbrev dec_eq : Option ℤ → Option ℤ → Bool
dec_eq none none = true
dec_eq none (some b) = false
dec_eq (some a) none = false
dec_eq (some a) (some b) = eqb_ℤ a b

abbrev was : Status → Option Status → Bool
was s none = false
was s (some t) = status_eq s t

unfoldable pub is_unchanged : LedgerRow → Patch → Bool
unfolding dec
is_unchanged row p =
    dec_eq (dec p.actual_commission) (dec row.actual_commission)
    && was p.reconciliation_status row.reconciliation_status

abbrev pub ended_by : ℕ → Option ℕ → Bool
ended_by today none = false
ended_by today (some end) = leb end today

unfoldable pub verdict_of : ℕ → LedgerRow → List Transaction → Classification
unfolding term_window rollup classify_reconciliation
verdict_of today row txns =
    classify_reconciliation row.expected_commission (rollup row txns) row.policy_status
      (ended_by today (term_window row).1)

pub record RollupRun : Type 0 where
  pub examined : ℕ
  pub changed : ℕ
  pub unchanged : ℕ
  pub by_status : List Status
  pub details : List (Option Status × Status × Severity)
  pub updates : List (Text × Patch)

unfoldable pub ledger_id : LedgerRow → Text
ledger_id row = or_else row.id []

-- One row that has lines. `by_status` is the multiset of the verdicts that the source counts.
unfoldable pub examine : Bool → LedgerRow → Classification → RollupRun → RollupRun
unfolding as_update is_unchanged
examine dry_run row verdict run =
    let counted = record run {
      examined = run.examined + 1;
      by_status = run.by_status ++ verdict.status ∷ [];
    } in
    if is_unchanged row (as_update verdict)
    then record counted { unchanged = run.unchanged + 1 }
    else record counted {
      changed = run.changed + 1;
      details = run.details ++ (row.reconciliation_status, verdict.status, verdict.severity) ∷ [];
      updates =
          if dry_run then run.updates else run.updates ++ (ledger_id row, as_update verdict) ∷ [];
    }

unfoldable pub visit : ℕ → Bool → LedgerRow → List Transaction → RollupRun → RollupRun
unfolding examine verdict_of
visit today dry_run row [] run = run
visit today dry_run row (t ∷ ts) run = examine dry_run row (verdict_of today row (t ∷ ts)) run

unfoldable pub visit_rows : ℕ → Bool → Index → List LedgerRow → RollupRun → RollupRun
unfolding visit lines_of
visit_rows today dry_run index [] run = run
visit_rows today dry_run index (row ∷ rows) run =
    visit_rows today dry_run index rows
      (visit today dry_run row (lines_of (ledger_id row) index) run)

abbrev pub start : RollupRun
start = record {
  examined = 0;
  changed = 0;
  unchanged = 0;
  by_status = [];
  details = [];
  updates = [];
}

unfoldable pub run_rollup : ℕ → Bool → List LedgerRow → List Transaction → RollupRun
unfolding visit_rows index_transactions
run_rollup today dry_run ledger txns =
    visit_rows today dry_run (index_transactions txns) ledger start
