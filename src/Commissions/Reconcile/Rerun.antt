-- ===== src/Commissions/Reconcile/Rerun.antt =====
-- A run of the rollup converges: what it has written, the next run finds unchanged.
use rsg_hermes.Prelude.{
  ℕ, ◌+◌, ◌≡◌, refl, ◌∙◌, Bool, true, some, List, [], ◌∷◌, map, length, length-append, arith, inl,
  inr, Bool-cases, if◌then◌else◌,
}
use rsg_hermes.Commissions.Reconcile.{Transaction, LedgerRow, Classification}
use rsg_hermes.Commissions.Reconcile.Run.{
  Index, Patch, RollupRun, start, ledger_id, lines_of, as_update, is_unchanged, verdict_of, examine,
  visit, visit_rows, index_transactions, run_rollup,
}

-- The row behind the PATCH of its update.
abbrev pub patched : Patch → LedgerRow → LedgerRow
patched p row = record row {
  actual_commission = p.actual_commission;
  reconciliation_status = some p.reconciliation_status;
}

abbrev pub patched_by : ℕ → List Transaction → LedgerRow → LedgerRow
patched_by today [] row = row
patched_by today (t ∷ ts) row =
    let p = as_update (verdict_of today row (t ∷ ts)) in
    if is_unchanged row p then row else patched p row

-- A ledger row after the run that has examined it.
abbrev pub settled : ℕ → Index → LedgerRow → LedgerRow
settled today index row = patched_by today (lines_of (ledger_id row) index) row

is_unchanged-patched :
    (row : LedgerRow) (c : Classification)
    → is_unchanged (patched (as_update c) row) (as_update c) ≡ true
unfolding is_unchanged as_update
is_unchanged-patched row c = ground (arith, c.actual)

verdict_of-patched :
    (today : ℕ) (p : Patch) (row : LedgerRow) (txns : List Transaction)
    → verdict_of today (patched p row) txns ≡ verdict_of today row txns
unfolding verdict_of
verdict_of-patched today p row txns = refl

pub ledger_id-settled :
    (today : ℕ) (row : LedgerRow) (txns : List Transaction)
    → ledger_id (patched_by today txns row) ≡ ledger_id row
unfolding ledger_id
ledger_id-settled today row [] = refl
ledger_id-settled today row (t ∷ ts) =
    elim (Bool-cases (is_unchanged row (as_update (verdict_of today row (t ∷ ts))))) [
      | inl same ↦ rw same
      | inr moved ↦ rw moved
    ]

-- A settled row needs no update.
settled_unchanged :
    (today : ℕ) (row : LedgerRow) (t : Transaction) (ts : List Transaction)
    → is_unchanged
        (patched_by today (t ∷ ts) row)
        (as_update (verdict_of today (patched_by today (t ∷ ts) row) (t ∷ ts)))
      ≡ true
settled_unchanged today row t ts =
    elim (Bool-cases (is_unchanged row (as_update (verdict_of today row (t ∷ ts))))) [
      | inl same ↦ rw same same
      | inr moved ↦
          rw
            (
              moved,
              verdict_of-patched today (as_update (verdict_of today row (t ∷ ts))) row (t ∷ ts),
            )
            (is_unchanged-patched row (verdict_of today row (t ∷ ts)))
    ]

-- Nothing is written and nothing is reported as changed.
abbrev pub Quiet : RollupRun → RollupRun → Type 0
Quiet before after =
    (after.changed ≡ before.changed)
    × (after.updates ≡ before.updates)
    × (after.details ≡ before.details)

visit-Quiet :
    (today : ℕ) (dry_run : Bool) (row : LedgerRow) (txns : List Transaction) (run : RollupRun)
    → Quiet run (visit today dry_run (patched_by today txns row) txns run)
unfolding visit
visit-Quiet today dry_run row [] run = (refl, refl, refl)
visit-Quiet today dry_run row (t ∷ ts) run =
    rw (settled_unchanged today row t ts) (refl, refl, refl)

rows-Quiet :
    (today : ℕ) (dry_run : Bool) (index : Index) (rows : List LedgerRow) (run : RollupRun)
    → Quiet run (visit_rows today dry_run index (map (settled today index) rows) run)
unfolding visit_rows
rows-Quiet today dry_run index [] run = (refl, refl, refl)
rows-Quiet today dry_run index (row ∷ rows) run =
    let txns = lines_of (ledger_id row) index in
    let (c, u, d) = visit-Quiet today dry_run row txns run in
    let (c', u', d') =
      rows-Quiet today dry_run index rows
        (visit today dry_run (patched_by today txns row) txns run) in
    rw (ledger_id-settled today row txns, visit_rows) (c' ∙ c, u' ∙ u, d' ∙ d)

-- A run over the settled rows.
pub settled-Quiet :
    (today : ℕ) (dry_run : Bool) (ledger : List LedgerRow) (txns : List Transaction)
    → Quiet start
        (run_rollup today dry_run (map (settled today (index_transactions txns)) ledger) txns)
unfolding run_rollup
settled-Quiet today dry_run ledger txns =
    rows-Quiet today dry_run (index_transactions txns) ledger start

pub record IsBalanced (dry_run : Bool) (run : RollupRun) : Type 0 where
  pub once : run.examined ≡ run.changed + run.unchanged
  pub verdicts : length run.by_status ≡ run.examined
  pub writes : length run.updates ≡ (if dry_run then 0 else run.changed)
  pub reports : length run.details ≡ run.changed

none_yet : (dry_run : Bool) → IsBalanced dry_run start
none_yet dry_run = ground arith

examine-IsBalanced :
    (dry_run : Bool) (row : LedgerRow) (c : Classification) (run : RollupRun)
    → IsBalanced dry_run run
    → IsBalanced dry_run (examine dry_run row c run)
unfolding examine
examine-IsBalanced dry_run row c run b = ground (
  arith,
  length-append run.by_status (c.status ∷ []),
  length-append run.updates ((ledger_id row, as_update c) ∷ []),
  length-append run.details ((row.reconciliation_status, c.status, c.severity) ∷ []),
)

visit-IsBalanced :
    (today : ℕ) (dry_run : Bool) (row : LedgerRow) (txns : List Transaction) (run : RollupRun)
    → IsBalanced dry_run run
    → IsBalanced dry_run (visit today dry_run row txns run)
unfolding visit
visit-IsBalanced today dry_run row [] run b = b
visit-IsBalanced today dry_run row (t ∷ ts) run b =
    examine-IsBalanced dry_run row (verdict_of today row (t ∷ ts)) run b

rows-IsBalanced :
    (today : ℕ) (dry_run : Bool) (index : Index) (rows : List LedgerRow) (run : RollupRun)
    → IsBalanced dry_run run
    → IsBalanced dry_run (visit_rows today dry_run index rows run)
unfolding visit_rows
rows-IsBalanced today dry_run index [] run b = b
rows-IsBalanced today dry_run index (row ∷ rows) run b =
    rows-IsBalanced today dry_run index rows _
      (visit-IsBalanced today dry_run row (lines_of (ledger_id row) index) run b)

-- Of every run: each row examined is counted once, as changed or unchanged, and has one verdict; there
-- is a report for each change, and an update for each unless the run is dry, when there is none.
pub run_rollup-IsBalanced :
    (today : ℕ) (dry_run : Bool) (ledger : List LedgerRow) (txns : List Transaction)
    → IsBalanced dry_run (run_rollup today dry_run ledger txns)
unfolding run_rollup
run_rollup-IsBalanced today dry_run ledger txns =
    rows-IsBalanced today dry_run (index_transactions txns) ledger start (none_yet dry_run)
