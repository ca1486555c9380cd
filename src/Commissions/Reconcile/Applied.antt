-- ===== src/Commissions/Reconcile/Applied.antt =====
-- The ledger behind the updates that a run of the rollup has sent.
use rsg_hermes.Prelude.{
  ℕ, ◌≡◌, ◌≢◌, refl, sym, ◌∙◌, ap, Bool, false, List, [], ◌∷◌, ◌++◌, map, All, All-append,
  append_assoc, append-nil, inl, inr, Bool-cases, if◌then◌else◌,
}
use mathlib.Core.Path.{ap₂, subst}
use rsg_hermes.Prelude.Text.{Text, text_eq}
use rsg_hermes.Prelude.Dict.{text_eq→eq, text_eq_refl}
use rsg_hermes.Commissions.Reconcile.{Transaction, LedgerRow}
use rsg_hermes.Commissions.Reconcile.Run.{
  Index, Patch, RollupRun, start, ledger_id, lines_of, as_update, is_unchanged, verdict_of, examine,
  visit, visit_rows, index_transactions, run_rollup,
}
use rsg_hermes.Commissions.Reconcile.Rerun.{
  patched, patched_by, settled, ledger_id-settled, Quiet, settled-Quiet,
}

-- `supa.update(LEDGER_TABLE, id, patch)`
abbrev pub update_row : Text → Patch → LedgerRow → LedgerRow
update_row i p row = if text_eq (ledger_id row) i then patched p row else row

-- The ledger behind a list of updates, in order.
abbrev pub applied : List (Text × Patch) → List LedgerRow → List LedgerRow
applied [] ledger = ledger
applied ((i, p) ∷ us) ledger = applied us (map (update_row i p) ledger)

-- The ids of the rows differ, as those of a table's rows do.
abbrev pub HasDistinct : List LedgerRow → Type 0
HasDistinct [] = Unit {0}
HasDistinct (row ∷ rows) = All (λ r. ledger_id r ≢ ledger_id row) rows × HasDistinct rows

differs : (a b : Text) → a ≢ b → text_eq a b ≡ false
differs a b ne = elim (Bool-cases (text_eq a b)) [
  | inl same ↦ absurd (ne (text_eq→eq a b same))
  | inr other ↦ other
]

-- The updates of one row, and of the rows.
abbrev updates_by : ℕ → List Transaction → LedgerRow → List (Text × Patch)
updates_by today [] row = []
updates_by today (t ∷ ts) row =
    let p = as_update (verdict_of today row (t ∷ ts)) in
    if is_unchanged row p then [] else (ledger_id row, p) ∷ []

abbrev updates_of : ℕ → Index → List LedgerRow → List (Text × Patch)
updates_of today index [] = []
updates_of today index (row ∷ rows) =
    updates_by today (lines_of (ledger_id row) index) row ++ updates_of today index rows

applied-append :
    (us vs : List (Text × Patch)) (ledger : List LedgerRow)
    → applied (us ++ vs) ledger ≡ applied vs (applied us ledger)
applied-append [] vs ledger = refl
applied-append ((i, p) ∷ us) vs ledger = applied-append us vs (map (update_row i p) ledger)

visit-updates :
    (today : ℕ) (row : LedgerRow) (txns : List Transaction) (run : RollupRun)
    → (visit today false row txns run).updates ≡ run.updates ++ updates_by today txns row
unfolding visit examine
visit-updates today row [] run = sym (append-nil run.updates)
visit-updates today row (t ∷ ts) run =
    elim (Bool-cases (is_unchanged row (as_update (verdict_of today row (t ∷ ts))))) [
      | inl same ↦ rw same (sym (append-nil run.updates))
      | inr moved ↦ rw moved refl
    ]

rows-updates :
    (today : ℕ) (index : Index) (rows : List LedgerRow) (run : RollupRun)
    → (visit_rows today false index rows run).updates ≡ run.updates ++ updates_of today index rows
unfolding visit_rows
rows-updates today index [] run = sym (append-nil run.updates)
rows-updates today index (row ∷ rows) run =
    rows-updates today index rows (visit today false row (lines_of (ledger_id row) index) run)
    ∙ (ap (λ us. us ++ updates_of today index rows)
          (visit-updates today row (lines_of (ledger_id row) index) run)
        ∙ append_assoc run.updates (updates_by today (lines_of (ledger_id row) index) row)
            (updates_of today index rows))

-- Rows with other ids stay.
others_stay :
    (i : Text) (p : Patch) (rows : List LedgerRow)
    → All (λ r. ledger_id r ≢ i) rows
    → map (update_row i p) rows ≡ rows
others_stay i p [] h = refl
others_stay i p (r ∷ rows) h =
    ap₂ (λ (x : LedgerRow) (xs : List LedgerRow). x ∷ xs)
      (ap (λ b. if b then patched p r else r) (differs (ledger_id r) i h.0))
      (others_stay i p rows h.1)

-- The updates of one row settle it.
one_settled :
    (today : ℕ) (txns : List Transaction) (row : LedgerRow) (rows : List LedgerRow)
    → All (λ r. ledger_id r ≢ ledger_id row) rows
    → applied (updates_by today txns row) (row ∷ rows) ≡ patched_by today txns row ∷ rows
one_settled today [] row rows h = refl
one_settled today (t ∷ ts) row rows h =
    elim (Bool-cases (is_unchanged row (as_update (verdict_of today row (t ∷ ts))))) [
      | inl same ↦ rw same refl
      | inr moved ↦ rw moved (
          ap₂ (λ (x : LedgerRow) (xs : List LedgerRow). x ∷ xs)
            (ap (λ b. if b then patched (as_update (verdict_of today row (t ∷ ts))) row else row)
              (text_eq_refl (ledger_id row)))
            (others_stay (ledger_id row) _ rows h))
    ]

first_stays :
    (r : LedgerRow) (us : List (Text × Patch)) (rows : List LedgerRow)
    → All (λ u. ledger_id r ≢ u.0) us
    → applied us (r ∷ rows) ≡ r ∷ applied us rows
first_stays r [] rows h = refl
first_stays r ((i, p) ∷ us) rows h =
    ap (λ b. applied us ((if b then patched p r else r) ∷ map (update_row i p) rows))
      (differs (ledger_id r) i h.0)
    ∙ first_stays r us (map (update_row i p) rows) h.1

own_foreign :
    (today : ℕ) (i : Text) (r : LedgerRow) (txns : List Transaction)
    → ledger_id r ≢ i
    → All (λ u. i ≢ u.0) (updates_by today txns r)
own_foreign today i r [] ne = tt
own_foreign today i r (t ∷ ts) ne =
    elim (Bool-cases (is_unchanged r (as_update (verdict_of today r (t ∷ ts))))) [
      | inl same ↦ rw same tt
      | inr moved ↦ rw moved ((λ e. ne (sym e)), tt)
    ]

-- The updates of rows with other ids name none of them.
foreign :
    (today : ℕ) (index : Index) (i : Text) (rows : List LedgerRow)
    → All (λ r. ledger_id r ≢ i) rows
    → All (λ u. i ≢ u.0) (updates_of today index rows)
foreign today index i [] h = tt
foreign today index i (r ∷ rows) h =
    All-append (λ u. i ≢ u.0) (updates_by today (lines_of (ledger_id r) index) r)
      (updates_of today index rows) (own_foreign today i r (lines_of (ledger_id r) index) h.0)
      (foreign today index i rows h.1)

updates_settle :
    (today : ℕ) (index : Index) (rows : List LedgerRow)
    → HasDistinct rows
    → applied (updates_of today index rows) rows ≡ map (settled today index) rows
updates_settle today index [] h = refl
updates_settle today index (row ∷ rows) h =
    applied-append (updates_by today (lines_of (ledger_id row) index) row)
      (updates_of today index rows) (row ∷ rows)
    ∙ (ap (applied (updates_of today index rows))
          (one_settled today (lines_of (ledger_id row) index) row rows h.0)
        ∙ (first_stays (settled today index row) (updates_of today index rows) rows (
              subst (λ i. All (λ u. i ≢ u.0) (updates_of today index rows))
                (sym (ledger_id-settled today row (lines_of (ledger_id row) index)))
                (foreign today index (ledger_id row) rows h.0))
            ∙ ap (λ rs. settled today index row ∷ rs) (updates_settle today index rows h.1)))

-- A second run on the same day and the same lines, over the ledger with the updates that the first has
-- sent, changes no row, writes nothing and reports no change, if the ids of the ledger's rows differ.
pub rerun-Quiet :
    (today : ℕ) (dry_run : Bool) (ledger : List LedgerRow) (txns : List Transaction)
    → HasDistinct ledger
    → Quiet start (
        run_rollup today dry_run (applied (run_rollup today false ledger txns).updates ledger) txns)
unfolding run_rollup
rerun-Quiet today dry_run ledger txns h =
    let same =
      ap (λ us. applied us ledger) (rows-updates today (index_transactions txns) ledger start)
      ∙ updates_settle today (index_transactions txns) ledger h in
    rw same (settled-Quiet today dry_run ledger txns)
