-- ===== src/Commissions/Reconcile/Tests.antt =====
-- The theorems on the rollup at one ledger row with three statement lines.
use rsg_hermes.Prelude.{
  ℕ, String, ◌+◌, ◌≡◌, refl, true, false, none, some, List, [], ◌∷◌, length, ◌==◌, arith,
  if◌then◌else◌,
}
use rsg_hermes.Prelude.Int.{pos, ◌-ℤ◌, ◌+ℤ◌}
use rsg_hermes.Prelude.Text.{codes, strip}
use rsg_hermes.Python.Decimal.{Scalar, null, num, text, decimal, units}
use rsg_hermes.Python.Date.{parse_date}
use rsg_hermes.Commissions.Reconcile.{
  Status, pending, underpaid, Transaction, LedgerRow, Rollup, dec, in_term, rollup, severity,
  is_cancelled, classify_reconciliation,
}
use rsg_hermes.Commissions.Reconcile.Sums.{rollup_sums, own_lines, sum_amounts}
use rsg_hermes.Commissions.Reconcile.Verdicts.{ByDelta, classify-ByDelta}
use rsg_hermes.Commissions.Reconcile.Run.{run_rollup, start, ledger_id, append_at}
use rsg_hermes.Commissions.Reconcile.Applied.{applied, rerun-Quiet}
use rsg_hermes.Commissions.Reconcile.Rerun.{Quiet}

abbrev line_of : String → Scalar → Transaction
line_of day amount = record {
  ledger_id = some (codes "L1");
  transaction_date = some (codes day);
  commission_amount = amount;
}

-- Two lines of the first term, a chargeback among them, and one on the day on which it ends.
abbrev history : List Transaction
history =
    line_of "2025-03-01" (num (units 120))
    ∷ line_of "2025-06-15" (text (codes "-20.50"))
    ∷ line_of "2026-01-01" (num (units 300))
    ∷ []

abbrev renewed : LedgerRow
renewed = record {
  id = some (codes "L1");
  policy_effective_date = some (codes "2025-01-01");
  policy_expiration_date = some (codes "2026-01-01");
  statement_date = none;
  policy_status = some (codes "Active");
  expected_commission = num (units 150);
  actual_commission = null;
  reconciliation_status = some pending;
}

first_term : (rollup renewed history).actual ≡ some (pos 99500000)
unfolding rollup in_term parse_date dec decimal ◌+ℤ◌
first_term = refl

rollup_sums_example :
    ((rollup renewed history).actual ≡ (
      if length (own_lines renewed history) == 0
      then none
      else some (sum_amounts (own_lines renewed history))))
    × ((rollup renewed history).in_term_count ≡ length (own_lines renewed history))
    × ((rollup renewed history).in_term_count + (rollup renewed history).out_of_term_count
        ≡ length history)
    × ((rollup renewed history).transaction_count ≡ length history)
rollup_sums_example = rollup_sums renewed history

abbrev arrived_late : List Transaction
arrived_late =
    line_of "2025-06-15" (text (codes "-20.50"))
    ∷ line_of "2025-03-01" (num (units 120))
    ∷ line_of "2026-01-01" (num (units 300))
    ∷ []

-- 2025-01-01, 2026-01-01 and 2027-01-01.
abbrev first_day : ℕ
first_day = 739252

abbrev second_day : ℕ
second_day = 739617

abbrev third_day : ℕ
third_day = 739982

abbrev two_lines : Rollup
two_lines = record {
  actual = some (pos 99500000);
  transaction_count = 3;
  in_term_count = 2;
  negative_count = 1;
  out_of_term_count = 1;
}

abbrev short : Status
short = (classify_reconciliation (num (units 150)) two_lines (some (codes "Active")) true).status

short_by :
    (classify_reconciliation (num (units 150)) two_lines (some (codes "Active")) true).status
    ≡ underpaid
unfolding classify_reconciliation dec is_cancelled strip ◌-ℤ◌
short_by = refl

classify-ByDelta_example :
    ((classify_reconciliation (num (units 150)) two_lines (some (codes "Active")) true).delta
      ≡ some (pos 99500000 -ℤ units 150))
    × ByDelta short (pos 99500000 -ℤ units 150) (is_cancelled (some (codes "Active"))) true
unfolding dec
classify-ByDelta_example =
    classify-ByDelta (num (units 150)) two_lines (some (codes "Active")) true (pos 99500000)
      (units 150) (omega arith) refl refl (λ e. cc e)

rerun-Quiet_example : Quiet start (
    run_rollup second_day false
      (applied (run_rollup second_day false (renewed ∷ []) history).updates (renewed ∷ []))
      history)
rerun-Quiet_example = rerun-Quiet second_day false (renewed ∷ []) history (tt, tt)

one_update : length (run_rollup second_day false (renewed ∷ []) history).updates ≡ 1
unfolding run_rollup dec strip parse_date decimal severity is_cancelled append_at ledger_id ◌-ℤ◌
    in_term ◌+ℤ◌
one_update = refl
