-- ===== src/Commissions/Reconcile.antt =====
-- hermes/commissions/reconcile.py: a ledger row's actual commission is the signed sum of the statement
-- lines inside its own term, and its status is derived from that sum. The proofs are in the modules
-- below.
pub mod Sums
pub mod Verdicts
pub mod Run
pub mod Rerun
pub mod Applied
mod Tests
use rsg_hermes.Prelude.{
  ℕ, suc, ◌+◌, ◌≤◌, ◌≡◌, Bool, true, false, not, ◌&&◌, ◌||◌, Option, none, some, List, [], ◌∷◌,
  ◌++◌, length, leb, ltb, ◌==◌, or_else, any, if◌then◌else◌,
}
use rsg_hermes.Prelude.Int.{ℤ, pos, ◌+ℤ◌, ◌-ℤ◌, abs, leb_ℤ, ltb_ℤ, eqb_ℤ}
use rsg_hermes.Prelude.Text.{Text, codes, text_eq, strip, lower}
use rsg_hermes.Python.Date.{parse_date}
use rsg_hermes.Python.Decimal.{Scalar, null, num, bool, text, decimal, units}

pub data Status : Type 0 where
  pending reconciled underpaid overpaid no_expected rolled_up canceled missing_statement : Status

abbrev status_tag : Status → ℕ
status_tag pending = 0
status_tag reconciled = 1
status_tag underpaid = 2
status_tag overpaid = 3
status_tag no_expected = 4
status_tag rolled_up = 5
status_tag canceled = 6
status_tag missing_statement = 7

abbrev pub status_eq : Status → Status → Bool
status_eq a b = status_tag a == status_tag b

pub data Severity : Type 0 where
  matched low medium high critical : Severity

abbrev pub tolerance : ℤ
tolerance = units 1

-- `_dec`: a boolean is no decimal literal.
unfoldable pub dec : Scalar → Option ℤ
dec null = none
dec (num z) = some z
dec (bool b) = none
dec (text []) = none
dec (text (c ∷ s)) = decimal (c ∷ s)

pub record Transaction : Type 0 where
  pub ledger_id : Option Text
  pub transaction_date : Option Text
  pub commission_amount : Scalar

pub record LedgerRow : Type 0 where
  pub id : Option Text
  pub policy_effective_date : Option Text
  pub policy_expiration_date : Option Text
  pub statement_date : Option Text
  pub policy_status : Option Text
  pub expected_commission : Scalar
  pub actual_commission : Scalar
  pub reconciliation_status : Option Status

-- `a or b`
abbrev pub first_date : Option ℕ → Option ℕ → Option ℕ
first_date none b = b
first_date (some a) b = some a

unfoldable pub term_window : LedgerRow → Option ℕ × Option ℕ
term_window row = (
  first_date (parse_date row.policy_effective_date) (parse_date row.statement_date),
  parse_date row.policy_expiration_date,
)

abbrev pub not_before : Option ℕ → ℕ → Bool
not_before none when = true
not_before (some start) when = leb start when

abbrev pub not_after : Option ℕ → ℕ → Bool
not_after none when = true
not_after (some end) when = ltb when end

abbrev pub dated_in : Option ℕ → Option ℕ → Option ℕ → Bool
dated_in start end none = false
dated_in start end (some when) = not_before start when && not_after end when

unfoldable pub in_term : Transaction → Option ℕ → Option ℕ → Bool
in_term txn start end = dated_in start end (parse_date txn.transaction_date)

pub record Rollup : Type 0 where
  pub actual : Option ℤ
  pub transaction_count : ℕ
  pub in_term_count : ℕ
  pub negative_count : ℕ
  pub out_of_term_count : ℕ

-- `_dec(txn.get("commission_amount")) or Decimal("0")`
abbrev pub amount_of : Transaction → ℤ
amount_of txn = or_else (dec txn.commission_amount) (pos 0)

-- The variables of the loop.
pub record Running : Type 0 where
  pub total : ℤ
  pub in_count : ℕ
  pub negative : ℕ
  pub out_count : ℕ

unfoldable pub add_line : Option ℕ → Option ℕ → Transaction → Running → Running
add_line start end txn r =
    if in_term txn start end
    then record r {
      total = r.total +ℤ amount_of txn;
      in_count = r.in_count + 1;
      negative = if ltb_ℤ (amount_of txn) (pos 0) then r.negative + 1 else r.negative;
    }
    else record r { out_count = r.out_count + 1 }

unfoldable pub add_lines : Option ℕ → Option ℕ → List Transaction → Running → Running
unfolding add_line
add_lines start end [] r = r
add_lines start end (txn ∷ txns) r = add_lines start end txns (add_line start end txn r)

abbrev pub nothing : Running
nothing = record { total = pos 0; in_count = 0; negative = 0; out_count = 0 }

abbrev closed : ℕ → Running → Rollup
closed n r = record {
  actual = if r.in_count == 0 then none else some r.total;
  transaction_count = n;
  in_term_count = r.in_count;
  negative_count = r.negative;
  out_of_term_count = r.out_count;
}

unfoldable pub rollup : LedgerRow → List Transaction → Rollup
unfolding term_window add_lines
rollup row txns =
    let (start, end) = term_window row in closed (length txns) (add_lines start end txns nothing)

abbrev pub has_transactions : Rollup → Bool
has_transactions r = ltb 0 r.in_term_count

abbrev severity_of : ℤ → Severity
severity_of magnitude =
    if leb_ℤ magnitude tolerance
    then matched
    else if leb_ℤ magnitude (units 50)
    then low
    else if leb_ℤ magnitude (units 200)
    then medium
    else if leb_ℤ magnitude (units 500)
    then high
    else critical

unfoldable pub severity : Option ℤ → Severity
severity none = matched
severity (some delta) = severity_of (abs delta)

pub record Classification : Type 0 where
  pub status : Status
  pub actual : Option ℤ
  pub expected : Option ℤ
  pub delta : Option ℤ
  pub severity : Severity

abbrev pub cancelled_statuses : List Text
cancelled_statuses = codes "cancelled" ∷ codes "canceled" ∷ codes "flat cancel" ∷ []

-- `str(policy_status or "").strip().lower() in CANCELLED_STATUSES`
unfoldable pub is_cancelled : Option Text → Bool
is_cancelled status = any (text_eq (lower (strip (or_else status [])))) cancelled_statuses

abbrev settle : Status → Option ℤ → ℤ → ℤ → Severity → Classification
settle status act exp delta band = record {
  status = status;
  actual = act;
  expected = some exp;
  delta = some delta;
  severity = band;
}

-- The branches once there is an expected amount and a delta.
unfoldable pub classify_delta : Option ℤ → ℤ → ℤ → Option Text → Bool → Classification
classify_delta act exp delta policy_status term_ended =
    if leb_ℤ (abs delta) tolerance
    then settle reconciled act exp delta matched
    else if ltb_ℤ (pos 0) delta
    then settle overpaid act exp delta (severity (some delta))
    else if is_cancelled policy_status
    then settle canceled act exp delta (severity (some delta))
    else if not term_ended
    then settle missing_statement act exp delta (severity (some delta))
    else settle underpaid act exp delta (severity (some delta))

abbrev without_expected : Option ℤ → Option ℤ → Classification
without_expected act exp = record {
  status = no_expected;
  actual = act;
  expected = exp;
  delta = none;
  severity = severity act;
}

abbrev pub against : Option ℤ → Option ℤ → Option Text → Bool → Classification
against act none policy_status term_ended = without_expected act none
against act (some exp) policy_status term_ended =
    if eqb_ℤ exp (pos 0)
    then without_expected act (some exp)
    else classify_delta act exp (or_else act (pos 0) -ℤ exp) policy_status term_ended

unfoldable pub classify_reconciliation : Scalar → Rollup → Option Text → Bool → Classification
unfolding classify_delta
classify_reconciliation expected roll policy_status term_ended =
    if has_transactions roll
    then against roll.actual (dec expected) policy_status term_ended
    else record {
      status = pending;
      actual = none;
      expected = dec expected;
      delta = none;
      severity = matched;
    }
