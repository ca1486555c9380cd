-- ===== src/Commissions/Statements/Posting.antt =====
-- A statement from its staging to its transactions.
use rsg_hermes.Prelude.{Option, none, some, List, [], ◌∷◌}
use rsg_hermes.Prelude.Int.{ℤ, ◌-ℤ◌, ◌≤ℤ◌, abs}
use rsg_hermes.Prelude.Text.{Text}
use rsg_hermes.Commissions.Statements.Rows.{Line}
use rsg_hermes.Commissions.Statements.Batches.{
  Staged, Transaction, with_carrier, crosscheck_tolerance, crashed as crashed_staging,
}

-- The staged rows of a batch.
abbrev rows_of : Text → Option Text → List Line → List Staged
rows_of i carrier [] = []
rows_of i carrier (l ∷ ls) =
    record { batch_id = i; line = with_carrier carrier l } ∷ rows_of i carrier ls

-- The amounts of transactions, which the carrier's name does not change.
abbrev pub amounts : List Transaction → List Line
amounts [] = []
amounts (t ∷ ts) = t.line ∷ amounts ts

-- Within a dollar of a total that is stated.
abbrev pub IsWithin : Option ℤ → ℤ → Type 0
IsWithin none sum = Unit {0}
IsWithin (some t) sum = abs (sum -ℤ t) ≤ℤ crosscheck_tolerance
