-- ===== src/Commissions/Statements/Tests.antt =====
-- A statement of two lines and a total line, staged and committed.
use rsg_hermes.Prelude.{
  ◌+◌, ◌≡◌, refl, ◌*◌, map_option, String, Bool, true, false, Option, none, some, List, [], ◌∷◌,
  ◌++◌, ◌⊎◌, arith, length, if◌then◌else◌,
}
use rsg_hermes.Prelude.Int.{ℤ, pos, ◌+ℤ◌, ◌-ℤ◌}
use rsg_hermes.Prelude.Text.{Text, codes, strip, text_eq}
use rsg_hermes.Python.Decimal.{decimal}
use rsg_hermes.Commissions.Matching.Relink.{LinkRun}
use rsg_hermes.Commissions.Statements.Parse.{
  Day, RawRow, TransactionType, key_of, field, as_money, as_month_key,
}
use rsg_hermes.Commissions.Statements.Rows.{
  Line, line_of, parse_row, parse_rows, Partitions, parse_rows-Partitions, printed_month,
  as_month_key-printed_month,
}
use rsg_hermes.Commissions.Statements.Batches.{
  BatchStatus, Batch, Store, Upload, ParsedFile, stage_lines, stage_statement, new_batch,
  crosscheck_passes, check_of, crosscheck, requires_source_confirmation,
}
use rsg_hermes.Commissions.Statements.Commit.{
  Refusal, not_pending, not_confirmed, CommitResult, refused, done, CommitEnv, refusal,
  insert_lines, update_batch, commit_statement, reject_statement, find_batch,
}
use rsg_hermes.Commissions.Statements.Gate.{IsApprovable, IsPosted, commit_gate, commit-IsPosted}
use rsg_hermes.Commissions.Statements.Ledger.{
  commit_once, failed_commit_blocks_retry, status_of, lines_as, commit_again_doubles,
}

abbrev undated : Text → String → Option Day
undated s f = none

abbrev row : Text → Text → RawRow
row number amount = (codes "Policy #", some number) ∷ (codes "Gross Comm.", some amount) ∷ []

abbrev file_rows : List RawRow
file_rows =
    row (codes "AB-1") (codes "$100.00")
    ∷ row (codes "AB-2") (codes "(25.50)")
    ∷ row [] (codes "74.50")
    ∷ row [] []
    ∷ []

key_of_sign : key_of (codes "Gross Comm.") ≡ codes "grosscomm"
unfolding key_of
key_of_sign = refl

two_lines : length (parse_rows undated 2 file_rows).lines ≡ 2
unfolding parse_rows parse_row line_of field key_of as_money strip decimal
two_lines = refl

parse_rows-Partitions_example : Partitions undated 4 (parse_rows undated 2 file_rows)
parse_rows-Partitions_example = parse_rows-Partitions undated 2 file_rows

as_month_key-printed_month_example :
    as_month_key (some (printed_month (if true then codes "-" else []) 2026 2)) none
    ≡ some (2026 * 100 + 2)
as_month_key-printed_month_example =
    as_month_key-printed_month true 2026 2 none (omega arith) (omega arith) (omega arith)
      (omega arith)

abbrev line_with : Text → ℤ → Line
line_with number amount = record {
  policy_number = number;
  insured_name = none;
  carrier_name = none;
  lob = none;
  transaction_code = none;
  transaction_type = TransactionType.other;
  transaction_date = none;
  month_key = some 202602;
  gross_premium = none;
  commission_rate = none;
  commission_amount = some amount;
  fee_amount = none;
  raw_row = [];
}

abbrev parsed : ParsedFile
parsed = record {
  lines = line_with (codes "AB-1") (pos 100000000) ∷ line_with (codes "AB-2") (pos 25500000) ∷ [];
  extraction_method = codes "pdf_text";
  carrier = none;
  stated_premium = none;
  stated_commission = none;
}

abbrev upload : Upload
upload = record {
  digest = codes "H1";
  carrier = some (codes "Acme");
  stated_premium = none;
  stated_commission = some (codes "$126.00");
}

abbrev nothing : Store
nothing = record { batches = []; staging = []; statements = []; transactions = [] }

abbrev all_lines : Line → Bool
all_lines l = true

abbrev with_batch : Store
with_batch = (stage_statement all_lines (some (codes "B1")) upload parsed nothing).1

abbrev no_links : LinkRun
no_links = record {
  examined = 2;
  exact = 0;
  normalized = 0;
  created = 0;
  unmatched = 2;
  ledger_rows_created = 0;
  unmatched_policies = [];
  errors = [];
  created_for = [];
  inserted = [];
  linked_lines = [];
}

abbrev answers : Text → Option LinkRun → CommitEnv
answers i link = record {
  statement_id = some i;
  accepts = λ l. true;
  relinks = λ rows. link;
  rolls_up = λ rows. true;
  updates = true;
}

abbrev works : CommitEnv
works = answers (codes "S1") (some no_links)

abbrev two_committed : Text → CommitResult
two_committed i = record { statement_id = i; committed = 2; refused_lines = []; link = no_links }

abbrev committed_store : Store
committed_store = (commit_statement works (codes "B1") (codes "ana") true with_batch).1

is_committed :
    commit_statement works (codes "B1") (codes "ana") true with_batch
    ≡ (done (two_committed (codes "S1")), committed_store)
unfolding stage_statement stage_lines check_of crosscheck crosscheck_passes as_money strip decimal
    ◌+ℤ◌ ◌-ℤ◌ commit_statement refusal requires_source_confirmation insert_lines update_batch
is_committed = refl

-- A PDF's batch is not committed before somebody has confirmed it.
unconfirmed :
    commit_statement works (codes "B1") (codes "ana") false with_batch
    ≡ (refused not_confirmed, with_batch)
unfolding stage_statement stage_lines check_of crosscheck crosscheck_passes as_money strip decimal
    ◌+ℤ◌ ◌-ℤ◌ commit_statement refusal requires_source_confirmation insert_lines update_batch
unconfirmed = refl

commit_gate_example :
    ((r : Refusal) × (commit_statement works (codes "B1") (codes "ana") true with_batch
        ≡ (refused r, with_batch)))
    ⊎ ((b : Batch) × IsApprovable (codes "B1") true with_batch b)
commit_gate_example = commit_gate works (codes "B1") (codes "ana") true with_batch

commit-IsPosted_example :
    IsPosted works
      (codes "B1")
      (codes "ana")
      true
      with_batch
      (two_committed (codes "S1"))
      committed_store
commit-IsPosted_example =
    commit-IsPosted works (codes "B1") (codes "ana") true with_batch committed_store
      (two_committed (codes "S1")) is_committed

commit_once_example :
    (map_option status_of (find_batch (codes "B1") committed_store.batches)
      ≡ some BatchStatus.committed)
    × (commit_statement works (codes "B1") (codes "ben") true committed_store
        ≡ (refused not_pending, committed_store))
commit_once_example =
    commit_once works works (codes "B1") (codes "ana") (codes "ben") true true with_batch
      committed_store (two_committed (codes "S1")) is_committed (omega arith)

-- A database that refuses each line.
abbrev refuses : CommitEnv
refuses = record works { accepts = λ l. false }

abbrev none_committed : CommitResult
none_committed = record {
  statement_id = codes "S1";
  committed = 0;
  refused_lines = with_batch.staging;
  link = no_links;
}

abbrev failed_store : Store
failed_store = (commit_statement refuses (codes "B1") (codes "ana") true with_batch).1

is_failed :
    commit_statement refuses (codes "B1") (codes "ana") true with_batch
    ≡ (done none_committed, failed_store)
unfolding stage_statement stage_lines check_of crosscheck crosscheck_passes as_money strip decimal
    ◌+ℤ◌ ◌-ℤ◌ commit_statement refusal requires_source_confirmation insert_lines update_batch
is_failed = refl

failed_commit_blocks_retry_example :
    (failed_store.transactions ≡ [])
    × (map_option status_of (find_batch (codes "B1") failed_store.batches) ≡ some BatchStatus.error)
    × (commit_statement works (codes "B1") (codes "ben") true failed_store
        ≡ (refused not_pending, failed_store))
unfolding stage_statement
failed_commit_blocks_retry_example =
    failed_commit_blocks_retry refuses works (codes "B1") (codes "ana") (codes "ben") true true
      with_batch failed_store none_committed is_failed refl

-- The relinking raises at first.
abbrev fails : CommitEnv
fails = answers (codes "S0") none

abbrev cut : Store
cut = (commit_statement fails (codes "B1") (codes "ana") true with_batch).1

abbrev committed_late : Store
committed_late = (commit_statement works (codes "B1") (codes "ana") true cut).1

committed_again :
    commit_statement works (codes "B1") (codes "ana") true cut
    ≡ (done (two_committed (codes "S1")), committed_late)
unfolding stage_statement stage_lines check_of crosscheck crosscheck_passes as_money strip decimal
    ◌+ℤ◌ ◌-ℤ◌ commit_statement refusal requires_source_confirmation insert_lines update_batch
committed_again = refl

is_approvable : IsApprovable (codes "B1") true with_batch (new_batch upload parsed (codes "B1"))
unfolding stage_statement stage_lines check_of crosscheck crosscheck_passes as_money strip decimal
    ◌+ℤ◌ ◌-ℤ◌ requires_source_confirmation
is_approvable = record {
  there = refl;
  pending = refl;
  checked = refl;
  confirmed = refl;
  nonempty = λ e. cc;
}

commit_again_doubles_example :
    committed_late.transactions
    ≡ ([] ++ lines_as (codes "S0") (new_batch upload parsed (codes "B1")) with_batch.staging)
      ++ lines_as (codes "S1") (new_batch upload parsed (codes "B1")) with_batch.staging
unfolding stage_statement stage_lines
commit_again_doubles_example =
    commit_again_doubles fails works (codes "B1") (codes "ana") (codes "ana") (codes "S0") true true
      with_batch committed_late (new_batch upload parsed (codes "B1")) (two_committed (codes "S1"))
      is_approvable refl refl (refl, (refl, tt)) (refl, (refl, tt)) committed_again

-- An insert into the staging that raises leaves a batch of two lines with one, which passes the gate.
abbrev one_line : Line → Bool
one_line l = text_eq l.policy_number (codes "AB-1")

abbrev half : Store
half = (stage_statement one_line (some (codes "B1")) upload parsed nothing).1

half_committed :
    (commit_statement works (codes "B1") (codes "ana") true half).0
    ≡ done
        (record { statement_id = codes "S1"; committed = 1; refused_lines = []; link = no_links })
unfolding stage_statement stage_lines check_of crosscheck crosscheck_passes as_money strip decimal
    ◌+ℤ◌ ◌-ℤ◌ commit_statement refusal requires_source_confirmation insert_lines update_batch
half_committed = refl

-- A batch that has been committed can be rejected.
rejects_committed : (reject_statement (codes "B1") (codes "ben") none committed_store).0 ≡ true
unfolding stage_statement stage_lines check_of crosscheck crosscheck_passes as_money strip decimal
    ◌+ℤ◌ ◌-ℤ◌ commit_statement refusal requires_source_confirmation insert_lines update_batch
    reject_statement
rejects_committed = refl
