-- ===== src/Commissions/Statements/Batches.antt =====
-- hermes/commissions/statements.py: the crosscheck of a statement, its batch, and `stage_statement`. The
-- file has been read into lines (`parse_file`). The database is a record of tables.
use rsg_hermes.Prelude.{
  ℕ, Bool, true, false, ◌||◌, Option, none, some, List, [], ◌∷◌, ◌++◌, length, or_else,
  if◌then◌else◌,
}
use rsg_hermes.Prelude.Int.{ℤ, pos, ◌+ℤ◌, ◌-ℤ◌, abs, leb_ℤ}
use rsg_hermes.Prelude.Text.{Text, codes, text_eq, strip, lower, starts_with}
use rsg_hermes.Commissions.Statements.Parse.{as_money}
use rsg_hermes.Commissions.Statements.Rows.{Line}

pub data BatchStatus : Type 0 where
  pending_review approved rejected committed needs_mapping error : BatchStatus

pub record Batch : Type 0 where
  pub id : Text
  pub content_hash : Text
  pub carrier_name : Option Text
  pub extraction_method : Text
  pub is_ocr : Bool
  pub row_count : ℕ
  pub ingest_status : BatchStatus
  pub crosscheck_ok : Option Bool
  pub statement_id : Option Text
  pub reviewed_by : Option Text
  pub rejected_reason : Option Text

pub record Staged : Type 0 where
  pub batch_id : Text
  pub line : Line

pub record Transaction : Type 0 where
  pub statement_id : Text
  pub line : Line

-- The tables that the module writes; a statement is its id and its number of rows.
pub record Store : Type 0 where
  pub batches : List Batch
  pub staging : List Staged
  pub statements : List (Text × ℕ)
  pub transactions : List Transaction

unfoldable pub requires_source_confirmation : Text → Bool → Bool
requires_source_confirmation method is_ocr =
    starts_with (codes "pdf") (lower (strip method)) || is_ocr

abbrev pub crosscheck_tolerance : ℤ
crosscheck_tolerance = pos 1000000

abbrev pub or_zero : Option ℤ → ℤ
or_zero a = or_else a (pos 0)

abbrev pub commission_sum : List Line → ℤ
commission_sum [] = pos 0
commission_sum (l ∷ ls) = or_zero l.commission_amount +ℤ commission_sum ls

abbrev pub premium_sum : List Line → ℤ
premium_sum [] = pos 0
premium_sum (l ∷ ls) = or_zero l.gross_premium +ℤ premium_sum ls

pub record Crosscheck : Type 0 where
  pub parsed_premium : ℤ
  pub parsed_commission : ℤ
  pub stated_premium : Option ℤ
  pub stated_commission : Option ℤ

unfoldable pub crosscheck : List Line → Option ℤ → Option ℤ → Crosscheck
crosscheck lines stated_premium stated_commission = record {
  parsed_premium = premium_sum lines;
  parsed_commission = commission_sum lines;
  stated_premium = stated_premium;
  stated_commission = stated_commission;
}

unfoldable pub crosscheck_passes : Crosscheck → Bool
crosscheck_passes c = elim c.stated_commission [
  | none ↦ true
  | some stated ↦ leb_ℤ (abs (c.parsed_commission -ℤ stated)) crosscheck_tolerance
]

-- What the reader of the file returns, as far as it is staged.
pub record ParsedFile : Type 0 where
  pub lines : List Line
  pub extraction_method : Text
  pub carrier : Option Text
  pub stated_premium : Option ℤ
  pub stated_commission : Option ℤ

-- What the uploader gives.
pub record Upload : Type 0 where
  pub digest : Text
  pub carrier : Option Text
  pub stated_premium : Option Text
  pub stated_commission : Option Text

-- The uploader's total wins over the file's.
abbrev pub stated : Option Text → Option ℤ → Option ℤ
stated none parsed = parsed
stated (some []) parsed = parsed
stated (some (c ∷ s)) parsed = as_money (some (c ∷ s))

-- `a or b`
abbrev pub or_carrier : Option Text → Option Text → Option Text
or_carrier none b = b
or_carrier (some []) b = b
or_carrier (some (c ∷ s)) b = some (c ∷ s)

-- `if not payload.get("carrier_name")`
abbrev pub with_carrier : Option Text → Line → Line
with_carrier carrier line = record line {
  carrier_name =
      some (or_else (or_carrier line.carrier_name (or_carrier carrier none)) (codes "Unknown"));
}

abbrev pub find_hash : Text → List Batch → Option Batch
find_hash digest [] = none
find_hash digest (b ∷ bs) = if text_eq b.content_hash digest then some b else find_hash digest bs

abbrev pub status_for : List Line → BatchStatus
status_for [] = error
status_for (l ∷ ls) = pending_review

unfoldable pub check_of : Upload → ParsedFile → Crosscheck
check_of u f =
    crosscheck f.lines (stated u.stated_premium f.stated_premium)
      (stated u.stated_commission f.stated_commission)

abbrev pub new_batch : Upload → ParsedFile → Text → Batch
new_batch u f id = record {
  id = id;
  content_hash = u.digest;
  carrier_name = or_carrier u.carrier f.carrier;
  extraction_method = f.extraction_method;
  is_ocr = text_eq f.extraction_method (codes "pdf_ocr");
  row_count = length f.lines;
  ingest_status = status_for f.lines;
  crosscheck_ok = some (crosscheck_passes (check_of u f));
  statement_id = none;
  reviewed_by = none;
  rejected_reason = none;
}

-- What staging returns; an insert that raises ends it.
pub data StageResult : Type 0 where
  crashed : StageResult
  duplicate_of : Batch → StageResult
  staged_as : Batch → StageResult

module _ (accepts : Line → Bool) where
  -- The loop over the lines: `false` where an insert has raised.
  unfoldable pub stage_lines : Text → Option Text → List Line → List Staged → Bool × List Staged
  stage_lines id carrier [] rows = (true, rows)
  stage_lines id carrier (l ∷ ls) rows = elim (accepts l) [
    | true ↦
        stage_lines id carrier ls
          (rows ++ record { batch_id = id; line = with_carrier carrier l } ∷ [])
    | false ↦ (false, rows)
  ]

  abbrev pub staged_batch : Upload → ParsedFile → Store → Text → StageResult × Store
  staged_batch u f s id =
      let (all, rows) = stage_lines id (or_carrier u.carrier f.carrier) f.lines s.staging in
      let s' = record s { batches = s.batches ++ new_batch u f id ∷ []; staging = rows } in
      (if all then staged_as (new_batch u f id) else crashed, s')

  -- `stage_statement`; `id` is what the insert of the batch returns, `none` where it raises.
  unfoldable pub stage_statement : Option Text → Upload → ParsedFile → Store → StageResult × Store
  stage_statement id u f s = elim (find_hash u.digest s.batches) [
    | some prior ↦ (duplicate_of prior, s)
    | none ↦ elim id [ none ↦ (crashed, s) | some i ↦ staged_batch u f s i ]
  ]
