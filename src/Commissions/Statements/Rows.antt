-- ===== src/Commissions/Statements/Rows.antt =====
-- hermes/commissions/statements.py: `parse_row`, and the loop over a file's rows that `parse_csv`,
-- `parse_xlsx` and `parse_pdf` share. `strptime` is a parameter.
use rsg_hermes.Prelude.{
  ℕ, suc, ◌+◌, ◌*◌, ◌/◌, ◌%◌, ◌≤◌, ◌≡◌, ◌≢◌, refl, String, Bool, true, false, Option, none, some,
  List, [], ◌∷◌, ◌++◌, arith, le→leb, All, length, or_else, inl, inr, ◌⊎◌, if◌then◌else◌,
}
use rsg_hermes.Prelude.Int.{ℤ}
use rsg_hermes.Prelude.Text.{Text, codes, strip, is_digit}
use rsg_hermes.Commissions.Statements.Parse.{
  Day, date_formats, policy_number, insured_name, carrier_name, lob, transaction_code,
  transaction_date, month_key, gross_premium, commission_rate, commission_amount, fee_amount,
  RawRow, kept, number, field, as_money, as_rate, as_month_key, TransactionType,
  normalize_transaction_type,
}

pub record Line : Type 0 where
  pub policy_number : Text
  pub insured_name : Option Text
  pub carrier_name : Option Text
  pub lob : Option Text
  pub transaction_code : Option Text
  pub transaction_type : TransactionType
  pub transaction_date : Option Day
  pub month_key : Option ℕ
  pub gross_premium : Option ℤ
  pub commission_rate : Option ℤ
  pub commission_amount : Option ℤ
  pub fee_amount : Option ℤ
  pub raw_row : RawRow

-- `str(v or "").strip()`, and the same with `or None`.
abbrev pub stripped : Option Text → Text
stripped v = strip (or_else v [])

abbrev pub filled : Text → Option Text
filled [] = none
filled (c ∷ s) = some (c ∷ s)

-- The lines, the rows that are no lines, and those with money and no policy number, by their index.
pub record Parsed : Type 0 where
  pub lines : List Line
  pub skipped : ℕ
  pub policyless : List (ℕ × Option ℤ)

module _ (strptime : Text → String → Option Day) where
  abbrev pub first_format : Text → List String → Option Day
  first_format s [] = none
  first_format s (f ∷ fs) = elim (strptime s f) [ some d ↦ some d | none ↦ first_format s fs ]

  -- `as_date`, of a text.
  unfoldable pub as_date : Option Text → Option Day
  as_date none = none
  as_date (some []) = none
  as_date (some (c ∷ s)) = first_format (strip (c ∷ s)) date_formats

  unfoldable pub line_of : RawRow → Line
  line_of raw = record {
    policy_number = stripped (field policy_number raw);
    insured_name = filled (stripped (field insured_name raw));
    carrier_name = filled (stripped (field carrier_name raw));
    lob = filled (stripped (field lob raw));
    transaction_code = filled (stripped (field transaction_code raw));
    transaction_type = normalize_transaction_type (field transaction_code raw);
    transaction_date = as_date (field transaction_date raw);
    month_key = as_month_key (field month_key raw) (as_date (field transaction_date raw));
    gross_premium = as_money (field gross_premium raw);
    commission_rate = as_rate (field commission_rate raw);
    commission_amount = as_money (field commission_amount raw);
    fee_amount = as_money (field fee_amount raw);
    raw_row = raw;
  }

  abbrev pub unless_blank : Text → Option ℤ → Line → Option Line
  unless_blank [] none line = none
  unless_blank [] (some a) line = some line
  unless_blank (c ∷ s) amount line = some line

  -- `parse_row`
  unfoldable pub parse_row : RawRow → Option Line
  parse_row raw =
      unless_blank (stripped (field policy_number raw)) (as_money (field commission_amount raw))
        (line_of raw)

  abbrev pub keep_line : ℕ → Text → Line → Parsed → Parsed
  keep_line index [] line p = record p {
    policyless = (index, line.commission_amount) ∷ p.policyless;
  }
  keep_line index (c ∷ s) line p = record p { lines = line ∷ p.lines }

  abbrev pub keep_row : ℕ → Option Line → Parsed → Parsed
  keep_row index none p = record p { skipped = p.skipped + 1 }
  keep_row index (some line) p = keep_line index line.policy_number line p

  -- The loop over the rows, from an index on.
  unfoldable pub parse_rows : ℕ → List RawRow → Parsed
  parse_rows index [] = record { lines = []; skipped = 0; policyless = [] }
  parse_rows index (raw ∷ rows) = keep_row index (parse_row raw) (parse_rows (index + 1) rows)

  abbrev pub HasPolicy : Line → Type 0
  HasPolicy line = line.policy_number ≢ []

  abbrev pub HasMoney : ℕ × Option ℤ → Type 0
  HasMoney (i, amount) = amount ≢ none

  pub record Partitions (n : ℕ) (p : Parsed) : Type 0 where
    pub counted : length p.lines + p.skipped + length p.policyless ≡ n
    pub numbered : All HasPolicy p.lines
    pub paid : All HasMoney p.policyless

  line_kept :
      (index n : ℕ) (number : Text) (line : Line) (p : Parsed)
      → line.policy_number ≡ number
      → (number ≢ []) ⊎ (line.commission_amount ≢ none)
      → Partitions n p
      → Partitions (suc n) (keep_line index number line p)
  line_kept index n [] line p e (inl no_number) q = absurd (no_number refl)
  line_kept index n [] line p e (inr paid) q = record {
    counted = omega (arith, q.counted);
    numbered = q.numbered;
    paid = (paid, q.paid);
  }
  line_kept index n (c ∷ s) line p e real q = record {
    counted = omega (arith, q.counted);
    numbered = (λ none_left. cc, q.numbered);
    paid = q.paid;
  }

  row_kept :
      (index n : ℕ) (number : Text) (amount : Option ℤ) (line : Line) (p : Parsed)
      → line.policy_number ≡ number
      → line.commission_amount ≡ amount
      → Partitions n p
      → Partitions (suc n) (keep_row index (unless_blank number amount line) p)
  row_kept index n [] none line p e f q = record {
    counted = omega (arith, q.counted);
    numbered = q.numbered;
    paid = q.paid;
  }
  row_kept index n [] (some a) line p e f q =
      line_kept index n line.policy_number line p refl (inr (λ h. cc)) q
  row_kept index n (c ∷ s) amount line p e f q =
      line_kept index n line.policy_number line p refl (inl (λ h. cc)) q

  -- Every row of a file is a line with a policy number, or is counted as skipped, or is reported with
  -- its amount as a total line; and no total line, whose money would count twice, is among the lines.
  pub parse_rows-Partitions :
      (index : ℕ) (rows : List RawRow) → Partitions (length rows) (parse_rows index rows)
  unfolding parse_rows parse_row line_of
  parse_rows-Partitions index [] = record { counted = omega arith; numbered = tt; paid = tt }
  parse_rows-Partitions index (raw ∷ rows) =
      row_kept index (length rows) _ _ (line_of raw) (parse_rows (index + 1) rows) refl refl
        (parse_rows-Partitions (index + 1) rows)

-- A year and a month as the carriers write them, with what stands between.
abbrev digit : ℕ → ℕ
digit n = n % 10 + 48

abbrev pub printed_month : Text → ℕ → ℕ → Text
printed_month between year month =
    digit (year / 1000)
    ∷ digit (year / 100)
    ∷ digit (year / 10)
    ∷ digit year
    ∷ (between ++ (digit (month / 10) ∷ digit month ∷ []))

digit-is_digit : (n : ℕ) → is_digit (digit n) ≡ true
digit-is_digit n = ground arith

kept_month :
    (dashed : Bool) (year month : ℕ)
    → kept is_digit (printed_month (if dashed then codes "-" else []) year month)
      ≡ printed_month [] year month
kept_month true year month = simp digit-is_digit
kept_month false year month = simp digit-is_digit

number_month :
    (year month : ℕ)
    → year ≤ 2999
    → month ≤ 12
    → number 0 (printed_month [] year month) ≡ year * 100 + month
number_month year month h k = omega arith

-- A month that is written as YYYYMM or YYYY-MM is read back, for the years from 1900 to 2999.
pub as_month_key-printed_month :
    (dashed : Bool) (year month : ℕ) (fallback : Option Day)
    → 1900 ≤ year
    → year ≤ 2999
    → 1 ≤ month
    → month ≤ 12
    → as_month_key (some (printed_month (if dashed then codes "-" else []) year month)) fallback
      ≡ some (year * 100 + month)
unfolding as_month_key
as_month_key-printed_month dashed year month fallback h k i j = rw (kept_month dashed year month) (
    rw (number_month year month k j) (
      rw (le→leb 190001 (year * 100 + month) (omega arith))
        (rw (le→leb (year * 100 + month) 299912 (omega arith)) refl)))
