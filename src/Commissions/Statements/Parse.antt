-- ===== src/Commissions/Statements/Parse.antt =====
-- hermes/commissions/statements.py: the cells of a row, and the line that a row makes. A cell is a text or
-- is missing; a rate is in units of 10⁻⁸, since a percentage divides by a hundred.
use rsg_hermes.Prelude.{
  ℕ, ◌+◌, ◌-◌, ◌*◌, ◌≡◌, refl, String, Bool, true, false, not, ◌&&◌, ◌||◌, Option, none, some, List,
  [], ◌∷◌, any, length, leb, ◌==◌, map_option, or_else, if◌then◌else◌,
}
use rsg_hermes.Prelude.Int.{ℤ, pos, ◌-ℤ◌}
use rsg_hermes.Prelude.Text.{
  Text, codes, text_eq, is_digit, is_lower, strip, lower, starts_with, contains, take,
}
use rsg_hermes.Prelude.Dict.{Dict}
use rsg_hermes.Python.Decimal.{decimal}
use rsg_hermes.Overrides.{without_signs}
use mathlib.Core.List.{reverse}

abbrev is_key_char : ℕ → Bool
is_key_char c = is_lower c || is_digit c

abbrev pub kept : (ℕ → Bool) → Text → Text
kept p [] = []
kept p (c ∷ s) = let rest = kept p s in if p c then c ∷ rest else rest

-- `_key`
unfoldable pub key_of : Text → Text
key_of name = kept is_key_char (lower name)

abbrev pub drop_last : Text → Text
drop_last [] = []
drop_last (c ∷ []) = []
drop_last (c ∷ d ∷ s) = c ∷ drop_last (d ∷ s)

abbrev pub drop_first : Text → Text
drop_first [] = []
drop_first (c ∷ s) = s

abbrev pub ends_with : Text → Text → Bool
ends_with p s = starts_with (reverse p) (reverse s)

abbrev pub negated : Bool → ℤ → ℤ
negated true z = pos 0 -ℤ z
negated false z = z

-- Behind the parentheses.
abbrev pub amount_in : Bool → Text → Option ℤ
amount_in negative [] = none
amount_in negative (c ∷ s) =
    if text_eq (c ∷ s) (codes "-") || text_eq (c ∷ s) (codes ".")
    then none
    else map_option (negated negative) (decimal (c ∷ s))

abbrev pub in_parentheses : Text → Bool
in_parentheses s = starts_with (codes "(") s && ends_with (codes ")") s

unfoldable pub as_money : Option Text → Option ℤ
as_money none = none
as_money (some []) = none
as_money (some (c ∷ s)) =
    let cleaned = without_signs (strip (c ∷ s)) in
    if in_parentheses cleaned
    then amount_in true (drop_last (drop_first cleaned))
    else amount_in false cleaned

abbrev strip_percent : Text → Text
strip_percent [] = []
strip_percent (c ∷ s) = if c == b'%' then strip_percent s else c ∷ s

abbrev without_commas : Text → Text
without_commas s = kept (λ c. not (c == b',')) s

-- In units of 10⁻⁸.
abbrev rate_of : Bool → ℤ → ℤ
rate_of true z = z
rate_of false (pos n) = if leb n 1000000 then pos (n * 100) else pos n
rate_of false (ℤ.negsuc n) = pos 0 -ℤ pos ((n + 1) * 100)

unfoldable pub as_rate : Option Text → Option ℤ
as_rate none = none
as_rate (some []) = none
as_rate (some (c ∷ s)) =
    let t = strip (c ∷ s) in
    map_option (rate_of (ends_with (codes "%") t))
      (decimal (without_commas (reverse (strip_percent (reverse t)))))

pub record Day : Type 0 where
  pub year : ℕ
  pub month : ℕ
  pub day : ℕ

abbrev pub date_formats : List String
date_formats = "%Y-%m-%d" ∷ "%m/%d/%Y" ∷ "%m/%d/%y" ∷ "%d/%m/%Y" ∷ "%Y%m%d" ∷ "%m-%d-%Y" ∷ []

abbrev pub number : ℕ → Text → ℕ
number acc [] = acc
number acc (c ∷ s) = number (acc * 10 + (c - 48)) s

abbrev pub month_of : Option Day → Option ℕ
month_of none = none
month_of (some d) = some (d.year * 100 + d.month)

abbrev pub month_in : Text → Option Day → Option ℕ
month_in digits fallback =
    if leb 6 (length digits)
      && (leb 190001 (number 0 (take 6 digits)) && leb (number 0 (take 6 digits)) 299912)
    then some (number 0 (take 6 digits))
    else month_of fallback

unfoldable pub as_month_key : Option Text → Option Day → Option ℕ
as_month_key value fallback = month_in (kept is_digit (or_else value [])) fallback

pub data TransactionType : Type 0 where
  new renewal reinstatement chargeback adjustment endorsement cancel fee other : TransactionType

-- `_TYPE_RULES`
abbrev pub type_rules : List (String × TransactionType)
type_rules =
    ("new business", new)
    ∷ ("newbusiness", new)
    ∷ ("renewal", renewal)
    ∷ ("reinstate", reinstatement)
    ∷ ("chargeback", chargeback)
    ∷ ("credit endorsement", adjustment)
    ∷ ("endorsement", endorsement)
    ∷ ("cancel", cancel)
    ∷ ("credit", adjustment)
    ∷ ("audit", adjustment)
    ∷ ("adjust", adjustment)
    ∷ ("fee", fee)
    ∷ ("new", new)
    ∷ []

abbrev pub type_by : List (String × TransactionType) → Text → TransactionType
type_by [] s = other
type_by ((needle, kind) ∷ rules) s = if contains (codes needle) s then kind else type_by rules s

unfoldable pub normalize_transaction_type : Option Text → TransactionType
normalize_transaction_type code = type_by type_rules (lower (strip (or_else code [])))

-- The names of a field in `_ALIASES`, its own key first.
pub data Field : Type 0 where
  policy_number insured_name carrier_name lob transaction_code transaction_date : Field
  month_key gross_premium commission_rate commission_amount fee_amount : Field

abbrev pub aliases : Field → List String
aliases policy_number = "policynumber" ∷ "policy" ∷ "policyno" ∷ "policynum" ∷ "polnum" ∷ []
aliases insured_name = "insuredname" ∷ "insured" ∷ "client" ∷ "clientname" ∷ "namedinsured" ∷ []
aliases carrier_name = "carriername" ∷ "carrier" ∷ "company" ∷ "companyname" ∷ []
aliases lob = "lob" ∷ "lineofbusiness" ∷ "prod" ∷ "product" ∷ "coverage" ∷ []
aliases transaction_code = "transactioncode" ∷ "trancode" ∷ "type" ∷ "transactiontype" ∷ []
aliases transaction_date =
    "transactiondate" ∷ "trandate" ∷ "date" ∷ "effectivedate" ∷ "paiddate" ∷ []
aliases month_key = "monthkey" ∷ "monthend" ∷ "statementmonth" ∷ "period" ∷ []
aliases gross_premium = "grosspremium" ∷ "premium" ∷ "writtenpremium" ∷ []
aliases commission_rate = "commissionrate" ∷ "commrate" ∷ "rate" ∷ []
aliases commission_amount =
    "commissionamount" ∷ "grosscomm" ∷ "commission" ∷ "netdueagent" ∷ "commissionpaid" ∷ "amount"
    ∷ "amountpaid" ∷ []
aliases fee_amount = "feeamount" ∷ "fee" ∷ "fees" ∷ []

abbrev pub RawRow : Type 0
RawRow = Dict (Option Text)

abbrev pub is_wanted : Field → Text → Bool
is_wanted f k = any (λ a. text_eq (codes a) (key_of k)) (aliases f)

-- `_field`
unfoldable pub field : Field → RawRow → Option Text
field f [] = none
field f ((k, none) ∷ row) = field f row
field f ((k, some []) ∷ row) = field f row
field f ((k, some (c ∷ s)) ∷ row) =
    let rest = field f row in if is_wanted f k then some (c ∷ s) else rest

parenthesised : as_money (some (codes " ($1,234.50) ")) ≡ some (pos 0 -ℤ pos 1234500000)
unfolding as_money strip decimal ◌-ℤ◌
parenthesised = refl

fifteen : as_rate (some (codes "15")) ≡ as_rate (some (codes "0.15"))
unfolding as_rate strip decimal
fifteen = refl

credit : normalize_transaction_type (some (codes "Credit Endorsement")) ≡ adjustment
unfolding normalize_transaction_type strip
credit = refl
