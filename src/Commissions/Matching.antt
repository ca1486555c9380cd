-- ===== src/Commissions/Matching.antt =====
-- hermes/commissions/matching.py: which ledger row a statement line belongs to. The proofs are in the
-- modules below.
pub mod Keys
pub mod Indexes
pub mod Ladder
pub mod Relink
pub mod Tally
pub mod Counts
mod Tests
use rsg_hermes.Prelude.{
  ℕ, ◌+◌, ◌≡◌, Bool, true, false, not, ◌&&◌, ◌||◌, Option, none, some, List, [], ◌∷◌, ◌++◌, any,
  or_else, if◌then◌else◌,
}
use rsg_hermes.Prelude.Text.{Text, text_eq, strip, upper, is_digit, is_upper, is_lower}
use rsg_hermes.Prelude.Dict.{Dict, get, set_default, pop}

abbrev pub is_alnum : ℕ → Bool
is_alnum c = is_digit c || is_upper c || is_lower c

-- `re.sub(r"[^A-Za-z0-9]", "", text)`
abbrev pub alnums : Text → Text
alnums [] = []
alnums (c ∷ s) = let rest = alnums s in if is_alnum c then c ∷ rest else rest

-- `normalize_policy_number`; the empty text stands for an absent number.
unfoldable pub normalize_policy_number : Text → Text
normalize_policy_number value = upper (alnums value)

pub data MatchKind : Type 0 where
  exact normalized created unmatched : MatchKind

pub record MatchResult : Type 0 where
  pub kind : MatchKind
  pub ledger_id : Option Text
  pub policy_number : Option Text

-- The columns of a row of the ledger and of a policy of the book that the ladder reads.
pub record LedgerKey : Type 0 where
  pub id : Option Text
  pub policy_number : Option Text

pub record Policy : Type 0 where
  pub policy_number : Option Text
  pub policy_guid : Option Text

-- `d.get(k)` under a test of its truth.
abbrev pub truthy : Option Text → Option Text
truthy none = none
truthy (some []) = none
truthy (some (c ∷ s)) = some (c ∷ s)

abbrev none_found : Option Text → MatchResult
none_found number = record { kind = unmatched; ledger_id = none; policy_number = number }

-- `str(policy.get("policy_number") or raw)`
abbrev pub number_of : Policy → Text → Text
number_of policy raw = or_else (truthy policy.policy_number) raw

abbrev pub by_book : Text → Option Policy → MatchResult
by_book raw none = none_found (some raw)
by_book raw (some policy) = record {
  kind = created;
  ledger_id = none;
  policy_number = some (number_of policy raw);
}

abbrev pub by_normalized : Text → Option Text → Option Policy → MatchResult
by_normalized raw (some i) policy = record {
  kind = normalized;
  ledger_id = some i;
  policy_number = some raw;
}
by_normalized raw none policy = by_book raw policy

abbrev pub by_key : Text → Text → Dict Text → Dict Policy → MatchResult
by_key raw [] ledger_by_normalized book_by_normalized = none_found (some raw)
by_key raw (c ∷ key) ledger_by_normalized book_by_normalized =
    by_normalized raw (truthy (get (c ∷ key) ledger_by_normalized))
      (get (c ∷ key) book_by_normalized)

abbrev pub by_exact : Text → Option Text → Dict Text → Dict Policy → MatchResult
by_exact raw (some i) ledger_by_normalized book_by_normalized = record {
  kind = exact;
  ledger_id = some i;
  policy_number = some raw;
}
by_exact raw none ledger_by_normalized book_by_normalized =
    by_key raw (normalize_policy_number raw) ledger_by_normalized book_by_normalized

abbrev pub by_number : Text → Dict Text → Dict Text → Dict Policy → MatchResult
by_number [] ledger_by_exact ledger_by_normalized book_by_normalized = none_found none
by_number (c ∷ raw) ledger_by_exact ledger_by_normalized book_by_normalized =
    by_exact (c ∷ raw) (truthy (get (c ∷ raw) ledger_by_exact)) ledger_by_normalized
      book_by_normalized

-- The ladder, for the line's policy number.
unfoldable pub match_line : Option Text → Dict Text → Dict Text → Dict Policy → MatchResult
match_line policy_number ledger_by_exact ledger_by_normalized book_by_normalized =
    by_number (strip (or_else policy_number [])) ledger_by_exact ledger_by_normalized
      book_by_normalized

-- The variables of the loop of `_index_ledger`.
pub record Indexing : Type 0 where
  pub exact : Dict Text
  pub normalized : Dict Text
  pub collisions : List Text

abbrev pub collide : Text → Text → Option Text → Indexing → Indexing
collide key row_id none ix = record ix { normalized = set_default key row_id ix.normalized }
collide key row_id (some other) ix =
    if text_eq other row_id
    then record ix { normalized = set_default key row_id ix.normalized }
    else record ix { collisions = key ∷ ix.collisions }

abbrev pub index_key : Text → Text → Indexing → Indexing
index_key [] row_id ix = ix
index_key (c ∷ key) row_id ix = collide (c ∷ key) row_id (get (c ∷ key) ix.normalized) ix

abbrev pub index_numbered : Text → Text → Indexing → Indexing
index_numbered [] row_id ix = ix
index_numbered (c ∷ number) [] ix = ix
index_numbered (c ∷ number) (d ∷ row_id) ix =
    index_key (normalize_policy_number (c ∷ number)) (d ∷ row_id)
      (record ix { exact = set_default (c ∷ number) (d ∷ row_id) ix.exact })

abbrev pub number_in : LedgerKey → Text
number_in row = strip (or_else row.policy_number [])

unfoldable pub index_row : LedgerKey → Indexing → Indexing
index_row row ix = index_numbered (number_in row) (or_else row.id []) ix

unfoldable pub index_rows : List LedgerKey → Indexing → Indexing
index_rows [] ix = ix
index_rows (row ∷ rows) ix = index_rows rows (index_row row ix)

unfoldable pub drop_keys : List Text → Dict Text → Dict Text
drop_keys [] d = d
drop_keys (k ∷ ks) d = drop_keys ks (pop k d)

-- `_index_ledger`: by exact number and by normalized number.
unfoldable pub index_ledger : List LedgerKey → Dict Text × Dict Text
unfolding index_rows drop_keys
index_ledger rows =
    let ix = index_rows rows (record { exact = []; normalized = []; collisions = [] }) in
    (ix.exact, drop_keys ix.collisions ix.normalized)

abbrev book_entry : Text → Policy → Dict Policy → Dict Policy
book_entry [] row out = out
book_entry (c ∷ key) row out = set_default (c ∷ key) row out

abbrev book_from : List Policy → Dict Policy → Dict Policy
book_from [] out = out
book_from (row ∷ rows) out =
    book_from rows (book_entry (normalize_policy_number (or_else row.policy_number [])) row out)

-- `_index_book`
unfoldable pub index_book : List Policy → Dict Policy
index_book rows = book_from rows []
