-- ===== src/Commissions/Matching/Tests.antt =====
-- The theorems on matching at a ledger of three rows, two of which share a normalized number.
use rsg_hermes.Prelude.{String, ◌≡◌, refl, true, false, Option, none, some, List, [], ◌∷◌, ◌==◌}
use rsg_hermes.Prelude.Text.{codes, strip}
use rsg_hermes.Prelude.Dict.{Dict, get, set_default, pop, assign}
use rsg_hermes.Commissions.Matching.{
  LedgerKey, Policy, normalize_policy_number, match_line, index_ledger, index_row, index_book,
}
use rsg_hermes.Commissions.Matching.Indexes.{SomeHas, AllHave}
use rsg_hermes.Commissions.Matching.Ladder.{normalized_link}
use rsg_hermes.Commissions.Matching.Relink.{Line, Env, relink_unmatched, balanced, link_line}
use rsg_hermes.Commissions.Matching.Tally.{create_failures}
use rsg_hermes.Commissions.Matching.Counts.{relink_balanced}

abbrev row_of : String → String → LedgerKey
row_of i number = record { id = some (codes i); policy_number = some (codes number) }

abbrev ledger : List LedgerKey
ledger = row_of "L1" "CL-12" ∷ row_of "L2" "B 7" ∷ row_of "L3" "b7" ∷ []

shared_key : get (codes "B7") (index_ledger ledger).1 ≡ none
unfolding index_ledger index_row normalize_policy_number strip get set_default pop
shared_key = refl

abbrev empty_book : Dict Policy
empty_book = []

normalized_link_example :
    SomeHas (normalize_policy_number (strip (codes " cl12"))) ledger
    × AllHave (normalize_policy_number (strip (codes " cl12"))) (codes "L1") ledger
unfolding match_line index_ledger index_row normalize_policy_number strip get set_default pop
normalized_link_example =
    normalized_link (some (codes " cl12")) ledger [] empty_book (codes "L1") refl refl

abbrev statement : List Line
statement =
    record { id = some (codes "T1"); policy_number = some (codes "CL12"); ledger_id = none }
    ∷ record { id = some (codes "T2"); policy_number = some (codes "Z-9"); ledger_id = none }
    ∷ record { id = some (codes "T3"); policy_number = some (codes "z9"); ledger_id = none }
    ∷ []

abbrev book : Option (List Policy)
book = some (record { policy_number = some (codes "Z9"); policy_guid = none } ∷ [])

abbrev database : Env
database = record { inserts = λ keys k. some (codes "L4"); links = λ i l. true }

one_row_for_both : (relink_unmatched database false statement ledger book).ledger_rows_created ≡ 1
unfolding relink_unmatched link_line index_ledger index_row match_line normalize_policy_number strip
    get set_default pop assign index_book
one_row_for_both = refl

-- A database that refuses every insert into the ledger.
abbrev refusing : Env
refusing = record { inserts = λ keys k. none; links = λ i l. true }

relink_balanced_example :
    balanced (relink_unmatched refusing false statement ledger book)
    ≡ (create_failures (relink_unmatched refusing false statement ledger book).errors == 0)
relink_balanced_example = relink_balanced refusing false statement ledger book

not_balanced : balanced (relink_unmatched refusing false statement ledger book) ≡ false
unfolding relink_unmatched link_line index_ledger index_row match_line normalize_policy_number strip
    get set_default pop assign index_book
not_balanced = refl
