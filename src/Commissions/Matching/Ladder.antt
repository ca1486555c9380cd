-- ===== src/Commissions/Matching/Ladder.antt =====
-- Which links the ladder makes, over the indexes of a ledger.
use rsg_hermes.Prelude.{◌≡◌, ◌≢◌, Option, none, some, List, [], ◌∷◌, or_else}
use rsg_hermes.Prelude.Text.{Text, strip}
use rsg_hermes.Prelude.Dict.{Dict, get}
use rsg_hermes.Commissions.Matching.{
  LedgerKey, Policy, normalized, truthy, normalize_policy_number, by_number, by_exact, by_key,
  by_normalized, match_line, index_ledger,
}
use rsg_hermes.Commissions.Matching.Indexes.{SomeHas, AllHave, index_unambiguous}

truthy-some : (o : Option Text) (i : Text) → truthy o ≡ some i → o ≡ some i
truthy-some none i e = cc
truthy-some (some []) i e = cc
truthy-some (some (c ∷ s)) i e = e

from_normalized :
    (raw i : Text) (o : Option Text) (p : Option Policy)
    → (by_normalized raw o p).kind ≡ normalized
    → (by_normalized raw o p).ledger_id ≡ some i
    → o ≡ some i
from_normalized raw i none none k e = cc
from_normalized raw i none (some p) k e = cc
from_normalized raw i (some j) p k e = e

from_key :
    (raw key i : Text) (norm : Dict Text) (book : Dict Policy)
    → (by_key raw key norm book).kind ≡ normalized
    → (by_key raw key norm book).ledger_id ≡ some i
    → (key ≢ []) × (get key norm ≡ some i)
from_key raw [] i norm book k e = cc
from_key raw (c ∷ key) i norm book k e =
    ((λ h. cc h), truthy-some _ i (from_normalized raw i _ (get (c ∷ key) book) k e))

from_exact :
    (raw i : Text) (o : Option Text) (norm : Dict Text) (book : Dict Policy)
    → (by_exact raw o norm book).kind ≡ normalized
    → (by_exact raw o norm book).ledger_id ≡ some i
    → (normalize_policy_number raw ≢ []) × (get (normalize_policy_number raw) norm ≡ some i)
from_exact raw i none norm book k e = from_key raw (normalize_policy_number raw) i norm book k e
from_exact raw i (some j) norm book k e = cc

from_number :
    (raw i : Text) (ex norm : Dict Text) (book : Dict Policy)
    → (by_number raw ex norm book).kind ≡ normalized
    → (by_number raw ex norm book).ledger_id ≡ some i
    → (normalize_policy_number raw ≢ []) × (get (normalize_policy_number raw) norm ≡ some i)
from_number [] i ex norm book k e = cc
from_number (c ∷ raw) i ex norm book k e =
    from_exact (c ∷ raw) i (truthy (get (c ∷ raw) ex)) norm book k e

-- A line that is linked after normalizing has a key, some ledger row has that key, and every ledger
-- row that has it has the id that the line is linked to.
pub normalized_link :
    (number : Option Text) (rows : List LedgerKey) (ex : Dict Text) (book : Dict Policy) (i : Text)
    → (match_line number ex (index_ledger rows).1 book).kind ≡ normalized
    → (match_line number ex (index_ledger rows).1 book).ledger_id ≡ some i
    → SomeHas (normalize_policy_number (strip (or_else number []))) rows
      × AllHave (normalize_policy_number (strip (or_else number []))) i rows
unfolding match_line
normalized_link number rows ex book i k e =
    let raw = strip (or_else number []) in
    let (ne, found) = from_number raw i ex (index_ledger rows).1 book k e in
    (index_unambiguous (normalize_policy_number raw) i rows ne).0 found
