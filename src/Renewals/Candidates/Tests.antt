-- ===== src/Renewals/Candidates/Tests.antt =====
-- A term of the book and its staged successor, on 2026-05-01, and a chain that runs in a circle.
use rsg_hermes.Prelude.{
  ◌≡◌, ◌≢◌, refl, true, false, none, some, List, [], ◌∷◌, suc, length, any, ltb,
}
use rsg_hermes.Prelude.Text.{Text, codes, strip}
use rsg_hermes.Prelude.Dict.{get, set_default}
use rsg_hermes.Python.Date.{parse_date}
use rsg_hermes.Renewals.Lifecycle.{normalize_status}
use rsg_hermes.Renewals.Cadence
use rsg_hermes.Renewals.Eligibility.{
  evaluate, current_term, staged_next_term, excluded, eligible, has_successor, medicare, lob,
  discovery_window_days,
}
use rsg_hermes.Renewals.Eligibility.Rule.{event_in}
use rsg_hermes.Renewals.Candidates.{
  Row, number_of, renewed_from, walk, root_number, succeeds, append_at, index_from, index,
  lineage_for, lineage_in, staged, current, effective, expiration, is_current_active,
}
use rsg_hermes.Renewals.Candidates.Build.{Live, Key, rank, build_candidates}
use rsg_hermes.Renewals.Candidates.Best.{
  rows_at, at_most_one, best_of, candidates_of, build_candidates-best,
}
use rsg_hermes.Renewals.Candidates.Root.{root_number_ends, Names}
use rsg_hermes.Renewals.Candidates.Pair.{has_valid_successor_lem, followed-not_event, renewals_of}

abbrev row : Text → Text → Text → Text → Text → Row
row number renewed status effective expiration = record {
  policy = record {
    cadence = record {
      line_of_business = none;
      line_of_business_camel = none;
      lob = none;
      effective_date = some effective;
      effective_date_camel = none;
      expiration_date = some expiration;
      expiration_date_camel = none;
    };
    lines_of_business = some (codes "Personal Auto");
    statuses = some status ∷ [];
    insured = some (codes "G1") ∷ [];
    numbers = some number ∷ [];
  };
  insured_guid = some (codes "G1");
  policy_number = some number;
  renewed_policy = some renewed;
  status = some status;
  effective_date = some effective;
  expiration_date = some expiration;
}

abbrev term : Row
term = row (codes "AB-1") [] (codes "Active") (codes "2026-01-01") (codes "2026-07-01")

abbrev next_term : Row
next_term =
    row (codes "AB-2") (codes "AB-1") (codes "Renewing") (codes "2026-07-01") (codes "2027-01-01")

abbrev circled : Row
circled = row (codes "C-1") (codes "C-2") (codes "Active") [] []

abbrev circle : List Row
circle = circled ∷ row (codes "C-2") (codes "C-1") (codes "Active") [] [] ∷ []

circle_root : root_number circled (index circle).0 ≡ codes "C-2"
unfolding root_number walk index index_from number_of renewed_from strip get set_default append_at
circle_root = refl

root_number_ends_example :
    (walk (suc (length (index circle).0)) (index circle).0 [] circled
      ≡ some (root_number circled (index circle).0))
    × Names (index circle).0 circled (root_number circled (index circle).0)
root_number_ends_example = root_number_ends circle circled

has_valid_successor_lem_example :
    (lineage_in (term ∷ next_term ∷ []) term 739737).has_valid_successor
    ≡ any (succeeds (expiration term)) (renewals_of (number_of term) (term ∷ next_term ∷ []))
has_valid_successor_lem_example = has_valid_successor_lem (term ∷ next_term ∷ []) term 739737

next_term-staged : staged next_term ≡ true
unfolding staged normalize_status strip
next_term-staged = refl

next_term_renews : renewed_from next_term ≡ some (codes "AB-1")
unfolding renewed_from number_of strip
next_term_renews = refl

term_held : get (codes "AB-1") (index (term ∷ next_term ∷ [])).0 ≡ some term
unfolding index index_from number_of renewed_from strip get set_default append_at
term_held = refl

next_term_follows :
    (lineage_in (term ∷ next_term ∷ []) next_term 739737).follows_current_term ≡ true
unfolding lineage_in lineage_for index index_from number_of renewed_from strip get set_default
    append_at is_current_active current effective expiration normalize_status parse_date
next_term_follows = refl

term_private : medicare term.policy ≡ false
unfolding medicare lob Cadence.lob_of Cadence.is_medicare strip
term_private = refl

followed-not_event_example :
    event_in (
      evaluate term.policy true 2026 739737 none
        (some (lineage_in (term ∷ next_term ∷ []) term 739737))
        discovery_window_days)
    ≢ some (current_term, 739798)
followed-not_event_example =
    followed-not_event (term ∷ []) [] next_term term (codes "AB-1") 739737 true 2026 none
      discovery_window_days 739798 next_term-staged next_term_renews term_held next_term_follows
      term_private

-- Where every insured is active, behind 2026-06-01.
abbrev live : Live
live = record {
  insured = λ guid. true;
  account_premium = λ guid. none;
  year = 2026;
  today = 739737;
  floor = 739768;
}

abbrev shared_key : Key
shared_key = (codes "G1", codes "G1:personal:AB-1", 739798)

successor_over_term :
    ltb (rank (excluded has_successor)) (rank (eligible staged_next_term 739798 739708 true)) ≡ true
unfolding rank
successor_over_term = refl

build_candidates-best_example :
    rows_at shared_key (build_candidates live (term ∷ next_term ∷ []))
    ≡ at_most_one
        (best_of shared_key (candidates_of live (term ∷ next_term ∷ []) (term ∷ next_term ∷ [])))
build_candidates-best_example = build_candidates-best live (term ∷ next_term ∷ []) shared_key
