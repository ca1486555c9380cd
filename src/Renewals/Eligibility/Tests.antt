-- ===== src/Renewals/Eligibility/Tests.antt =====
-- A personal auto policy of the book, in force, on 2026-05-01.
use rsg_hermes.Prelude.{
  ℕ, ◌≡◌, refl, ◌-◌, ◌+◌, ◌≤◌, true, false, none, some, [], ◌∷◌, arith, or_else, leb,
}
use rsg_hermes.Prelude.Text.{Text, codes, strip}
use rsg_hermes.Python.Date.{days_before_year, parse_date, date}
use rsg_hermes.Renewals.Lifecycle.{normalize_status}
use rsg_hermes.Renewals.Cadence
use rsg_hermes.Renewals.Eligibility.{
  Policy, self_lineage, current_term, eligible, evaluate, by_term, workflow_entry, status, medicare,
  lob, effective, expiration, discovery_window_days, aug_1, derive_lineage_id, normalized_lob_key,
}
use rsg_hermes.Renewals.Eligibility.Entry.{book_row_enters_as_commercial}
use rsg_hermes.Renewals.Eligibility.Rule.{
  event_in, event_of, evaluate_lem, stopped-not_eligible, evaluate_bounds,
}

abbrev book_row : Text → Policy
book_row state = record {
  cadence = record {
    line_of_business = none;
    line_of_business_camel = none;
    lob = none;
    effective_date = some (codes "2026-01-01");
    effective_date_camel = none;
    expiration_date = some (codes "2026-07-01");
    expiration_date_camel = none;
  };
  lines_of_business = some (codes "Personal Auto");
  statuses = some state ∷ [];
  insured = some (codes "G1") ∷ [];
  numbers = some (codes "AB-1") ∷ [];
}

-- The event is 2026-07-01 (739798), and the entry 2026-04-02, when a personal policy has 2026-06-01.
entered :
    evaluate (book_row (codes "Active")) true 2026 739737 none none discovery_window_days
    ≡ eligible current_term 739798 739708 true
unfolding evaluate by_term workflow_entry status medicare lob effective expiration strip parse_date
    normalize_status Cadence.classify_segment Cadence.lob_of Cadence.is_medicare Cadence.is_benefits
    Cadence.is_commercial Cadence.names_personal Cadence.names_auto self_lineage derive_lineage_id
    normalized_lob_key
entered = refl

anniversary : aug_1 2028 ≡ or_else (date 2028 8 1) 0
unfolding aug_1 date
anniversary = refl

lineage_key : derive_lineage_id (book_row []) none ≡ codes "G1:personal:AB-1"
unfolding derive_lineage_id strip normalized_lob_key lob Cadence.is_medicare Cadence.is_benefits
    Cadence.is_commercial
lineage_key = refl

evaluate_lem_example :
    event_in (evaluate (book_row (codes "Active")) true 2026 739737 none none 120)
    ≡ event_of
        (book_row (codes "Active"))
        2026
        739737
        (self_lineage (book_row (codes "Active")))
        120
evaluate_lem_example = evaluate_lem (book_row (codes "Active")) true 2026 739737 none none 120

not_medicare : (s : Text) → medicare (book_row s) ≡ false
unfolding medicare lob Cadence.is_medicare
not_medicare s = refl

stopped-not_eligible_example :
    event_in (evaluate (book_row (codes "Cancelled")) true 2026 739737 none none 120) ≡ none
unfolding status normalize_status
stopped-not_eligible_example =
    stopped-not_eligible (book_row (codes "Cancelled")) true 2026 739737 none none 120
      (not_medicare _) (λ e. cc)

evaluate_bounds_example :
    (739737 ≤ 739798) × (739798 ≤ 739737 + 120) × (739708 ≤ 739798) × (true ≡ leb 739708 739737)
unfolding days_before_year
evaluate_bounds_example =
    evaluate_bounds (book_row (codes "Active")) true 2026 739737 none none 120 current_term 739798
      739708 true (omega arith) (omega arith) entered

book_row_enters_as_commercial_example : ◌≡◌ {A = ℕ} 739708 (739798 - 90)
book_row_enters_as_commercial_example =
    book_row_enters_as_commercial (book_row (codes "Active")) true 2026 739737 none none 120
      current_term 739798 739708 true refl refl refl (not_medicare _) entered
