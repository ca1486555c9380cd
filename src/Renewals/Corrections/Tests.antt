-- ===== src/Renewals/Corrections/Tests.antt =====
-- A candidate whose policy number has a separator in it.
use rsg_hermes.Prelude.{◌≡◌, refl, none, some}
use rsg_hermes.Prelude.Text.{codes, strip}
use rsg_hermes.Renewals.Corrections.{
  Row, insured_of, lineage_of, event_date_of, candidate_key, count, split_key, key_filters,
}
use rsg_hermes.Renewals.Corrections.Keys.{split_key-candidate_key, IsSplit, split_key-IsSplit}

abbrev candidate : Row
candidate = record {
  insured_id = some (codes "G1");
  policy_lineage_id = some (codes "G1:personal:A|1");
  renewal_event_date = some (codes "2026-07-01T00:00:00");
}

printed : candidate_key candidate ≡ codes "G1|G1:personal:A|1|2026-07-01"
unfolding candidate_key strip
printed = refl

malformed : key_filters (codes "G1|2026-07-01") ≡ none
unfolding key_filters split_key
malformed = refl

insured_plain : count (insured_of candidate) ≡ 0
unfolding strip
insured_plain = refl

split_key-candidate_key_example :
    split_key (candidate_key candidate)
    ≡ some (insured_of candidate, lineage_of candidate, event_date_of candidate)
split_key-candidate_key_example = split_key-candidate_key candidate insured_plain refl

split_key-IsSplit_example : IsSplit (codes "a|b|c|d") (split_key (codes "a|b|c|d"))
split_key-IsSplit_example = split_key-IsSplit (codes "a|b|c|d")
