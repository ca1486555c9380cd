-- ===== src/Renewals/Corrections.antt =====
-- hermes/renewals/corrections.py: the natural key of a renewal event.
pub mod Keys
mod Tests
use rsg_hermes.Prelude.{
  ℕ, zero, suc, ◌+◌, ◌==◌, Option, none, some, List, [], ◌∷◌, ◌++◌, ltb, map_option, or_else,
  if◌then◌else◌,
}
use rsg_hermes.Prelude.Text.{Text, strip, take, codes}

abbrev pub key_sep : ℕ
key_sep = b'|'

-- The columns of a candidate that name its event.
pub record Row : Type 0 where
  pub insured_id : Option Text
  pub policy_lineage_id : Option Text
  pub renewal_event_date : Option Text

-- `KEY_SEP.join`
abbrev pub join : Text → Text → Text → Text
join insured lineage event_date = insured ++ key_sep ∷ (lineage ++ key_sep ∷ event_date)

abbrev pub insured_of : Row → Text
insured_of r = strip (or_else r.insured_id [])

abbrev pub lineage_of : Row → Text
lineage_of r = strip (or_else r.policy_lineage_id [])

abbrev pub event_date_of : Row → Text
event_date_of r = take 10 (or_else r.renewal_event_date [])

unfoldable pub candidate_key : Row → Text
candidate_key r = join (insured_of r) (lineage_of r) (event_date_of r)

-- `key.count(KEY_SEP)`
abbrev pub count : Text → ℕ
count [] = 0
count (c ∷ s) = (if c == key_sep then 1 else 0) + count s

-- `key.split(KEY_SEP, 1)`, or `none` without a separator.
abbrev pub split_first : Text → Option (Text × Text)
split_first [] = none
split_first (c ∷ s) =
    let rest = split_first s in
    if c == key_sep then some ([], s) else map_option (λ p. (c ∷ p.0, p.1)) rest

-- `rest.rsplit(KEY_SEP, 1)`, or `none` without a separator.
abbrev pub split_last : Text → Option (Text × Text)
split_last [] = none
split_last (c ∷ s) = elim (split_last s) [
  | none ↦ if c == key_sep then some ([], s) else none
  | some p ↦ some (c ∷ p.0, p.1)
]

abbrev pub split_rest : Option (Text × Text) → Option (Text × Text × Text)
split_rest none = none
split_rest (some (insured, rest)) = map_option (λ p. (insured, p.0, p.1)) (split_last rest)

-- `none` is the `ValueError`.
unfoldable pub split_key : Text → Option (Text × Text × Text)
split_key key = if ltb (count key) 2 then none else split_rest (split_first key)

-- The values of the filters of `key_filters`.
pub record Filters : Type 0 where
  pub insured_id : Text
  pub policy_lineage_id : Text
  pub renewal_event_date : Text

abbrev filters_of : Text × Text × Text → Filters
filters_of (insured, lineage, event_date) = record {
  insured_id = codes "eq." ++ insured;
  policy_lineage_id = codes "eq." ++ lineage;
  renewal_event_date = codes "eq." ++ event_date;
}

unfoldable pub key_filters : Text → Option Filters
key_filters key = map_option filters_of (split_key key)
