-- ===== src/Renewals/Candidates.antt =====
-- hermes/renewals/candidate_refresh.py: the lineage of a policy in the book. A chain of renewals is
-- walked on fuel.
pub mod Root
pub mod Pair
pub mod Build
pub mod Best
mod Tests
use rsg_hermes.Prelude.{
  ℕ, zero, suc, ◌+◌, ◌-◌, Bool, true, false, not, ◌&&◌, ◌||◌, Option, none, some, List, [], ◌∷◌,
  ◌++◌, or_else, leb, if◌then◌else◌, any, length, map_option,
}
use rsg_hermes.Prelude.Text.{Text, codes, text_eq, strip}
use rsg_hermes.Prelude.Dict.{Dict, get, set_default}
use rsg_hermes.Python.Date.{parse_date}
use rsg_hermes.Renewals.Lifecycle.{normalize_status, is_current, is_staged}
use rsg_hermes.Renewals.Eligibility.{Policy, LineageContext, derive_lineage_id, in_force}

-- A row of the book: the columns read here, and the row as the eligibility rule reads it.
pub record Row : Type 0 where
  pub policy : Policy
  pub insured_guid : Option Text
  pub policy_number : Option Text
  pub renewed_policy : Option Text
  pub status : Option Text
  pub effective_date : Option Text
  pub expiration_date : Option Text

abbrev align_tolerance_days : ℕ
align_tolerance_days = 3

-- `_aligned`
abbrev pub aligned : Option ℕ → Option ℕ → Bool
aligned (some a) (some b) = leb (a - b + (b - a)) align_tolerance_days
aligned _ _ = false

-- `str(policy.get("policy_number") or "").strip()`
unfoldable pub number_of : Row → Text
number_of r = strip (or_else r.policy_number [])

-- `rp if rp and rp != pn else None`
abbrev pub other_than : Text → Text → Option Text
other_than pn [] = none
other_than pn (c ∷ rp) = if text_eq (c ∷ rp) pn then none else some (c ∷ rp)

-- `_renewed_from`
unfoldable pub renewed_from : Row → Option Text
renewed_from r = other_than (number_of r) (strip (or_else r.renewed_policy []))

abbrev pub first_of : Text → Text → Text
first_of [] pred = pred
first_of (c ∷ pn) pred = c ∷ pn

-- The loop of `_root_number`; `none` if the fuel runs out.
unfoldable pub walk : ℕ → Dict Row → List Text → Row → Option Text
walk zero by_number seen cur = none
walk (suc n) by_number seen cur = elim (renewed_from cur) [
  | none ↦ some (number_of cur)
  | some pred ↦ elim (any (text_eq pred) seen) [
    | true ↦ some (first_of (number_of cur) pred)
    | false ↦ elim (get pred by_number) [
      | none ↦ some pred
      | some next ↦ walk n by_number (number_of cur ∷ seen) next
    ]
  ]
]

-- `_root_number`: no walk meets more rows than the book has, and the one it starts at.
unfoldable pub root_number : Row → Dict Row → Text
root_number r by_number = or_else (walk (suc (length by_number)) by_number [] r) []

-- `_is_staged`
unfoldable pub staged : Row → Bool
staged r = is_staged (normalize_status r.status)

unfoldable pub current : Row → Bool
current r = is_current (normalize_status r.status)

unfoldable pub effective : Row → Option ℕ
effective r = parse_date r.effective_date

unfoldable pub expiration : Row → Option ℕ
expiration r = parse_date r.expiration_date

-- `_is_current_active`
unfoldable pub is_current_active : Row → ℕ → Bool
is_current_active r today = current r && in_force (effective r) (expiration r) today

abbrev pub succeeds : Option ℕ → Row → Bool
succeeds exp s = (staged s || current s) && aligned (effective s) exp

-- The loop over `successors.get(pn, [])`.
abbrev pub valid_successor : Option ℕ → List Row → Option Row
valid_successor exp [] = none
valid_successor exp (s ∷ rest) = if succeeds exp s then some s else valid_successor exp rest

abbrev pub is_some : Option Row → Bool
is_some none = false
is_some (some r) = true

abbrev pub follows : Option ℕ → ℕ → Option Row → Bool
follows eff today none = false
follows eff today (some c) = is_current_active c today && aligned (expiration c) eff

-- `by_number.get(pred)` behind `if pred:`
abbrev pub predecessor : Dict Row → Option Text → Option Row
predecessor by_number none = none
predecessor by_number (some pred) = get pred by_number

-- `_lineage_for`; the number of a successor goes through `str`, which makes text of `None`.
unfoldable pub lineage_for : Row → Dict Row → Dict (List Row) → ℕ → LineageContext
lineage_for r by_number successors today =
    let found = valid_successor (expiration r) (or_else (get (number_of r) successors) []) in
    record {
      lineage_id = derive_lineage_id r.policy (some (root_number r by_number));
      predecessor_policy_number = renewed_from r;
      successor_policy_number = map_option (λ s. or_else s.policy_number (codes "None")) found;
      has_valid_successor = is_some found;
      follows_current_term = follows (effective r) today (predecessor by_number (renewed_from r));
    }

-- `if pn: by_number.setdefault(pn, p)`
abbrev pub index_number : Text → Row → Dict Row → Dict Row
index_number [] r d = d
index_number (c ∷ pn) r d = set_default (c ∷ pn) r d

-- `successors.setdefault(pred, []).append(p)`
unfoldable pub append_at : Text → Row → Dict (List Row) → Dict (List Row)
append_at k r [] = (k, r ∷ []) ∷ []
append_at k r ((j, rs) ∷ d) =
    if text_eq j k then (j, rs ++ r ∷ []) ∷ d else (j, rs) ∷ append_at k r d

abbrev pub index_successor : Option Text → Row → Dict (List Row) → Dict (List Row)
index_successor none r d = d
index_successor (some pred) r d = append_at pred r d

-- The first loop of `build_candidates`, over the policies.
unfoldable pub index_from : Dict Row → Dict (List Row) → List Row → Dict Row × Dict (List Row)
index_from by_number successors [] = (by_number, successors)
index_from by_number successors (r ∷ rs) =
    index_from (index_number (number_of r) r by_number)
      (index_successor (renewed_from r) r successors) rs

unfoldable pub index : List Row → Dict Row × Dict (List Row)
index policies = index_from [] [] policies

-- The lineage of a policy of the book.
unfoldable pub lineage_in : List Row → Row → ℕ → LineageContext
lineage_in policies r today = lineage_for r (index policies).0 (index policies).1 today
