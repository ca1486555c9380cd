-- ===== src/Renewals/Eligibility.antt =====
-- hermes/renewals/eligibility.py: which policy is an upcoming renewal event. A day is an ordinal, and
-- `today` comes with its year.
pub mod Rule
pub mod Entry
mod Tests
use rsg_hermes.Prelude.{
  ℕ, ◌+◌, ◌-◌, ◌≤◌, ◌<◌, ◌≡◌, refl, Bool, true, false, not, ◌&&◌, Option, none, some, List, [], ◌∷◌,
  ◌++◌, or_else, leb, ltb, if◌then◌else◌,
}
use rsg_hermes.Prelude.Int.{ℤ}
use rsg_hermes.Prelude.Text.{Text, codes, strip, lower}
use rsg_hermes.Python.Date.{parse_date, is_leap, days_before_year, date}
use rsg_hermes.Renewals.Lifecycle.{
  Lifecycle, normalize_status, is_current, is_staged, is_dead, is_superseded,
}
use rsg_hermes.Renewals.Cadence.{either, is_medicare, is_benefits, is_commercial, classify_segment}
use rsg_hermes.Renewals.Cadence
use rsg_hermes.Renewals.Cadence.Config.{
  Segment, auto_6mo, personal_12mo, commercial_small, commercial_mid, benefits,
}

-- The columns that the rule reads: those of the classifier, and the others under each spelling.
pub record Policy : Type 0 where
  pub cadence : Cadence.Policy
  pub lines_of_business : Option Text
  pub statuses : List (Option Text)
  pub insured : List (Option Text)
  pub numbers : List (Option Text)

abbrev pub discovery_window_days : ℕ
discovery_window_days = 120

abbrev pub first_given : List (Option Text) → Option Text
first_given [] = none
first_given (none ∷ rest) = first_given rest
first_given (some s ∷ rest) = some s

-- `a or b or …`, and the empty text if all are falsy.
abbrev pub first_filled : List (Option Text) → Text
first_filled [] = []
first_filled (none ∷ rest) = first_filled rest
first_filled (some [] ∷ rest) = first_filled rest
first_filled (some (c ∷ s) ∷ rest) = c ∷ s

-- `_lob`
unfoldable pub lob : Policy → Text
lob p = first_filled (
    p.cadence.line_of_business ∷ p.cadence.line_of_business_camel ∷ p.lines_of_business
    ∷ p.cadence.lob ∷ [])

-- `_status_raw`, normalized.
unfoldable pub status : Policy → Lifecycle
status p = normalize_status (first_given p.statuses)

unfoldable pub medicare : Policy → Bool
medicare p = is_medicare (lower (lob p))

unfoldable pub effective : Policy → Option ℕ
effective p = parse_date (either p.cadence.effective_date p.cadence.effective_date_camel)

unfoldable pub expiration : Policy → Option ℕ
expiration p = parse_date (either p.cadence.expiration_date p.cadence.expiration_date_camel)

-- `date(year, 8, 1)`
unfoldable pub aug_1 : ℕ → ℕ
unfolding is_leap days_before_year
aug_1 year = days_before_year year + (if is_leap year then 214 else 213)

unfoldable pub next_aug_1 : ℕ → ℕ → ℕ
next_aug_1 year today = if leb today (aug_1 year) then aug_1 year else aug_1 (year + 1)

-- The lineage facts of a policy.
pub record LineageContext : Type 0 where
  pub lineage_id : Text
  pub predecessor_policy_number : Option Text
  pub successor_policy_number : Option Text
  pub has_valid_successor : Bool
  pub follows_current_term : Bool

unfoldable pub normalized_lob_key : Text → Text
normalized_lob_key s =
    let low = lower (strip s) in
    if is_medicare low
    then codes "medicare"
    else if is_benefits low
    then codes "benefits"
    else if is_commercial low
    then codes "commercial"
    else codes "personal"

unfoldable pub derive_lineage_id : Policy → Option Text → Text
derive_lineage_id p root =
    strip (first_filled p.insured)
    ++ (codes ":"
        ++ (normalized_lob_key (lob p)
            ++ (codes ":"
                ++ strip (first_filled (root ∷ some (strip (first_filled p.numbers)) ∷ [])))))

unfoldable pub self_lineage : Policy → LineageContext
self_lineage p = record {
  lineage_id = derive_lineage_id p none;
  predecessor_policy_number = none;
  successor_policy_number = none;
  has_valid_successor = false;
  follows_current_term = false;
}

pub data Branch : Type 0 where
  medicare_annual current_term staged_next_term : Branch

pub data Reason : Type 0 where
  insured_inactive outside_window : Reason
  dead_but_in_force dead : Lifecycle → Reason
  superseded : Lifecycle → Reason
  has_successor : Reason
  follows_nothing : Reason
  no_event_date : Reason
  staged_without_future : Lifecycle → Reason
  expired_already : Lifecycle → Reason
  neither_term : Lifecycle → Reason

-- `STATE_ELIGIBLE` comes with the branch, the event's day, the day of entry and `in_working_queue`.
pub data State : Type 0 where
  eligible : Branch → ℕ → ℕ → Bool → State
  needs_verification excluded : Reason → State

-- `WORKFLOW_ENTRY_DAYS.get(segment, DEFAULT_WORKFLOW_ENTRY_DAYS)`
abbrev pub entry_days : Option Segment → ℕ
entry_days none = 30
entry_days (some commercial_small) = 90
entry_days (some commercial_mid) = 90
entry_days (some personal_12mo) = 30
entry_days (some auto_6mo) = 30
entry_days (some benefits) = 120

-- `_workflow_entry`; Medicare's segment is `none` here.
unfoldable pub workflow_entry : Option Segment → ℕ → Bool → ℕ
workflow_entry segment event true = event
workflow_entry segment event false = event - entry_days segment

-- `_eligible`
abbrev pub eligible_on : Bool → Option Segment → ℕ → Branch → ℕ → State
eligible_on is_med segment today branch event =
    eligible branch event (workflow_entry segment event is_med)
      (leb (workflow_entry segment event is_med) today)

-- `eff and exp and eff <= today < exp`
abbrev pub in_force : Option ℕ → Option ℕ → ℕ → Bool
in_force (some eff) (some exp) today = leb eff today && ltb today exp
in_force _ _ today = false

-- Behind the tests, an event is today or later.
abbrev pub within : ℕ → ℕ → ℕ → State → State
within window today event s = if ltb window (event - today) then excluded outside_window else s

-- Branch A, and what follows if the policy is no current term.
abbrev pub current : LineageContext → ℕ → ℕ → Option Segment → Option ℕ → State
current lineage today window segment none = excluded no_event_date
current lineage today window segment (some exp) =
    if lineage.has_valid_successor
    then excluded has_successor
    else within window today exp (eligible_on false segment today current_term exp)

-- Branch B with an effective date in the future.
abbrev pub staged : LineageContext → ℕ → ℕ → Option Segment → ℕ → State
staged lineage today window segment eff =
    if lineage.follows_current_term
    then within window today eff (eligible_on false segment today staged_next_term eff)
    else needs_verification follows_nothing

abbrev pub staged_by :
    LineageContext → ℕ → ℕ → Option Segment → Lifecycle → Option ℕ → Option ℕ → State
staged_by lineage today window segment s none none = excluded no_event_date
staged_by lineage today window segment s none (some exp) =
    needs_verification (staged_without_future s)
staged_by lineage today window segment s (some eff) exp =
    if ltb today eff
    then staged lineage today window segment eff
    else needs_verification (staged_without_future s)

abbrev pub otherwise : ℕ → Lifecycle → Option ℕ → State
otherwise today s none = excluded no_event_date
otherwise today s (some exp) =
    if leb exp today
    then needs_verification (expired_already s)
    else needs_verification (neither_term s)

-- The rule for a policy that is not Medicare's.
unfoldable pub by_term :
    LineageContext → ℕ → ℕ → Option Segment → Lifecycle → Option ℕ → Option ℕ → State
by_term lineage today window segment s eff exp =
    if is_dead s
    then if in_force eff exp today
      then needs_verification (dead_but_in_force s)
      else excluded (dead s)
    else if is_superseded s
    then excluded (superseded s)
    else if is_current s && in_force eff exp today
    then current lineage today window segment exp
    else if is_staged s
    then staged_by lineage today window segment s eff exp
    else otherwise today s exp

unfoldable pub evaluate : Policy → Bool → ℕ → ℕ → Option ℤ → Option LineageContext → ℕ → State
evaluate p insured_active year today premium lineage window =
    if not insured_active
    then excluded insured_inactive
    else if medicare p
    then within window today (next_aug_1 year today)
        (eligible_on true none today medicare_annual (next_aug_1 year today))
    else by_term (or_else lineage (self_lineage p)) today window
        (classify_segment p.cadence premium) (status p) (effective p) (expiration p)
