-- ===== src/Renewals/Eligibility/Rule.antt =====
-- The rule of hermes/renewals/eligibility.py against a list of its conditions, and against the
-- executor's check before a write.
use rsg_hermes.Prelude.{
  ℕ, ◌+◌, ◌-◌, ◌≤◌, ◌<◌, ◌≡◌, ◌≢◌, ◌∙◌, inl, inr, refl, Bool, true, false, not, ◌&&◌, Option, none,
  some, arith, leb, ltb, if◌then◌else◌, Bool-cases, or_else,
}
use rsg_hermes.Prelude.Int.{ℤ}
use rsg_hermes.Python.Date.{is_leap, days_before_year}
use rsg_hermes.Renewals.Lifecycle.{Lifecycle, is_current, is_staged}
use rsg_hermes.Renewals.Cadence.{classify_segment}
use mathlib.Core.Path.{subst}
use rsg_hermes.Renewals.Cadence.Config.{Segment}
use rsg_hermes.Renewals.Executor.Pipeline.{lifecycle_stop}
use rsg_hermes.Renewals.Eligibility.{
  Policy, status, medicare, effective, expiration, aug_1, next_aug_1, LineageContext, self_lineage,
  Branch, medicare_annual, current_term, staged_next_term, State, eligible, needs_verification,
  excluded, outside_window, workflow_entry, by_term, evaluate,
}

-- The event of a state that is eligible.
abbrev pub event_in : State → Option (Branch × ℕ)
event_in (eligible b event entry queued) = some (b, event)
event_in (needs_verification r) = none
event_in (excluded r) = none

-- A term that is current: its event is its expiration.
abbrev pub current_event :
    LineageContext → ℕ → ℕ → Lifecycle → Option ℕ → Option ℕ → Option (Branch × ℕ)
current_event lineage today window s (some eff) (some exp) =
    if is_current s
      && leb eff today
      && ltb today exp
      && leb exp (today + window)
      && not lineage.has_valid_successor
    then some (current_term, exp)
    else none
current_event lineage today window s _ _ = none

-- A term that is staged: its event is its first day.
abbrev pub staged_event : LineageContext → ℕ → ℕ → Lifecycle → Option ℕ → Option (Branch × ℕ)
staged_event lineage today window s none = none
staged_event lineage today window s (some eff) =
    if is_staged s && ltb today eff && leb eff (today + window) && lineage.follows_current_term
    then some (staged_next_term, eff)
    else none

abbrev pub either_event : Option (Branch × ℕ) → Option (Branch × ℕ) → Option (Branch × ℕ)
either_event none f = f
either_event (some e) f = some e

-- August 1 of a year, behind the seven months before it.
abbrev pub first_of_august : ℕ → ℕ
first_of_august year =
    days_before_year year + (31 + (if is_leap year then 29 else 28) + 31 + 30 + 31 + 30 + 31) + 1

-- The first August 1 from today on, in the year of today or the next.
abbrev pub coming_august : ℕ → ℕ → ℕ
coming_august year today =
    if ltb (first_of_august year) today then first_of_august (year + 1) else first_of_august year

coming_august_lem : (year today : ℕ) → next_aug_1 year today ≡ coming_august year today
unfolding next_aug_1 aug_1
coming_august_lem year today = ground arith

-- The event of a policy whose insured is active.
abbrev pub event_of : Policy → ℕ → ℕ → LineageContext → ℕ → Option (Branch × ℕ)
event_of p year today lineage window =
    if medicare p
    then if leb (coming_august year today) (today + window)
      then some (medicare_annual, coming_august year today)
      else none
    else either_event (current_event lineage today window (status p) (effective p) (expiration p))
        (staged_event lineage today window (status p) (effective p))

module _ (lineage : LineageContext) (today window : ℕ) (segment : Option Segment) where
  by_term_events :
      (s : Lifecycle) (eff exp : Option ℕ)
      → event_in (by_term lineage today window segment s eff exp)
        ≡ either_event
            (current_event lineage today window s eff exp)
            (staged_event lineage today window s eff)
  unfolding by_term
  by_term_events s none none = ground arith
  by_term_events s none (some x) = ground arith
  by_term_events s (some e) none = ground arith
  by_term_events s (some e) (some x) = ground arith

  -- Between today and the window's end, with the day of entry before it.
  abbrev Bounded : State → Type 0
  Bounded (eligible b event entry queued) =
      (today ≤ event) × (event ≤ today + window) × (entry ≤ event) × (queued ≡ leb entry today)
  Bounded (needs_verification r) = Unit
  Bounded (excluded r) = Unit

  by_term_bounds :
      (s : Lifecycle) (eff exp : Option ℕ)
      → Bounded (by_term lineage today window segment s eff exp)
  unfolding by_term workflow_entry
  by_term_bounds s none none = ground arith
  by_term_bounds s none (some x) = ground arith
  by_term_bounds s (some e) none = ground arith
  by_term_bounds s (some e) (some x) = ground arith

next_aug_1_bounds :
    (year today : ℕ)
    → days_before_year year < today
    → today ≤ days_before_year (year + 1)
    → (today ≤ next_aug_1 year today) × (next_aug_1 year today < today + 366)
unfolding next_aug_1 aug_1 is_leap days_before_year
next_aug_1_bounds year today h k = ground arith

-- Which policies are eligible, for which event, with what the lineage says of each. No policy of an
-- insured who is not active is. A Medicare policy is, for the first August 1 from today on if that lies
-- within the window, whatever its status and its dates. Any other is eligible for its expiration, if it
-- is current, in force and without a successor, or for its first day, if it is staged, in the future and
-- follows a current term, and if that day lies within the window; and it is not eligible in any other
-- case.
pub evaluate_lem :
    (p : Policy) (is_active : Bool) (year today : ℕ) (premium : Option ℤ)
    (lineage : Option LineageContext) (window : ℕ)
    → event_in (evaluate p is_active year today premium lineage window) ≡ (
        if is_active then event_of p year today (or_else lineage (self_lineage p)) window else none)
unfolding evaluate
evaluate_lem p false year today premium lineage window = refl
evaluate_lem p true year today premium lineage window = elim (Bool-cases (medicare p)) [
  | inl m ↦ rw (m, evaluate) (rw (coming_august_lem year today) (ground arith))
  | inr m ↦
      rw (m, evaluate)
        (by_term_events (or_else lineage (self_lineage p)) today window
          (classify_segment p.cadence premium) (status p) (effective p) (expiration p))
]

-- A policy other than Medicare's that the executor's check would stop for its status, as dead or as
-- superseded, is not eligible.
pub stopped-not_eligible :
    (p : Policy) (is_active : Bool) (year today : ℕ) (premium : Option ℤ)
    (lineage : Option LineageContext) (window : ℕ)
    → medicare p ≡ false
    → lifecycle_stop (status p) ≢ none
    → event_in (evaluate p is_active year today premium lineage window) ≡ none
stopped-not_eligible p is_active year today premium lineage window m stop =
    evaluate_lem p is_active year today premium lineage window
    ∙ rw m (
        when_active is_active (
          stopped_event (or_else lineage (self_lineage p)) (status p) (effective p) (expiration p)
            stop))
  where
    stopped_event :
        (l : LineageContext) (s : Lifecycle) (eff exp : Option ℕ)
        → lifecycle_stop s ≢ none
        → either_event (current_event l today window s eff exp) (staged_event l today window s eff)
          ≡ none
    stopped_event l s none exp h = ground arith
    stopped_event l s (some e) none h = ground arith
    stopped_event l s (some e) (some x) h = ground arith

    when_active : (a : Bool) {o : Option (Branch × ℕ)} → o ≡ none → (if a then o else none) ≡ none
    when_active true e = e
    when_active false e = refl

-- The day of an eligible event lies between today and the window's end, the day of entry is no later,
-- and the event is in the working queue exactly from the day of entry on.
pub evaluate_bounds :
    (p : Policy) (is_active : Bool) (year today : ℕ) (premium : Option ℤ)
    (lineage : Option LineageContext) (window : ℕ) (b : Branch) (event entry : ℕ) (queued : Bool)
    → days_before_year year < today
    → today ≤ days_before_year (year + 1)
    → evaluate p is_active year today premium lineage window ≡ eligible b event entry queued
    → (today ≤ event) × (event ≤ today + window) × (entry ≤ event) × (queued ≡ leb entry today)
unfolding evaluate workflow_entry
evaluate_bounds p false year today premium lineage window b event entry queued h k e = cc
evaluate_bounds p true year today premium lineage window b event entry queued h k e =
    subst (Bounded (or_else lineage (self_lineage p)) today window none) e
      (elim (Bool-cases (medicare p)) [
        | inl m ↦
            rw (m, evaluate) (aep (next_aug_1 year today) (next_aug_1_bounds year today h k).0)
        | inr m ↦
            rw (m, evaluate)
              (by_term_bounds (or_else lineage (self_lineage p)) today window
                (classify_segment p.cadence premium) (status p) (effective p) (expiration p))
      ])
  where
    aep :
        (day : ℕ)
        → today ≤ day
        → Bounded (or_else lineage (self_lineage p)) today window none (
            if ltb window (day - today)
            then excluded outside_window
            else eligible medicare_annual day day (leb day today))
    aep day le = ground arith
