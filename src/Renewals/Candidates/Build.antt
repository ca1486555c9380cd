-- ===== src/Renewals/Candidates/Build.antt =====
-- `build_candidates` of hermes/renewals/candidate_refresh.py: one row for each renewal event. The sums
-- of premiums of an account, which are floats, and the live insureds are arguments.
use rsg_hermes.Prelude.{
  ℕ, ◌+◌, ◌*◌, ◌==◌, Bool, ◌&&◌, Option, none, some, List, [], ◌∷◌, ltb, map, or_else,
  if◌then◌else◌,
}
use rsg_hermes.Prelude.Int.{ℤ}
use rsg_hermes.Prelude.Text.{Text, text_eq}
use rsg_hermes.Renewals.Eligibility.{
  Branch, medicare_annual, current_term, staged_next_term, State, eligible, needs_verification,
  excluded, LineageContext, evaluate, discovery_window_days,
}
use rsg_hermes.Renewals.Candidates.{Row, effective, expiration, index, lineage_for}

-- `_STATE_RANK`
abbrev state_rank : State → ℕ
state_rank (eligible b event entry queued) = 3
state_rank (needs_verification r) = 2
state_rank (excluded r) = 1

-- `_BRANCH_RANK`
abbrev branch_rank : Branch → ℕ
branch_rank staged_next_term = 3
branch_rank medicare_annual = 2
branch_rank current_term = 1

-- A state that is not eligible has no branch.
abbrev rank_of_branch : State → ℕ
rank_of_branch (eligible b event entry queued) = branch_rank b
rank_of_branch (needs_verification r) = 0
rank_of_branch (excluded r) = 0

unfoldable pub rank : State → ℕ
rank s = state_rank s * 10 + rank_of_branch s

-- What `_candidate_row` draws on.
pub record Candidate : Type 0 where
  pub insured_id : Text
  pub lineage : LineageContext
  pub event_date : ℕ
  pub state : State
  pub row : Row

abbrev pub Key : Type 0
Key = Text × Text × ℕ

unfoldable pub key_eq : Key → Key → Bool
key_eq (a, b, c) (a', b', c') = text_eq a a' && text_eq b b' && c == c'

abbrev pub key_of : Candidate → Key
key_of c = (c.insured_id, c.lineage.lineage_id, c.event_date)

abbrev pub rank_in : Candidate → ℕ
rank_in c = rank c.state

abbrev first_date : Option ℕ → Option ℕ → Option ℕ
first_date (some d) e = some d
first_date none e = e

-- `_event_date_for`
unfoldable pub event_date_for : State → Row → Option ℕ
event_date_for (eligible b event entry queued) r = some event
event_date_for (needs_verification why) r = first_date (expiration r) (effective r)
event_date_for (excluded why) r = first_date (expiration r) (effective r)

-- `if key not in best or rank > best[key][0]: best[key] = (rank, row)`
unfoldable pub keep : Candidate → List (ℕ × Candidate) → List (ℕ × Candidate)
keep c [] = (rank_in c, c) ∷ []
keep c ((n, b) ∷ best) =
    let rest = keep c best in
    if key_eq (key_of b) (key_of c)
    then if ltb n (rank_in c) then (rank_in c, c) ∷ best else (n, b) ∷ best
    else (n, b) ∷ rest

unfoldable pub keep_all : List Candidate → List (ℕ × Candidate) → List (ℕ × Candidate)
keep_all [] best = best
keep_all (c ∷ cs) best = keep_all cs (keep c best)

-- The columns of a live insured that are read, and the day.
pub record Live : Type 0 where
  pub insured : Text → Bool
  pub account_premium : Text → Option ℤ
  pub year : ℕ
  pub today : ℕ
  pub floor : ℕ

module _ (live : Live) where
  -- A row with no date is skipped, and so is an event before the floor.
  abbrev pub dated : Text → LineageContext → State → Row → Option ℕ → List Candidate
  dated guid lineage s r none = []
  dated guid lineage s r (some event) =
      if ltb event live.floor
      then []
      else record { insured_id = guid; lineage = lineage; event_date = event; state = s; row = r }
        ∷ []

  abbrev pub graded : Text → LineageContext → Row → State
  graded guid lineage r =
      evaluate r.policy (live.insured guid) live.year live.today (live.account_premium guid)
        (some lineage) discovery_window_days

  abbrev pub with_lineage : Text → LineageContext → Row → List Candidate
  with_lineage guid lineage r =
      dated guid lineage (graded guid lineage r) r (event_date_for (graded guid lineage r) r)

  -- The candidate of a policy, if it is one.
  unfoldable pub candidate_of : List Row → Row → List Candidate
  candidate_of policies r =
      with_lineage (or_else r.insured_guid [])
        (lineage_for r (index policies).0 (index policies).1 live.today) r

  -- The second loop of `build_candidates`.
  unfoldable pub build_from : List Row → List Row → List (ℕ × Candidate) → List (ℕ × Candidate)
  build_from policies [] best = best
  build_from policies (r ∷ rs) best =
      build_from policies rs (keep_all (candidate_of policies r) best)

  unfoldable pub build_candidates : List Row → List Candidate
  build_candidates policies = map (λ e. e.1) (build_from policies policies [])
