-- ===== src/Renewals/Cadence/Segments.antt =====
-- Which segment a policy has, and when an auto policy's cycle is a full review.
use rsg_hermes.Prelude.{
  ℕ, ◌+◌, ◌≤◌, ◌≡◌, ◌≢◌, ◌↔◌, ◌⊎◌, refl, inl, inr, true, Option, none, some, arith, Option-cases,
}
use rsg_hermes.Prelude.Int.{ℤ}
use rsg_hermes.Prelude.Text.{Text}
use rsg_hermes.Python.Date.{parse_date}
use rsg_hermes.Renewals.Cadence.Config.{
  auto_6mo, personal_12mo, full_review, full_review_window_days,
}
use rsg_hermes.Renewals.Cadence.{
  Policy, lob_of, is_medicare, is_commercial, classify_segment, auto_6mo_cycle,
}

-- A policy has no segment exactly if its line of business is Medicare.
pub medicare_excluded :
    (p : Policy) (premium : Option ℤ)
    → (classify_segment p premium ≡ none) ↔ (is_medicare (lob_of p) ≡ true)
unfolding classify_segment
medicare_excluded p premium = ground arith

-- A policy whose line of business is commercial is never treated as personal, whatever its term and
-- whatever other words the line of business holds.
pub commercial_kept :
    (p : Policy) (premium : Option ℤ)
    → is_commercial (lob_of p) ≡ true
    → (classify_segment p premium ≢ some auto_6mo)
      × (classify_segment p premium ≢ some personal_12mo)
unfolding classify_segment
commercial_kept p premium c = ground (arith, c)

-- A cycle is a full review exactly if no full review is dated, or the last one was at least 300 days ago.
pub full_review_due :
    (last_full_review : Option Text) (today : ℕ)
    → (auto_6mo_cycle last_full_review today ≡ full_review) ↔ (
        (parse_date last_full_review ≡ none)
        ⊎ (last : ℕ) × (parse_date last_full_review ≡ some last)
          × (last + full_review_window_days ≤ today))
unfolding auto_6mo_cycle
full_review_due last_full_review today = elim (Option-cases (parse_date last_full_review)) [
  | inl absent ↦ (λ _. inl absent, λ _. rw (absent, auto_6mo_cycle) refl)
  | inr (last, e) ↦ (
    (λ full. inr (last, e, ground (arith, rw (e, auto_6mo_cycle) at full))),
    λ why.
        rw (e, auto_6mo_cycle)
          (elim why [
            | inl absent ↦ cc (e, absent)
            | inr (l, is, long) ↦ ground (arith, e, is, long)
          ]),
  )
]
