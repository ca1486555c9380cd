-- ===== src/Renewals/Eligibility/Entry.antt =====
-- The day on which an eligible policy enters the working queue.
use rsg_hermes.Prelude.{
  ℕ, ◌-◌, ◌≡◌, ◌∙◌, sym, ◌⊎◌, inl, inr, refl, Bool, true, false, Option, none, some, [], arith,
  Bool-cases, or_else,
}
use rsg_hermes.Prelude.Int.{ℤ, pos, leb_ℤ}
use rsg_hermes.Renewals.Lifecycle.{Lifecycle}
use rsg_hermes.Renewals.Cadence
use rsg_hermes.Renewals.Cadence.{classify_segment}
use rsg_hermes.Prelude.Text.{strip}
use mathlib.Core.Path.{subst}
use rsg_hermes.Renewals.Cadence.Config.{
  Segment, commercial_small, commercial_mid, small_commercial_max_account_premium,
}
use rsg_hermes.Renewals.Eligibility.{
  Policy, status, medicare, effective, expiration, LineageContext, self_lineage, Branch, State,
  eligible, needs_verification, excluded, insured_inactive, entry_days, workflow_entry, by_term,
  evaluate,
}

module _ (lineage : LineageContext) (today window : ℕ) (segment : Option Segment) where
  abbrev EntersBefore : ℕ → State → Type 0
  EntersBefore n (eligible b event entry queued) = entry ≡ event - n
  EntersBefore n (needs_verification r) = Unit
  EntersBefore n (excluded r) = Unit

  by_term_entry :
      (s : Lifecycle) (eff exp : Option ℕ)
      → EntersBefore (entry_days segment) (by_term lineage today window segment s eff exp)
  unfolding by_term workflow_entry
  by_term_entry s none none = ground arith
  by_term_entry s none (some x) = ground arith
  by_term_entry s (some e) none = ground arith
  by_term_entry s (some e) (some x) = ground arith

lob_of-nil :
    (p : Cadence.Policy)
    → p.line_of_business ≡ none
    → p.line_of_business_camel ≡ none
    → p.lob ≡ none
    → Cadence.lob_of p ≡ []
unfolding Cadence.lob_of strip
lob_of-nil p e f g = rw (e, Cadence.lob_of) (rw f (rw g refl))

commercial_segment :
    (q : Cadence.Policy) (premium : Option ℤ)
    → Cadence.lob_of q ≡ []
    → (classify_segment q premium ≡ some commercial_small)
      ⊎ (classify_segment q premium ≡ some commercial_mid)
unfolding classify_segment Cadence.is_medicare Cadence.is_benefits Cadence.is_commercial
    Cadence.names_personal Cadence.names_auto
commercial_segment q premium e =
    rw (e, classify_segment)
      (elim (Bool-cases (leb_ℤ (or_else premium (pos 0)) small_commercial_max_account_premium)) [
        | inl small ↦ inl (rw small refl)
        | inr mid ↦ inr (rw mid refl)
      ])

-- A row of `canonical_policies` has its line of business in `lines_of_business` alone, which the
-- classifier does not read. So each such policy that is not Medicare's enters the working queue as a
-- commercial one, 90 days before its event, whatever its line of business is.
pub book_row_enters_as_commercial :
    (p : Policy) (is_active : Bool) (year today : ℕ) (premium : Option ℤ)
    (lineage : Option LineageContext) (window : ℕ) (b : Branch) (event entry : ℕ) (queued : Bool)
    → p.cadence.line_of_business ≡ none
    → p.cadence.line_of_business_camel ≡ none
    → p.cadence.lob ≡ none
    → medicare p ≡ false
    → evaluate p is_active year today premium lineage window ≡ eligible b event entry queued
    → entry ≡ event - 90
unfolding evaluate
book_row_enters_as_commercial p is_active year today premium lineage window b event entry queued e f
      g m h =
    elim is_active_cases [
      | inr off ↦ absurd (cc (evaluate_off off))
      | inl on ↦
          let s =
            by_term_entry (or_else lineage (self_lineage p)) today window
              (classify_segment p.cadence premium) (status p) (effective p) (expiration p) in
          subst
            (EntersBefore (or_else lineage (self_lineage p)) today window
              (classify_segment p.cadence premium) 90)
            (sym (evaluate_on on) ∙ h)
            (subst
              (λ n.
                EntersBefore (or_else lineage (self_lineage p)) today window
                  (classify_segment p.cadence premium) n
                  (by_term (or_else lineage (self_lineage p)) today window
                    (classify_segment p.cadence premium) (status p) (effective p) (expiration p)))
              (days (commercial_segment p.cadence premium (lob_of-nil p.cadence e f g))) s)
    ]
  where
    is_active_cases : (is_active ≡ true) ⊎ (is_active ≡ false)
    is_active_cases = Bool-cases is_active

    evaluate_off :
        is_active ≡ false
        → evaluate p is_active year today premium lineage window ≡ excluded insured_inactive
    evaluate_off off = rw (off, evaluate) refl

    evaluate_on :
        is_active ≡ true
        → evaluate p is_active year today premium lineage window
          ≡ by_term
              (or_else lineage (self_lineage p))
              today
              window
              (classify_segment p.cadence premium)
              (status p)
              (effective p)
              (expiration p)
    evaluate_on on = rw (on, evaluate) (rw m refl)

    days :
        (classify_segment p.cadence premium ≡ some commercial_small)
          ⊎ (classify_segment p.cadence premium ≡ some commercial_mid)
        → entry_days (classify_segment p.cadence premium) ≡ 90
    days (inl c) = rw c refl
    days (inr c) = rw c refl
