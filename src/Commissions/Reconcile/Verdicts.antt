-- ===== src/Commissions/Reconcile/Verdicts.antt =====
-- When `classify_reconciliation` gives each status, and how severity follows the delta.
use rsg_hermes.Prelude.{
  ℕ, ◌+◌, ◌≤◌, ◌<◌, ◌≡◌, ◌≢◌, ◌↔◌, Bool, true, false, Option, none, some, lt→ltb, or_else, arith,
  ◌⊎◌, inl, inr, Bool-cases,
}
use rsg_hermes.Prelude.Int.{ℤ, pos, negsuc, pos_part, neg_part, ◌-ℤ◌, ◌≤ℤ◌, abs, eqb_ℤ}
use rsg_hermes.Prelude.Text.{Text}
use rsg_hermes.Python.Decimal.{Scalar}
use rsg_hermes.Commissions.Reconcile.{
  Status, pending, reconciled, underpaid, overpaid, no_expected, canceled, missing_statement,
  Severity, matched, low, medium, high, critical, tolerance, dec, Rollup, Classification, severity,
  is_cancelled, has_transactions, against, classify_delta, classify_reconciliation,
}

abbrev pub ◌<ℤ◌ : ℤ → ℤ → Type 0
◌<ℤ◌ a b = pos_part a + neg_part b < pos_part b + neg_part a

-- A dollar short.
abbrev pub minus_tolerance : ℤ
minus_tolerance = negsuc 999999

-- The verdict on a delta, by the delta alone and, for a shortfall, by why it is short.
pub record ByDelta (s : Status) (delta : ℤ) (cancelled ended : Bool) : Type 0 where
  pub when_reconciled : (s ≡ reconciled) ↔ (abs delta ≤ℤ tolerance)
  pub when_overpaid : (s ≡ overpaid) ↔ (◌<ℤ◌ tolerance delta)
  pub when_canceled : (s ≡ canceled) ↔ (◌<ℤ◌ delta minus_tolerance × (cancelled ≡ true))
  pub when_missing :
      (s ≡ missing_statement) ↔ (◌<ℤ◌ delta minus_tolerance × (cancelled ≡ false) × (ended ≡ false))
  pub when_underpaid :
      (s ≡ underpaid) ↔ (◌<ℤ◌ delta minus_tolerance × (cancelled ≡ false) × (ended ≡ true))

delta_verdict :
    (act : Option ℤ) (exp delta : ℤ) (status : Option Text) (ended : Bool)
    → ByDelta (classify_delta act exp delta status ended).status delta (is_cancelled status) ended
unfolding classify_delta
delta_verdict act exp delta status ended = record {
  when_reconciled = ground arith;
  when_overpaid = ground arith;
  when_canceled = ground arith;
  when_missing = ground arith;
  when_underpaid = ground arith;
}

-- No expected amount: absent, unreadable or zero.
abbrev pub Unexpected : Scalar → Type 0
Unexpected expected = (dec expected ≡ none) ⊎ (dec expected ≡ some (pos 0))

eqb_zero : (e : ℤ) → eqb_ℤ e (pos 0) ≡ true → e ≡ pos 0
eqb_zero e h = ground arith

eqb_ne : (e : ℤ) → e ≢ pos 0 → eqb_ℤ e (pos 0) ≡ false
eqb_ne e h = elim (Bool-cases (eqb_ℤ e (pos 0))) [ inl z ↦ absurd (h (eqb_zero e z)) | inr n ↦ n ]

-- `classify_delta` keeps the delta, and gives neither of the statuses that need none.
delta_settled :
    (act : Option ℤ) (exp delta : ℤ) (status : Option Text) (ended : Bool)
    → ((classify_delta act exp delta status ended).delta ≡ some delta)
      × ((classify_delta act exp delta status ended).status ≢ pending)
      × ((classify_delta act exp delta status ended).status ≢ no_expected)
unfolding classify_delta
delta_settled act exp delta status ended = ground arith

against_settled :
    (act exp : Option ℤ) (status : Option Text) (ended : Bool)
    → ((against act exp status ended).status ≢ pending)
      × (((against act exp status ended).status ≡ no_expected)
          ↔ ((exp ≡ none) ⊎ (exp ≡ some (pos 0))))
against_settled act none status ended = ground arith
against_settled act (some e) status ended = elim (Bool-cases (eqb_ℤ e (pos 0))) [
  | inl z ↦ rw z (ground (arith, eqb_zero e z))
  | inr n ↦ rw n (ground (arith, n, delta_settled act e (or_else act (pos 0) -ℤ e) status ended))
]

module _ (expected : Scalar) (roll : Rollup) (status : Option Text) (ended : Bool) where
  abbrev verdict : Classification
  verdict = classify_reconciliation expected roll status ended

  -- A row is pending exactly if no statement line lies in its term, and it has no expected amount
  -- exactly if some line does and the expected amount is absent, unreadable or zero.
  pub classify_without :
      ((verdict.status ≡ pending) ↔ (roll.in_term_count ≡ 0))
      × ((verdict.status ≡ no_expected) ↔ (0 < roll.in_term_count × Unexpected expected))
  unfolding classify_reconciliation
  classify_without = elim (Bool-cases (has_transactions roll)) [
    | inl some_line ↦
        rw some_line
          (ground (arith, some_line, against_settled roll.actual (dec expected) status ended))
    | inr no_line ↦ rw no_line (ground (arith, no_line))
  ]

  -- With a line in the term and an expected amount other than zero, the delta is what arrived less
  -- what was expected, and the verdict is the one that it calls for.
  pub classify-ByDelta :
      (a e : ℤ)
      → 0 < roll.in_term_count
      → roll.actual ≡ some a
      → dec expected ≡ some e
      → e ≢ pos 0
      → (verdict.delta ≡ some (a -ℤ e))
        × ByDelta verdict.status (a -ℤ e) (is_cancelled status) ended
  unfolding classify_reconciliation
  classify-ByDelta a e lines act exp ne =
      rw (lt→ltb 0 roll.in_term_count lines, act, exp, eqb_ne e ne)
        (
          (delta_settled (some a) e (a -ℤ e) status ended).0,
          delta_verdict (some a) e (a -ℤ e) status ended,
        )

abbrev pub rank : Severity → ℕ
rank matched = 0
rank low = 1
rank medium = 2
rank high = 3
rank critical = 4

-- A larger delta never has a lower severity, and the severity is `matched` within the tolerance only.
pub severity_mono :
    (a b : ℤ)
    → abs a ≤ℤ abs b
    → (rank (severity (some a)) ≤ rank (severity (some b)))
      × ((severity (some a) ≡ matched) ↔ (abs a ≤ℤ tolerance))
unfolding severity
severity_mono a b h = (ground arith, ground arith)
