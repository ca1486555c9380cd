-- ===== src/Renewals/Cadence.antt =====
-- hermes/renewals/cadence.py and cadence_config.py: the segment of a policy, and the touches that are
-- due before its expiration. The tunables have their default values; labels are not modelled.
pub mod Config
pub mod Touches
pub mod Segments
mod Tests
use rsg_hermes.Prelude.{
  ℕ, ◌+◌, ◌≡◌, Bool, true, false, not, ◌&&◌, ◌||◌, Option, none, some, List, [], ◌∷◌, any, or_else,
  leb, ltb, if◌then◌else◌,
}
use rsg_hermes.Prelude.Int.{ℤ, pos, sub_ℕ, ltb_ℤ, leb_ℤ}
use rsg_hermes.Prelude.Text.{Text, contains, strip, lower}
use rsg_hermes.Python.Date.{parse_date}
use rsg_hermes.Renewals.Cadence.Config.{
  Segment, auto_6mo, personal_12mo, commercial_small, commercial_mid, benefits, Field, Template,
  light_confirm_text, TemplateSpec, fixed, by_cycle, Cycle, full_review, light_confirm,
  template_by_cycle, Touch, touch_spec, term_6mo_max_days, full_review_window_days,
  backfill_grace_days, small_commercial_max_account_premium, medicare_lob_keywords,
  benefits_lob_keywords, personal_lob_keywords, auto_lob_keywords, commercial_marker,
}

-- The columns of a policy that the classifier reads, under both spellings.
pub record Policy : Type 0 where
  pub line_of_business : Option Text
  pub line_of_business_camel : Option Text
  pub lob : Option Text
  pub effective_date : Option Text
  pub effective_date_camel : Option Text
  pub expiration_date : Option Text
  pub expiration_date_camel : Option Text

-- `a or b`
abbrev pub either : Option Text → Option Text → Option Text
either none b = b
either (some []) b = b
either (some (c ∷ s)) b = some (c ∷ s)

-- `_lob`
unfoldable pub lob_of : Policy → Text
lob_of p = lower (
    strip (
      or_else (either p.line_of_business (either p.line_of_business_camel (either p.lob none))) []))

abbrev pub has_any : Text → List Text → Bool
has_any lob keywords = any (λ k. contains k lob) keywords

unfoldable pub is_medicare : Text → Bool
is_medicare lob = has_any lob medicare_lob_keywords

unfoldable pub is_benefits : Text → Bool
is_benefits lob = has_any lob benefits_lob_keywords

unfoldable pub is_commercial : Text → Bool
is_commercial lob = contains commercial_marker lob

unfoldable pub names_personal : Text → Bool
names_personal lob = has_any lob personal_lob_keywords

unfoldable pub names_auto : Text → Bool
names_auto lob = has_any lob auto_lob_keywords

abbrev pub is_personal : Text → Bool
is_personal lob = not (is_commercial lob) && names_personal lob

abbrev pub is_personal_auto : Text → Bool
is_personal_auto lob = not (is_commercial lob) && names_auto lob

abbrev days_between : Option ℕ → Option ℕ → Option ℤ
days_between none exp = none
days_between (some eff) none = none
days_between (some eff) (some exp) = some (sub_ℕ exp eff)

unfoldable pub term_days : Policy → Option ℤ
term_days p =
    days_between (parse_date (either p.effective_date p.effective_date_camel))
      (parse_date (either p.expiration_date p.expiration_date_camel))

unfoldable pub is_six_month_term : Policy → Bool
is_six_month_term p = elim (term_days p) [
  | none ↦ false
  | some days ↦ ltb_ℤ days (pos term_6mo_max_days)
]

unfoldable pub classify_segment : Policy → Option ℤ → Option Segment
classify_segment p account_active_premium =
    let lob = lob_of p in
    if is_medicare lob
    then none
    else if is_benefits lob
    then some benefits
    else if is_personal_auto lob && is_six_month_term p
    then some auto_6mo
    else if is_personal lob
    then some personal_12mo
    else if leb_ℤ (or_else account_active_premium (pos 0)) small_commercial_max_account_premium
    then some commercial_small
    else some commercial_mid

unfoldable pub auto_6mo_cycle : Option Text → ℕ → Cycle
auto_6mo_cycle last_full_review today = elim (parse_date last_full_review) [
  | none ↦ full_review
  | some last ↦
      if leb_ℤ (pos full_review_window_days) (sub_ℕ today last) then full_review else light_confirm
]

unfoldable pub days_until : Option Text → ℕ → Option ℤ
days_until expiration_date today = elim (parse_date expiration_date) [
  | none ↦ none
  | some exp ↦ some (sub_ℕ exp today)
]

abbrev pub resolve_template : TemplateSpec → Option Cycle → Template
resolve_template (fixed t) cycle = t
resolve_template by_cycle cycle = template_by_cycle (or_else cycle light_confirm)

pub record Due : Type 0 where
  pub days : ℕ
  pub field : Field
  pub template : Template
  pub days_until : ℤ

abbrev pub due_of : ℤ → Option Cycle → Touch → Due
due_of remaining cycle t = record {
  days = t.days;
  field = t.field;
  template = resolve_template t.template cycle;
  days_until = remaining;
}

-- The loop: `sent` is the truth of each slot.
unfoldable pub due_from : ℤ → ℕ → (Field → Bool) → Option Cycle → List Touch → List Due
due_from remaining grace sent cycle [] = []
due_from remaining grace sent cycle (t ∷ ts) =
    let rest = due_from remaining grace sent cycle ts in
    if sent t.field
    then rest
    else if ltb_ℤ (pos t.days) remaining
    then rest
    else if ltb_ℤ remaining (sub_ℕ t.days grace)
    then rest
    else due_of remaining cycle t ∷ rest

unfoldable pub due_touches :
    Option Segment → Option Text → (Field → Bool) → ℕ → Option ℕ → Option Cycle → List Due
unfolding due_from
due_touches none expiration_date sent today grace_days cycle = []
due_touches (some seg) expiration_date sent today grace_days cycle =
    elim (days_until expiration_date today) [
      | none ↦ []
      | some remaining ↦
          due_from remaining (or_else grace_days backfill_grace_days) sent cycle (touch_spec seg)
    ]
