-- ===== src/Renewals/Cadence/Config.antt =====
-- hermes/renewals/cadence_config.py: the tunables at their defaults, the segments, the touches of each
-- and the words by which a line of business is recognised.
use rsg_hermes.Prelude.{ℕ, List, [], ◌∷◌, Bool, ◌==◌, ◌≡◌, refl, map}
use rsg_hermes.Prelude.Int.{ℤ}
use rsg_hermes.Prelude.Text.{Text, codes}
use rsg_hermes.Python.Decimal.{units}

pub data Segment : Type 0 where
  auto_6mo personal_12mo commercial_small commercial_mid benefits : Segment

pub data Field : Type 0 where
  touch_early touch_mid touch_decision welcome : Field

abbrev field_tag : Field → ℕ
field_tag touch_early = 0
field_tag touch_mid = 1
field_tag touch_decision = 2
field_tag welcome = 3

abbrev pub field_eq : Field → Field → Bool
field_eq a b = field_tag a == field_tag b

pub data Template : Type 0 where
  t90_kickoff t60_changes t45_headsup t40_headsup t30_options t15_decision light_confirm_text
        welcome_text :
      Template

pub data Cycle : Type 0 where
  full_review light_confirm : Cycle

pub data TemplateSpec : Type 0 where
  fixed : Template → TemplateSpec
  by_cycle : TemplateSpec

-- AUTO_6MO_TEMPLATE_BY_CYCLE
abbrev pub template_by_cycle : Cycle → Template
template_by_cycle full_review = t30_options
template_by_cycle light_confirm = light_confirm_text

pub record Touch : Type 0 where
  pub days : ℕ
  pub field : Field
  pub template : TemplateSpec

abbrev touch : ℕ → Field → TemplateSpec → Touch
touch days field template = record { days = days; field = field; template = template }

abbrev pub small_commercial_max_account_premium : ℤ
small_commercial_max_account_premium = units 5000

abbrev pub term_6mo_max_days : ℕ
term_6mo_max_days = 270

abbrev pub backfill_grace_days : ℕ
backfill_grace_days = 10

abbrev pub full_review_window_days : ℕ
full_review_window_days = 300

abbrev pub cadence_days : Segment → List ℕ
cadence_days auto_6mo = 30 ∷ []
cadence_days personal_12mo = 45 ∷ 15 ∷ []
cadence_days commercial_small = 40 ∷ 15 ∷ []
cadence_days commercial_mid = 90 ∷ 60 ∷ 30 ∷ []
cadence_days benefits = 90 ∷ 60 ∷ 30 ∷ []

abbrev three_touches : List Touch
three_touches =
    touch 90 touch_early (fixed t90_kickoff)
    ∷ touch 60 touch_mid (fixed t60_changes)
    ∷ touch 30 touch_decision (fixed t30_options)
    ∷ []

abbrev pub touch_spec : Segment → List Touch
touch_spec auto_6mo = touch 30 touch_decision by_cycle ∷ []
touch_spec personal_12mo =
    touch 45 touch_early (fixed t45_headsup) ∷ touch 15 touch_decision (fixed t15_decision) ∷ []
touch_spec commercial_small =
    touch 40 touch_early (fixed t40_headsup) ∷ touch 15 touch_decision (fixed t15_decision) ∷ []
touch_spec commercial_mid = three_touches
touch_spec benefits = three_touches

-- What `_assert_spec_matches_cadence` asserts at import.
no_drift : (s : Segment) → map (λ (t : Touch). t.days) (touch_spec s) ≡ cadence_days s
no_drift auto_6mo = refl
no_drift personal_12mo = refl
no_drift commercial_small = refl
no_drift commercial_mid = refl
no_drift benefits = refl

abbrev pub medicare_lob_keywords : List Text
medicare_lob_keywords =
    codes "medicare"
    ∷ codes "medicare advantage"
    ∷ codes "mapd"
    ∷ codes "medigap"
    ∷ codes "med supp"
    ∷ codes "pdp"
    ∷ codes "prescription drug plan"
    ∷ []

abbrev pub benefits_lob_keywords : List Text
benefits_lob_keywords =
    codes "group health"
    ∷ codes "group dental"
    ∷ codes "group vision"
    ∷ codes "group life"
    ∷ codes "group disability"
    ∷ codes "group std"
    ∷ codes "group ltd"
    ∷ codes "employee benefit"
    ∷ codes "employee benefits"
    ∷ codes "aflac"
    ∷ codes "supplemental health"
    ∷ codes "voluntary benefit"
    ∷ []

abbrev pub personal_lob_keywords : List Text
personal_lob_keywords =
    codes "auto"
    ∷ codes "automobile"
    ∷ codes "home"
    ∷ codes "homeowner"
    ∷ codes "dwelling"
    ∷ codes "renter"
    ∷ codes "umbrella"
    ∷ codes "boat"
    ∷ codes "watercraft"
    ∷ codes "rv"
    ∷ codes "motorcycle"
    ∷ codes "personal"
    ∷ codes "ho3"
    ∷ codes "ho-3"
    ∷ codes "ho6"
    ∷ codes "ho-6"
    ∷ []

abbrev pub auto_lob_keywords : List Text
auto_lob_keywords = codes "auto" ∷ codes "automobile" ∷ []

abbrev pub commercial_marker : Text
commercial_marker = codes "commercial"
