-- ===== src/Renewals/Cadence/Tests.antt =====
-- The theorems on the cadence at a commercial policy that expires on 2026-06-30.
use rsg_hermes.Prelude.{ℕ, ◌≡◌, refl, Bool, false, Option, none, some, List, [], ◌∷◌, map}
use rsg_hermes.Prelude.Int.{sub_ℕ}
use rsg_hermes.Prelude.Text.{Text, codes, strip}
use rsg_hermes.Python.Date.{parse_date}
use rsg_hermes.Python.Decimal.{units}
use rsg_hermes.Renewals.Cadence.Config.{
  commercial_small, commercial_mid, Field, touch_early, touch_mid, touch_decision, fixed,
  t60_changes, t90_kickoff, t30_options, touch_spec, Touch,
}
use rsg_hermes.Renewals.Cadence.{
  Policy, Due, due_of, due_touches, days_until, lob_of, is_medicare, is_benefits, is_commercial,
  names_personal, names_auto, classify_segment,
}
use rsg_hermes.Renewals.Cadence.Touches.{is_ready, keep_touches, due_touches_lem}

abbrev expires : Option Text
expires = some (codes "2026-06-30")

-- 2026-06-30, and 88 days before it.
abbrev last_day : ℕ
last_day = 739797

abbrev early_day : ℕ
early_day = 739709

abbrev nothing_sent : Field → Bool
nothing_sent f = false

due_touches_lem_example :
    due_touches (some commercial_mid) expires nothing_sent early_day none none
    ≡ map
        (due_of (sub_ℕ last_day early_day) none)
        (keep_touches (is_ready last_day early_day 10 nothing_sent) (touch_spec commercial_mid))
unfolding parse_date
due_touches_lem_example =
    due_touches_lem commercial_mid expires nothing_sent early_day none none last_day refl

kickoff :
    map
      (λ (d : Due). d.template)
      (due_touches (some commercial_mid) expires nothing_sent early_day none none)
    ≡ t90_kickoff ∷ []
unfolding due_touches parse_date days_until
kickoff = refl

abbrev kickoff_touch : Touch
kickoff_touch = record { days = 90; field = touch_early; template = fixed t90_kickoff }

abbrev later_touches : List Touch
later_touches =
    record { days = 60; field = touch_mid; template = fixed t60_changes }
    ∷ record { days = 30; field = touch_decision; template = fixed t30_options }
    ∷ []

abbrev fleet : Policy
fleet = record {
  line_of_business = none;
  line_of_business_camel = some (codes "Commercial Auto");
  lob = none;
  effective_date = some (codes "2026-01-01");
  effective_date_camel = none;
  expiration_date = expires;
  expiration_date_camel = none;
}

small_fleet : classify_segment fleet (some (units 4000)) ≡ some commercial_small
unfolding classify_segment is_medicare is_benefits is_commercial names_personal names_auto lob_of
    strip
small_fleet = refl
