-- ===== src/Renewals/Cadence/Touches.antt =====
-- Which touches are due on a day.
use rsg_hermes.Prelude.{
  ℕ, ◌+◌, ◌≤◌, ◌≡◌, refl, Bool, not, ◌&&◌, Option, none, some, List, [], ◌∷◌, length, map, leb,
  or_else, arith, Option-cases, inl, inr, if◌then◌else◌,
}
use rsg_hermes.Prelude.Int.{sub_ℕ}
use rsg_hermes.Prelude.Text.{Text}
use rsg_hermes.Python.Date.{parse_date}
use rsg_hermes.Renewals.Cadence.Config.{
  Segment, auto_6mo, personal_12mo, commercial_small, commercial_mid, benefits, Field, Cycle, Touch,
  touch_spec, backfill_grace_days,
}
use rsg_hermes.Renewals.Cadence.{due_of, due_from, due_touches, days_until}

-- A touch of an empty slot, from its threshold on and for `grace` days.
abbrev pub is_ready : ℕ → ℕ → ℕ → (Field → Bool) → Touch → Bool
is_ready exp today grace sent t =
    not (sent t.field) && (leb exp (today + t.days) && leb (today + t.days) (exp + grace))

abbrev pub keep_touches : (Touch → Bool) → List Touch → List Touch
keep_touches p [] = []
keep_touches p (t ∷ ts) = let rest = keep_touches p ts in if p t then t ∷ rest else rest

due_from_lem :
    (exp today grace : ℕ) (sent : Field → Bool) (cycle : Option Cycle) (ts : List Touch)
    → due_from (sub_ℕ exp today) grace sent cycle ts
      ≡ map (due_of (sub_ℕ exp today) cycle) (keep_touches (is_ready exp today grace sent) ts)
unfolding due_from
due_from_lem exp today grace sent cycle [] = refl
due_from_lem exp today grace sent cycle (t ∷ ts) =
    ground (arith, due_from_lem exp today grace sent cycle ts)

-- A policy that has an expiration date and a segment is due, in the order of the segment's schedule,
-- exactly the touches whose slot is empty, whose threshold has come, and which are not more than the
-- grace days past it.
pub due_touches_lem :
    (seg : Segment) (expiration_date : Option Text) (sent : Field → Bool) (today : ℕ)
    (grace_days : Option ℕ) (cycle : Option Cycle) (exp : ℕ)
    → parse_date expiration_date ≡ some exp
    → due_touches (some seg) expiration_date sent today grace_days cycle
      ≡ map (due_of (sub_ℕ exp today) cycle) (
          keep_touches
            (is_ready exp today (or_else grace_days backfill_grace_days) sent)
            (touch_spec seg))
unfolding due_touches days_until
due_touches_lem seg expiration_date sent today grace_days cycle exp e =
    rw (e, due_touches)
      (due_from_lem exp today (or_else grace_days backfill_grace_days) sent cycle (touch_spec seg))

-- With the default grace, at most one touch of a policy is due on a day, whatever has been sent.
pub due_touches_one :
    (segment : Option Segment) (expiration_date : Option Text) (sent : Field → Bool) (today : ℕ)
    (cycle : Option Cycle)
    → length (due_touches segment expiration_date sent today none cycle) ≤ 1
unfolding due_touches days_until
due_touches_one none expiration_date sent today cycle = omega arith
due_touches_one (some seg) expiration_date sent today cycle =
    elim (Option-cases (parse_date expiration_date)) [
      | inl bad ↦ rw (bad, due_touches) (omega arith)
      | inr (exp, e) ↦
          rw (due_touches_lem seg expiration_date sent today none cycle exp e) (by_segment seg exp)
    ]
  where
    by_segment :
        (s : Segment) (exp : ℕ)
        → length (
            map
              (due_of (sub_ℕ exp today) cycle)
              (keep_touches (is_ready exp today backfill_grace_days sent) (touch_spec s)))
          ≤ 1
    by_segment auto_6mo exp = ground arith
    by_segment personal_12mo exp = ground arith
    by_segment commercial_small exp = ground arith
    by_segment commercial_mid exp = ground arith
    by_segment benefits exp = ground arith
