-- ===== src/Python/Date.antt =====
-- `datetime.date`: a date is its proleptic Gregorian ordinal, so `(a - b).days` is a difference.
-- `fromisoformat` is read in its extended form, YYYY-MM-DD, which is how the columns are sent.
use rsg_hermes.Prelude.{
  ℕ, zero, suc, ◌+◌, ◌-◌, ◌*◌, ◌/◌, ◌%◌, ◌≡◌, refl, Bool, not, ◌&&◌, ◌||◌, Option, none, some, List,
  [], ◌∷◌, leb, ◌==◌, if◌then◌else◌,
}
use rsg_hermes.Prelude.Text.{Text, codes, is_digit, take}

unfoldable pub is_leap : ℕ → Bool
is_leap y = y % 4 == 0 && (not (y % 100 == 0) || y % 400 == 0)

-- Days before the year `y`, counted from 0001-01-01.
unfoldable pub days_before_year : ℕ → ℕ
days_before_year y = let p = y - 1 in p * 365 + p / 4 - p / 100 + p / 400

abbrev month_lengths : Bool → List ℕ
month_lengths leap =
    31 ∷ (if leap then 29 else 28) ∷ 31 ∷ 30 ∷ 31 ∷ 30 ∷ 31 ∷ 31 ∷ 30 ∷ 31 ∷ 30 ∷ 31 ∷ []

-- The days of the months before, and the length of the month, for a month counted from 0.
abbrev month_at : ℕ → List ℕ → ℕ → Option (ℕ × ℕ)
month_at acc [] m = none
month_at acc (n ∷ ns) zero = some (acc, n)
month_at acc (n ∷ ns) (suc m) = month_at (acc + n) ns m

-- `date(y, m, d)`, or `none` where it raises.
unfoldable pub date : ℕ → ℕ → ℕ → Option ℕ
unfolding is_leap days_before_year
date y m d =
    if leb 1 y && leb 1 m
    then elim (month_at 0 (month_lengths (is_leap y)) (m - 1)) [
      | none ↦ none
      | some (passed, len) ↦
          if leb 1 d && leb d len then some (days_before_year y + passed + d) else none
    ]
    else none

-- A number of exactly the given digits.
abbrev number : ℕ → Text → Option ℕ
number acc [] = some acc
number acc (c ∷ s) = let rest = number (acc * 10 + (c - 48)) s in if is_digit c then rest else none

abbrev date_of : Option ℕ → Option ℕ → Option ℕ → Option ℕ
date_of (some y) (some m) (some d) = date y m d
date_of _ _ _ = none

-- `date.fromisoformat(s)`, or `none` where it raises `ValueError`.
unfoldable pub from_iso : Text → Option ℕ
unfolding date
from_iso (y1 ∷ y2 ∷ y3 ∷ y4 ∷ h1 ∷ m1 ∷ m2 ∷ h2 ∷ d1 ∷ d2 ∷ []) =
    if h1 == b'-' && h2 == b'-'
    then date_of (number 0 (y1 ∷ y2 ∷ y3 ∷ y4 ∷ [])) (number 0 (m1 ∷ m2 ∷ []))
        (number 0 (d1 ∷ d2 ∷ []))
    else none
from_iso _ = none

-- `_parse_date` of the commission and renewal modules: a falsy value and a bad text are `None`, and
-- only the first ten characters are read.
unfoldable pub parse_date : Option Text → Option ℕ
unfolding from_iso
parse_date none = none
parse_date (some []) = none
parse_date (some (c ∷ s)) = from_iso (take 10 (c ∷ s))

epoch : parse_date (some (codes "1970-01-01T00:00:00+00:00")) ≡ some 719163
unfolding parse_date
epoch = refl

leap_day : parse_date (some (codes "2024-02-29")) ≡ some 738945
unfolding parse_date
leap_day = refl

no_leap_day : parse_date (some (codes "2026-02-29")) ≡ none
unfolding parse_date
no_leap_day = refl
