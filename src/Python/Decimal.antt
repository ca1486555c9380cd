-- ===== src/Python/Decimal.antt =====
-- `decimal.Decimal` on the amounts of the program: integers in millionths. A text is a plain decimal,
-- with a sign and a point at most, and up to six digits behind the point.
use rsg_hermes.Prelude.{
  ℕ, zero, suc, ◌+◌, ◌-◌, ◌*◌, ◌^◌, ◌≡◌, refl, Bool, Option, none, some, [], ◌∷◌, ◌==◌,
  if◌then◌else◌,
}
use rsg_hermes.Prelude.Int.{ℤ, pos, sub_ℕ}
use rsg_hermes.Prelude.Text.{Text, codes, is_digit, strip}

abbrev pub units : ℕ → ℤ
units n = pos (n * 1000000)

-- The value of a column: JSON null, a number, a boolean or a text.
pub data Scalar : Type 0 where
  null : Scalar
  num : ℤ → Scalar
  bool : Bool → Scalar
  text : Text → Scalar

-- The digits behind the point, `room` of them at most.
abbrev fraction : ℕ → ℕ → Text → Option ℕ
fraction acc room [] = some (acc * 10 ^ room)
fraction acc zero (c ∷ s) = none
fraction acc (suc room) (c ∷ s) =
    let rest = fraction (acc * 10 + (c - 48)) room s in if is_digit c then rest else none

abbrev whole : ℕ → Text → Option ℕ
whole acc [] = some (acc * 1000000)
whole acc (c ∷ s) =
    let rest = whole (acc * 10 + (c - 48)) s in
    if is_digit c then rest else if c == b'.' then fraction acc 6 s else none

abbrev magnitude : Text → Option ℕ
magnitude [] = none
magnitude (c ∷ []) = if is_digit c then whole 0 (c ∷ []) else none
magnitude (c ∷ s) = whole 0 (c ∷ s)

abbrev signed : Text → Option ℤ
signed [] = none
signed (c ∷ s) =
    if c == b'-'
    then elim (magnitude s) [ none ↦ none | some n ↦ some (sub_ℕ 0 n) ]
    else elim (magnitude (if c == b'+' then s else c ∷ s)) [ none ↦ none | some n ↦ some (pos n) ]

-- `Decimal(s)`, or `none` where it raises `InvalidOperation`.
unfoldable pub decimal : Text → Option ℤ
unfolding strip
decimal s = signed (strip s)

premium : decimal (codes " -535.65 ") ≡ some (sub_ℕ 0 535650000)
unfolding decimal
premium = refl
