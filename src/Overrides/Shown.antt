-- ===== src/Overrides/Shown.antt =====
-- Which values agree.
use rsg_hermes.Prelude.{◌≡◌, refl, Bool, Option, none, some, arith}
use rsg_hermes.Prelude.Int.{ℤ, -ℤ_parts}
use rsg_hermes.Prelude.Text.{Text, text_eq, lower, strip}
use rsg_hermes.Prelude.Dict.{text_eq_iff}
use rsg_hermes.Overrides.{
  Value, null, bool, num, text, as_decimal, same_value, same_otherwise, by_decimals,
}

text_eq_comm : (a b : Text) → text_eq a b ≡ text_eq b a
text_eq_comm a b = ground (arith, text_eq_iff a b, text_eq_iff b a)

decimals_comm : (x y : Option ℤ) (b c : Bool) → b ≡ c → by_decimals x y b ≡ by_decimals y x c
decimals_comm none none b c e = e
decimals_comm none (some y) b c e = e
decimals_comm (some x) none b c e = e
decimals_comm (some x) (some y) b c e = ground (arith, -ℤ_parts x y, -ℤ_parts y x)

otherwise_comm : (a b : Value) → same_otherwise a b ≡ same_otherwise b a
otherwise_comm null null = refl
otherwise_comm null (bool b) = refl
otherwise_comm null (num z) = refl
otherwise_comm null (text s) = refl
otherwise_comm (bool a) null = refl
otherwise_comm (bool a) (bool b) = ground arith
otherwise_comm (bool a) (num z) = ground arith
otherwise_comm (bool a) (text s) = ground arith
otherwise_comm (num z) null = refl
otherwise_comm (num z) (bool b) = ground arith
otherwise_comm (num z) (num y) = refl
otherwise_comm (num z) (text s) = refl
otherwise_comm (text s) null = refl
otherwise_comm (text s) (bool b) = ground arith
otherwise_comm (text s) (num z) = refl
otherwise_comm (text s) (text t) = text_eq_comm (lower (strip s)) (lower (strip t))

-- Whether two values agree does not depend on which is the source's.
pub same_value_comm : (a b : Value) → same_value a b ≡ same_value b a
unfolding same_value
same_value_comm a b = decimals_comm (as_decimal a) (as_decimal b) _ _ (otherwise_comm a b)
