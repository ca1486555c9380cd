-- ===== src/Overrides.antt =====
-- packages/rsg-hermes-core/hermes_core/overrides: corrections that outrank a synced source until the
-- source catches up. This is core.py; the run of store.py is in `Run`. A JSON value is null, a Boolean,
-- a number or a text; lists and objects are outside the domain.
pub mod Run
pub mod Apply
pub mod Store
pub mod Shown
pub mod Synced
mod Tests
use rsg_hermes.Prelude.{
  ℕ, ◌+◌, ◌≡◌, Bool, true, false, not, ◌&&◌, ◌||◌, Option, none, some, List, [], ◌∷◌, or_else, ◌==◌,
  if◌then◌else◌,
}
use rsg_hermes.Prelude.Int.{ℤ, pos, ◌-ℤ◌, abs, leb_ℤ, eqb_ℤ}
use rsg_hermes.Prelude.Text.{Text, text_eq, strip, lower}
use rsg_hermes.Python.Decimal.{decimal}

pub data Value : Type 0 where
  null : Value
  bool : Bool → Value
  num : ℤ → Value
  text : Text → Value

abbrev pub money_epsilon : ℤ
money_epsilon = pos 10000

-- `.replace(",", "").replace("$", "")`
abbrev pub without_signs : Text → Text
without_signs [] = []
without_signs (c ∷ s) =
    let rest = without_signs s in if c == b',' || c == b'$' then rest else c ∷ rest

abbrev read_text : Text → Option ℤ
read_text [] = none
read_text (c ∷ s) = decimal (c ∷ s)

-- `_as_decimal`
unfoldable pub as_decimal : Value → Option ℤ
as_decimal null = none
as_decimal (bool b) = none
as_decimal (num z) = some z
as_decimal (text s) = read_text (without_signs (strip s))

-- `bool(v)`
abbrev pub truth : Value → Bool
truth null = false
truth (bool b) = b
truth (num z) = not (eqb_ℤ z (pos 0))
truth (text []) = false
truth (text (c ∷ s)) = true

abbrev bool_eq : Bool → Bool → Bool
bool_eq true b = b
bool_eq false b = not b

-- What is left once the numbers have been compared: a number's own text is a decimal, so it is none of
-- the texts that are not.
abbrev pub same_otherwise : Value → Value → Bool
same_otherwise null null = true
same_otherwise null b = false
same_otherwise (bool a) null = false
same_otherwise (bool a) (bool b) = bool_eq a b
same_otherwise (bool a) (num z) = bool_eq a (truth (num z))
same_otherwise (bool a) (text s) = bool_eq a (truth (text s))
same_otherwise (num z) (bool b) = bool_eq (truth (num z)) b
same_otherwise (num z) b = false
same_otherwise (text s) (bool b) = bool_eq (truth (text s)) b
same_otherwise (text s) (text t) = text_eq (lower (strip s)) (lower (strip t))
same_otherwise (text s) b = false

abbrev pub by_decimals : Option ℤ → Option ℤ → Bool → Bool
by_decimals (some x) (some y) other = leb_ℤ (abs (x -ℤ y)) money_epsilon
by_decimals _ _ other = other

unfoldable pub same_value : Value → Value → Bool
same_value a b = by_decimals (as_decimal a) (as_decimal b) (same_otherwise a b)

pub data Status : Type 0 where
  active retired conflicted : Status

abbrev pub is_active : Status → Bool
is_active active = true
is_active retired = false
is_active conflicted = false

pub record Override : Type 0 where
  pub id : Text
  pub entity_type : Text
  pub entity_key : Text
  pub field_name : Text
  pub override_value : Value
  pub original_value : Value
  pub status : Status

unfoldable pub resolve : Value → Option Override → Value
resolve source_value none = source_value
resolve source_value (some o) = if is_active o.status then o.override_value else source_value

pub data Action : Type 0 where
  keep retire conflict : Action

unfoldable pub reconcile : Value → Override → Action
reconcile source_value o =
    if not (is_active o.status)
    then keep
    else if same_value source_value o.override_value
    then retire
    else if same_value source_value o.original_value
    then keep
    else conflict
