-- ===== src/Renewals/Executor/Instruction.antt =====
-- hermes/renewals/executor.py: the instruction that a queue row carries (`_load`), and the comparison of
-- approved values with a policy's. Texts of the payload are texts; a policy is a dict of JSON scalars.
use rsg_hermes.Prelude.{
  ℕ, ◌≡◌, refl, Bool, true, false, ◌&&◌, Option, none, some, List, [], ◌∷◌, or_else, if◌then◌else◌,
  arith,
}
use rsg_hermes.Prelude.Int.{ℤ, pos, eqb_ℤ}
use rsg_hermes.Prelude.Text.{Text, codes, text_eq, strip, lower}
use rsg_hermes.Prelude.Dict.{Dict, get}
use rsg_hermes.Python.Decimal.{decimal}
use rsg_hermes.Overrides.{Value, null, bool, num, text, truth}

pub data Action : Type 0 where
  request_terms prepare_options client_follow_up update_ams : Action

-- The member of `ACTIONS` that a text is.
unfoldable pub action_named : Text → Option Action
action_named s =
    if text_eq s (codes "request_terms")
    then some request_terms
    else if text_eq s (codes "prepare_options")
    then some prepare_options
    else if text_eq s (codes "client_follow_up")
    then some client_follow_up
    else if text_eq s (codes "update_ams")
    then some update_ams
    else none

-- A row of the queue, as far as the executor reads it.
pub record Row : Type 0 where
  pub id : Text
  pub approved_by : Option Text
  pub approved_at : Option Text
  pub payload : Dict Text
  pub payload_fields : Dict Value
  pub due_in_days : Option ℕ

-- `renewal_row` is the id of the linked renewal.
pub record JobContext : Type 0 where
  pub queue_id : Text
  pub action : Text
  pub renewal_id : Text
  pub policy_number : Text
  pub expected_result : Text
  pub approved_by : Text
  pub approved_at : Option Text
  pub fields : Dict Value
  pub payload : Dict Text
  pub due_in_days : Option ℕ
  pub renewal_row : Option Text

-- `str(d.get(k) or "").strip()`
abbrev pub stripped : Option Text → Text
stripped s = strip (or_else s [])

-- `_load`
unfoldable pub load : Row → JobContext
load row = record {
  queue_id = row.id;
  action = stripped (get (codes "action") row.payload);
  renewal_id = stripped (get (codes "renewal_id") row.payload);
  policy_number = stripped (get (codes "policy_number") row.payload);
  expected_result = stripped (get (codes "expected_result") row.payload);
  approved_by = stripped row.approved_by;
  approved_at = row.approved_at;
  fields = row.payload_fields;
  payload = row.payload;
  due_in_days = row.due_in_days;
  renewal_row = none;
}

abbrev pub Policy : Type 0
Policy = Dict Value

-- `d.get(k)`
abbrev pub value_at : Text → Policy → Value
value_at k p = or_else (get k p) null

-- `a or b`
abbrev pub or_value : Value → Value → Value
or_value a b = if truth a then a else b

abbrev pub get_lowered : Text → Policy → Value
get_lowered k [] = null
get_lowered k ((j, v) ∷ p) = if text_eq (lower j) (lower k) then v else get_lowered k p

-- `_current_value`
unfoldable pub current_value : Policy → Text → Value
current_value before key = elim (get key before) [ none ↦ get_lowered key before | some v ↦ v ]

-- `float(v)`, or `none` where it raises.
abbrev pub as_float : Value → Option ℤ
as_float null = none
as_float (bool true) = some (pos 1000000)
as_float (bool false) = some (pos 0)
as_float (num z) = some z
as_float (text s) = decimal s

-- `str(a).strip() == str(b).strip()` where one of them is no number.
abbrev pub same_text : Value → Value → Bool
same_text (text s) (text t) = text_eq (strip s) (strip t)
same_text (bool true) (text t) = text_eq (codes "True") (strip t)
same_text (bool false) (text t) = text_eq (codes "False") (strip t)
same_text (text s) (bool true) = text_eq (strip s) (codes "True")
same_text (text s) (bool false) = text_eq (strip s) (codes "False")
same_text _ _ = false

abbrev pub by_floats : Option ℤ → Option ℤ → Bool → Bool
by_floats (some x) (some y) other = eqb_ℤ x y
by_floats _ _ other = other

-- `_values_equal`: two decimals of six digits are closer than 1e-9 exactly if they are equal.
unfoldable pub values_equal : Value → Value → Bool
values_equal null null = true
values_equal null b = false
values_equal (bool a) null = false
values_equal (num a) null = false
values_equal (text a) null = false
values_equal a b = by_floats (as_float a) (as_float b) (same_text a b)

-- Whether every approved field has its value in the policy.
abbrev pub shows : Policy → Dict Value → Bool
shows p [] = true
shows p ((k, v) ∷ fields) = values_equal (current_value p k) v && shows p fields

-- The approved fields that the policy does not show.
abbrev pub mismatched : Policy → Dict Value → List Text
mismatched p [] = []
mismatched p ((k, v) ∷ fields) =
    if values_equal (current_value p k) v then mismatched p fields else k ∷ mismatched p fields

-- `_is_noop`
unfoldable pub is_noop : Policy → Dict Value → Bool
is_noop before [] = false
is_noop before (f ∷ fields) = shows before (f ∷ fields)

pub shows-mismatched :
    (p : Policy) (fields : Dict Value) → mismatched p fields ≡ [] → shows p fields ≡ true
shows-mismatched p [] h = refl
shows-mismatched p ((k, v) ∷ fields) h = ground (arith, shows-mismatched p fields)

pub mismatched-shows :
    (p : Policy) (fields : Dict Value) → shows p fields ≡ true → mismatched p fields ≡ []
mismatched-shows p [] h = refl
mismatched-shows p ((k, v) ∷ fields) h = ground (arith, mismatched-shows p fields)

number_and_text : values_equal (num (pos 1200000000)) (text (codes " 1200.00 ")) ≡ true
unfolding values_equal decimal strip
number_and_text = refl

pascal_case :
    current_value ((codes "totalPremium", num (pos 7)) ∷ []) (codes "TotalPremium") ≡ num (pos 7)
unfolding current_value get
pascal_case = refl
