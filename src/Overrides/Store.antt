-- ===== src/Overrides/Store.antt =====
-- `set_override` and `withdraw` of store.py over the table of overrides, in the order in which the
-- database returns its rows. What the database answers is an argument: a call may raise, and may have
-- been applied all the same. The write log keeps the actions.
pub mod Single
use rsg_hermes.Prelude.{
  ℕ, ◌+◌, ◌≤◌, ◌≡◌, refl, Bool, true, false, ◌&&◌, ◌||◌, not, Option, none, some, List, [], ◌∷◌,
  ◌++◌, arith, Bool-cases, Option-cases, inl, inr, if◌then◌else◌,
}
use rsg_hermes.Prelude.Text.{Text, text_eq, strip}
use rsg_hermes.Prelude.Dict.{text_eq_refl, text_eq→eq}
use rsg_hermes.Overrides.{Value, active, retired, is_active, Override}

pub data LogAction : Type 0 where
  override_set override_superseded override_withdrawn : LogAction

pub record Store : Type 0 where
  pub table : List Override
  pub write_log : List (Text × LogAction)

-- The filters of `_find_active`.
abbrev pub matches : Text → Text → Text → Override → Bool
matches etype key field o =
    is_active o.status
    && (text_eq o.entity_type etype && (text_eq o.entity_key key && text_eq o.field_name field))

unfoldable pub find_active : Text → Text → Text → List Override → Option Override
find_active etype key field [] = none
find_active etype key field (o ∷ os) =
    let rest = find_active etype key field os in if matches etype key field o then some o else rest

-- The update of the row with the id.
abbrev pub retire_row : Text → Override → Override
retire_row i o = if text_eq o.id i then record o { status = retired } else o

unfoldable pub retire_id : Text → List Override → List Override
retire_id i [] = []
retire_id i (o ∷ os) = retire_row i o ∷ retire_id i os

-- How an update ends: the row is changed, or the call raises, with the row as before or changed.
pub data Update : Type 0 where
  applied refused lost : Update

-- How an insert ends, with the id of the new row if there is one.
pub data Insert : Type 0 where
  inserted : Text → Insert
  refused : Insert
  lost : Text → Insert

-- What the database answers: whether the select returns, how the update and the insert end, and which
-- rows of the log are written, since an error there is swallowed.
pub record Answers : Type 0 where
  pub selects : Bool
  pub update : Update
  pub insert : Insert
  pub logs : LogAction → Bool

abbrev pub logged : Bool → Text → LogAction → List (Text × LogAction) → List (Text × LogAction)
logged true key action log = log ++ (key, action) ∷ []
logged false key action log = log

-- The update that retires a row, and its row of the log. `false` is an exception.
abbrev pub retire_logged : Update → Bool → LogAction → Override → Store → Bool × Store
retire_logged applied logs action o s = (
  true,
  record {
    table = retire_id o.id s.table;
    write_log = logged logs o.entity_key action s.write_log;
  },
)
retire_logged refused logs action o s = (false, s)
retire_logged lost logs action o s = (false, record s { table = retire_id o.id s.table })

abbrev pub supersede : Answers → Option Override → Store → Bool × Store
supersede db none s = (true, s)
supersede db (some o) s =
    retire_logged db.update (db.logs override_superseded) override_superseded o s

-- The arguments that the checks let through.
pub record Correction : Type 0 where
  pub entity_type : Text
  pub entity_key : Text
  pub field_name : Text
  pub override_value : Value
  pub original_value : Value
  pub approved_by : Text

abbrev pub new_row : Text → Correction → Override
new_row i c = record {
  id = i;
  entity_type = c.entity_type;
  entity_key = strip c.entity_key;
  field_name = c.field_name;
  override_value = c.override_value;
  original_value = c.original_value;
  status = active;
}

abbrev pub blank : Text → Bool
blank [] = true
blank (c ∷ s) = false

abbrev pub is_valid : Correction → Bool
is_valid c = not (blank (strip c.entity_key) || blank c.field_name) && not (blank c.approved_by)

abbrev pub insert_row : Insert → Bool → Correction → Store → Option Override × Store
insert_row (inserted i) logs c s = (
  some (new_row i c),
  record {
    table = s.table ++ new_row i c ∷ [];
    write_log = logged logs (strip c.entity_key) override_set s.write_log;
  },
)
insert_row refused logs c s = (none, s)
insert_row (lost i) logs c s = (none, record s { table = s.table ++ new_row i c ∷ [] })

abbrev pub insert_behind : Answers → Correction → Bool × Store → Option Override × Store
insert_behind db c (true, s) = insert_row db.insert (db.logs override_set) c s
insert_behind db c (false, s) = (none, s)

-- `none` is an exception.
unfoldable pub set_override : Answers → Correction → Store → Option Override × Store
unfolding find_active retire_id
set_override db c s =
    if is_valid c && db.selects
    then insert_behind db c
        (supersede db (find_active c.entity_type (strip c.entity_key) c.field_name s.table) s)
    else (none, s)

unfoldable pub find_id : Text → List Override → Option Override
find_id i [] = none
find_id i (o ∷ os) = let rest = find_id i os in if text_eq o.id i then some o else rest

-- `false` is an exception.
unfoldable pub withdraw : Answers → Text → Store → Bool × Store
unfolding find_id retire_id
withdraw db i s =
    if db.selects
    then elim (find_id i s.table) [
      | none ↦ (false, s)
      | some o ↦ retire_logged db.update (db.logs override_withdrawn) override_withdrawn o s
    ]
    else (false, s)
