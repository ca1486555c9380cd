-- ===== src/Overrides/Tests.antt =====
-- A premium that was corrected from 500 to 535.65.
use rsg_hermes.Prelude.{
  Bool, true, false, arith, ◌≡◌, refl, not, ◌&&◌, List, [], ◌∷◌, some, none, if◌then◌else◌,
}
use rsg_hermes.Prelude.Int.{pos, ◌-ℤ◌}
use rsg_hermes.Prelude.Text.{Text, codes, strip}
use rsg_hermes.Python.Decimal.{units, decimal}
use rsg_hermes.Overrides.{
  Value, num, text, active, Override, as_decimal, same_value, resolve, reconcile,
}
use rsg_hermes.Prelude.Dict.{Dict, get}
use rsg_hermes.Overrides.Apply.{
  Index, key_of, find, apply_record, apply_record_lem, apply_overrides,
}
use rsg_hermes.Overrides.Store.{
  Store, Answers, applied, refused, inserted, LogAction, override_superseded, Correction,
  find_active, set_override, withdraw, new_row, retire_id, find_id,
}
use rsg_hermes.Overrides.Store.Single.{IsSingle, set_override-IsSingle}
use rsg_hermes.Overrides.Run.{source_of, reconcile_overrides}
use rsg_hermes.Overrides.Synced.{updated, within_cent, status_for, sync_settles}

abbrev premium : Override
premium = record {
  id = codes "O1";
  entity_type = codes "policy";
  entity_key = codes "P7";
  field_name = codes "premium";
  override_value = num (pos 535650000);
  original_value = num (units 500);
  status = active;
}

round_trip : same_value (text (codes " $535.65")) (num (pos 535650000)) ≡ true
unfolding same_value as_decimal strip decimal ◌-ℤ◌
round_trip = refl

-- A cent each way agrees, and two cents do not.
no_chain :
    (same_value (num (pos 10000)) (num (pos 20000)) ≡ true)
    × (same_value (num (pos 20000)) (num (pos 30000)) ≡ true)
    × (same_value (num (pos 10000)) (num (pos 30000)) ≡ false)
unfolding same_value as_decimal ◌-ℤ◌
no_chain = (refl, refl, refl)

abbrev sources : List (Text × Text × Value)
sources = (codes "P7", codes "premium", num (units 600)) ∷ []

found_source : source_of (codes "P7") (codes "premium") sources ≡ some (num (units 600))
unfolding source_of
found_source = refl

sync_settles_example :
    ((updated (reconcile_overrides false sources (premium ∷ [])).updates premium).status
      ≡ status_for (units 600) (pos 535650000) (units 500))
    × (resolve
          (num (units 600))
          (some (updated (reconcile_overrides false sources (premium ∷ [])).updates premium))
        ≡ (if not (within_cent (units 600) (pos 535650000)) && within_cent (units 600) (units 500)
            then num (pos 535650000)
            else num (units 600)))
sync_settles_example =
    sync_settles sources [] [] premium (units 600) (pos 535650000) (units 500) tt tt refl
      found_source refl refl

one_conflict : (reconcile_overrides false sources (premium ∷ [])).conflicted_count ≡ 1
unfolding reconcile_overrides source_of reconcile same_value as_decimal ◌-ℤ◌
one_conflict = refl

abbrev book : Index
book = (key_of (codes "policy") (codes "P7") (codes "premium"), premium) ∷ []

abbrev policy : Dict Value
policy = (codes "premium", num (units 500)) ∷ (codes "carrier", text (codes "Acme")) ∷ []

apply_record_lem_example :
    get (codes "premium") (apply_record (codes "policy") (codes "P7") book policy).0
    ≡ some (num (pos 535650000))
unfolding find strip get
apply_record_lem_example =
    apply_record_lem (codes "policy") (codes "P7") book policy (codes "premium") refl

apply_all :
    apply_overrides (codes "policy") book ((some (codes " P7 "), policy) ∷ (none, policy) ∷ [])
    ≡ (
      (codes "premium", num (pos 535650000)) ∷ (codes "carrier", text (codes "Acme")) ∷ [],
      (codes "premium", num (units 500)) ∷ [],
    )
      ∷ (policy, [])
      ∷ []
unfolding apply_overrides apply_record find strip get
apply_all = refl

abbrev raise_premium : Correction
raise_premium = record {
  entity_type = codes "policy";
  entity_key = codes " P7";
  field_name = codes "premium";
  override_value = num (units 540);
  original_value = num (units 500);
  approved_by = codes "lamar";
}

-- Each call returns, and the row of the log on the override that gives way is lost.
abbrev log_lost : LogAction → Bool
log_lost override_superseded = false
log_lost _ = true

abbrev database : Answers
database = record {
  selects = true;
  update = applied;
  insert = inserted (codes "O2");
  logs = log_lost;
}

abbrev corrected : Store
corrected = record { table = premium ∷ []; write_log = [] }

set_override-IsSingle_example : IsSingle (set_override database raise_premium corrected).1.table
set_override-IsSingle_example =
    set_override-IsSingle database raise_premium corrected (λ e k f. ground arith)

superseded :
    find_active
      (codes "policy")
      (codes "P7")
      (codes "premium")
      (set_override database raise_premium corrected).1.table
    ≡ some (new_row (codes "O2") raise_premium)
unfolding set_override find_active retire_id strip
superseded = refl

withdrawn :
    find_active
      (codes "policy")
      (codes "P7")
      (codes "premium")
      (withdraw database (codes "O1") corrected).1.table
    ≡ none
unfolding withdraw find_active find_id retire_id
withdrawn = refl

-- An update that raises before its effect ends the correction, and the old one stays.
update_refused :
    set_override (record database { update = refused }) raise_premium corrected ≡ (none, corrected)
unfolding set_override find_active strip
update_refused = refl
