-- ===== src/Overrides/Run.antt =====
-- `reconcile_overrides` of store.py over the active overrides of one entity type. The updates of the
-- table, each with its row of the write log, are the list returned.
use rsg_hermes.Prelude.{
  ℕ, ◌+◌, ◌≡◌, refl, Bool, true, false, ◌&&◌, Option, none, some, List, [], ◌∷◌, ◌++◌, length,
  length-append, arith, if◌then◌else◌,
}
use rsg_hermes.Prelude.Text.{Text, text_eq}
use rsg_hermes.Overrides.{
  Value, Status, retired, conflicted, Override, Action, keep, retire, conflict, reconcile,
}

-- `source_values.get((key, field))`, with the absent key apart.
unfoldable pub source_of : Text → Text → List (Text × Text × Value) → Option Value
source_of key field [] = none
source_of key field ((k, f, v) ∷ rest) =
    if text_eq k key && text_eq f field then some v else source_of key field rest

pub record Summary : Type 0 where
  pub checked : ℕ
  pub retired_count : ℕ
  pub conflicted_count : ℕ
  pub kept : ℕ
  pub details : List (Text × Action)
  pub updates : List (Text × Status)

abbrev put : Bool → Text → Status → List (Text × Status) → List (Text × Status)
put dry_run i s us = if dry_run then us else us ++ (i, s) ∷ []

-- The branches on the outcome.
abbrev pub record_action : Bool → Override → Action → Summary → Summary
record_action dry_run o retire s = record s {
  retired_count = s.retired_count + 1;
  details = s.details ++ (o.id, retire) ∷ [];
  updates = put dry_run o.id retired s.updates;
}
record_action dry_run o conflict s = record s {
  conflicted_count = s.conflicted_count + 1;
  details = s.details ++ (o.id, conflict) ∷ [];
  updates = put dry_run o.id conflicted s.updates;
}
record_action dry_run o keep s = record s { kept = s.kept + 1 }

abbrev pub check_source : Bool → Override → Option Value → Summary → Summary
check_source dry_run o none s = record s { kept = s.kept + 1 }
check_source dry_run o (some v) s =
    record_action dry_run o (reconcile v o) (record s { checked = s.checked + 1 })

unfoldable pub check_overrides :
    Bool → List (Text × Text × Value) → List Override → Summary → Summary
check_overrides dry_run sources [] s = s
check_overrides dry_run sources (o ∷ os) s =
    check_overrides dry_run sources os
      (check_source dry_run o (source_of o.entity_key o.field_name sources) s)

abbrev pub empty_summary : Summary
empty_summary = record {
  checked = 0;
  retired_count = 0;
  conflicted_count = 0;
  kept = 0;
  details = [];
  updates = [];
}

unfoldable pub reconcile_overrides : Bool → List (Text × Text × Value) → List Override → Summary
unfolding check_overrides
reconcile_overrides dry_run sources os = check_overrides dry_run sources os empty_summary

-- Every override is counted once, and what is reported is what is written.
pub record IsTallied (dry_run : Bool) (n : ℕ) (s : Summary) : Type 0 where
  pub total : s.retired_count + s.conflicted_count + s.kept ≡ n
  pub reports : length s.details ≡ s.retired_count + s.conflicted_count
  pub writes : length s.updates ≡ (if dry_run then 0 else s.retired_count + s.conflicted_count)

action-IsTallied :
    (dry_run : Bool) (n c : ℕ) (o : Override) (a : Action) (s : Summary)
    → IsTallied dry_run n s
    → IsTallied dry_run (n + 1) (record_action dry_run o a (record s { checked = c }))
action-IsTallied dry_run n c o keep s t = record {
  total = omega (arith, t.total);
  reports = t.reports;
  writes = t.writes;
}
action-IsTallied dry_run n c o retire s t = record {
  total = omega (arith, t.total);
  reports = omega (arith, t.reports, length-append s.details ((o.id, retire) ∷ []));
  writes = ground (arith, t.writes, length-append s.updates ((o.id, retired) ∷ []));
}
action-IsTallied dry_run n c o conflict s t = record {
  total = omega (arith, t.total);
  reports = omega (arith, t.reports, length-append s.details ((o.id, conflict) ∷ []));
  writes = ground (arith, t.writes, length-append s.updates ((o.id, conflicted) ∷ []));
}

source-IsTallied :
    (dry_run : Bool) (n : ℕ) (o : Override) (v : Option Value) (s : Summary)
    → IsTallied dry_run n s
    → IsTallied dry_run (n + 1) (check_source dry_run o v s)
source-IsTallied dry_run n o none s t = record {
  total = omega (arith, t.total);
  reports = t.reports;
  writes = t.writes;
}
source-IsTallied dry_run n o (some v) s t =
    action-IsTallied dry_run n (s.checked + 1) o (reconcile v o) s t

overrides-IsTallied :
    (dry_run : Bool) (sources : List (Text × Text × Value)) (n m : ℕ) (os : List Override)
    (s : Summary)
    → m ≡ n + length os
    → IsTallied dry_run n s
    → IsTallied dry_run m (check_overrides dry_run sources os s)
unfolding check_overrides
overrides-IsTallied dry_run sources n m [] s e t = let same : m ≡ n = omega (arith, e) in rw same t
overrides-IsTallied dry_run sources n m (o ∷ os) s e t =
    overrides-IsTallied dry_run sources (n + 1) m os _ (omega (arith, e))
      (source-IsTallied dry_run n o (source_of o.entity_key o.field_name sources) s t)

none-IsTallied : (dry_run : Bool) → IsTallied dry_run 0 empty_summary
none-IsTallied true = record { total = omega arith; reports = omega arith; writes = refl }
none-IsTallied false = record { total = omega arith; reports = omega arith; writes = omega arith }

-- A sync counts each active override once, as retired, conflicted or kept; it reports those retired and
-- those conflicted, and writes one update for each of them, or none if the run is dry.
pub reconcile_overrides-IsTallied :
    (dry_run : Bool) (sources : List (Text × Text × Value)) (os : List Override)
    → IsTallied dry_run (length os) (reconcile_overrides dry_run sources os)
unfolding reconcile_overrides
reconcile_overrides-IsTallied dry_run sources os =
    overrides-IsTallied dry_run sources 0 (length os) os empty_summary (omega arith)
      (none-IsTallied dry_run)
