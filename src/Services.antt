-- ===== src/Services.antt =====
-- The part of `SERVICES` in hermes/services.py that the queue workers read: which service drains which
-- object types.

pub mod Partition
use rsg_hermes.Prelude.{
  String, ◌≡◌, refl, Bool, true, false, not, Option, none, some, List, [], ◌∷◌, ◌++◌, any, str_eq,
  if◌then◌else◌,
}
use rsg_hermes.Queue.{
  ObjectType, renewal, intake, quote, case, task, opportunity_writeback, intake_ams, intake_crm,
  type_eq, backed_off_object_types,
}

-- `SERVICES[service].queue_object_types`, by default `()`; `none` is a name that is not registered.
unfoldable pub queue_object_types : String → Option (List ObjectType)
queue_object_types service =
    if str_eq service "finance"
    then some []
    else if str_eq service "intake"
    then some (intake ∷ intake_ams ∷ intake_crm ∷ [])
    else if str_eq service "renewals"
    then some (renewal ∷ [])
    else if str_eq service "carriers"
    then some []
    else if str_eq service "hub"
    then some (quote ∷ opportunity_writeback ∷ [])
    else none

abbrev pub departed_object_types : List ObjectType
departed_object_types = case ∷ task ∷ []

-- `tuple(t for t in ts if t not in departed)`
abbrev without : List ObjectType → List ObjectType → List ObjectType
without gone [] = []
without gone (t ∷ ts) =
    let rest = without gone ts in if any (type_eq t) gone then rest else t ∷ rest

unfoldable pub hub_object_types : List ObjectType
hub_object_types = without departed_object_types backed_off_object_types

-- Whether the worker of service `s` has `t` in the scope of its passes.
abbrev pub drained_by : ObjectType → String → Bool
drained_by t s = any (type_eq t) (elim (queue_object_types s) [ none ↦ [] | some ts ↦ ts ])
