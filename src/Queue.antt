-- ===== src/Queue.antt =====
-- packages/rsg-hermes-core/hermes_core/queue.py: the contract of `outbound_sync_queue`, the statuses
-- and object types of its rows, and what PostgREST does for the calls that the drainers make.
-- Instants are numbers of microseconds.
use rsg_hermes.Prelude.{
  ℕ, String, ◌≤◌, ◌≡◌, ◌⊎◌, Bool, true, false, ◌&&◌, Option, none, some, List, [], ◌∷◌, All, any,
  length, leb, ltb, ◌==◌, str_eq, map_option, or_else, if◌then◌else◌,
}

pub data Status : Type 0 where
  queued processing completed failed dead : Status

pub data Destination : Type 0 where
  nowcerts crm : Destination

pub data ObjectType : Type 0 where
  renewal intake quote case task opportunity_writeback intake_ams intake_crm : ObjectType

-- The wire values are compared by their place in the tuple.
abbrev status_tag : Status → ℕ
status_tag queued = 0
status_tag processing = 1
status_tag completed = 2
status_tag failed = 3
status_tag dead = 4

abbrev destination_tag : Destination → ℕ
destination_tag nowcerts = 0
destination_tag crm = 1

abbrev type_tag : ObjectType → ℕ
type_tag renewal = 0
type_tag intake = 1
type_tag quote = 2
type_tag case = 3
type_tag task = 4
type_tag opportunity_writeback = 5
type_tag intake_ams = 6
type_tag intake_crm = 7

abbrev pub status_eq : Status → Status → Bool
status_eq a b = status_tag a == status_tag b

abbrev pub destination_eq : Destination → Destination → Bool
destination_eq a b = destination_tag a == destination_tag b

abbrev pub type_eq : ObjectType → ObjectType → Bool
type_eq a b = type_tag a == type_tag b

abbrev pub backed_off_object_types : List ObjectType
backed_off_object_types =
    renewal ∷ intake ∷ quote ∷ case ∷ task ∷ opportunity_writeback ∷ intake_ams ∷ intake_crm ∷ []

abbrev pub backed_off_destinations : List Destination
backed_off_destinations = nowcerts ∷ crm ∷ []

-- The columns of a row that the retry pass reads or writes.
pub record Job : Type 0 where
  pub id : String
  pub object_type : ObjectType
  pub destination : Destination
  pub status : Status
  pub attempt_count : Option ℕ
  pub scheduled_for : Option ℕ
  pub updated_at : Option ℕ

-- `int(row.get("attempt_count") or 0)`
abbrev pub attempts : Job → ℕ
attempts j = or_else j.attempt_count 0

-- `due_filter`: the rows that an executor may claim at `now`.
unfoldable pub is_due : ℕ → Job → Bool
is_due now j = elim j.scheduled_for [ none ↦ true | some t ↦ leb t now ]

-- The filters of a select; `updated_before` is `updated_at=lt.…`.
pub record Query : Type 0 where
  pub object_types : List ObjectType
  pub destinations : List Destination
  pub status : Status
  pub updated_before : Option ℕ
  pub limit : ℕ

abbrev before : Option ℕ → Option ℕ → Bool
before none at = true
before (some t) none = false
before (some t) (some at) = ltb at t

unfoldable pub selects : Query → Job → Bool
selects q j =
    any (type_eq j.object_type) q.object_types
    && (any (destination_eq j.destination) q.destinations
        && (status_eq j.status q.status && before q.updated_before j.updated_at))

-- The body of a PATCH: `none` is a column that it does not name.
pub record Patch : Type 0 where
  pub status : Status
  pub attempt_count : Option ℕ
  pub scheduled_for : Option ℕ
  pub updated_at : ℕ

abbrev named : Option ℕ → Option ℕ → Option ℕ
named none old = old
named (some v) old = some v

unfoldable pub patched : Patch → Job → Job
patched p j = record j {
  status = p.status;
  attempt_count = named p.attempt_count j.attempt_count;
  scheduled_for = named p.scheduled_for j.scheduled_for;
  updated_at = some p.updated_at;
}

-- Distinct primary keys.
abbrev pub Distinct : List Job → Type 0
Distinct [] = Unit
Distinct (j ∷ js) = All (λ k. str_eq k.id j.id ≡ false) js × Distinct js

-- The database behind the PostgREST client, with the documented effect of each call on the rows
-- by primary key. A select raises or returns; an update that raises may have been
-- applied all the same.
pub record QueueApi : Type 1 where
  pub Db : Type 0
  pub find : Db → String → Option Job
  pub select : Query → Db → Option (List Job)
  pub update : String → Patch → Db → Db × Bool
  pub select_found :
      (q : Query) (d : Db) (js : List Job)
      → select q d ≡ some js
      → All (λ j. (find d j.id ≡ some j) × (selects q j ≡ true)) js
  pub select_distinct : (q : Query) (d : Db) (js : List Job) → select q d ≡ some js → Distinct js
  pub select_limit :
      (q : Query) (d : Db) (js : List Job) → select q d ≡ some js → length js ≤ q.limit
  pub update_returns :
      (i : String) (p : Patch) (d : Db) (k : String)
      → (update i p d).1 ≡ true
      → find (update i p d).0 k
        ≡ (if str_eq i k then map_option (patched p) (find d k) else find d k)
  pub update_effect :
      (i : String) (p : Patch) (d : Db) (k : String)
      → (find (update i p d).0 k ≡ find d k)
        ⊎ (find (update i p d).0 k
            ≡ (if str_eq i k then map_option (patched p) (find d k) else find d k))
