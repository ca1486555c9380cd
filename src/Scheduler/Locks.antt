-- ===== src/Scheduler/Locks.antt =====
-- `SchedulerLock` of hermes/scheduler/locks.py: a lease in a row of `scheduler_locks`, by PostgREST
-- calls that may raise. Instants are numbers of microseconds. The proofs are in `Exclusion`.
mod Effect
mod Backing
pub mod Exclusion
mod Tests
use rsg_hermes.Prelude.{
  ℕ, String, ◌+◌, ◌*◌, ◌≡◌, ◌⊎◌, Bool, true, false, ◌||◌, Option, none, some, ltb, str_eq,
  if◌then◌else◌,
}

pub record Lease : Type 0 where
  pub owner : String
  pub expires_at : ℕ

-- The filters on the lease's row, behind `lock_name=eq.…`.
pub data LeaseFilter : Type 0 where
  expired_or_owned : ℕ → String → LeaseFilter
  owned : String → LeaseFilter

abbrev pub accepts : LeaseFilter → Lease → Bool
accepts (expired_or_owned now o) l = ltb l.expires_at now || str_eq l.owner o
accepts (owned o) l = str_eq l.owner o

-- The columns of a PATCH or POST; the owner only where it is named.
pub data LeasePatch : Type 0 where
  take_over : String → ℕ → LeasePatch
  expire_at : ℕ → LeasePatch

abbrev pub leased : LeasePatch → Lease → Lease
leased (take_over o t) l = record { owner = o; expires_at = t }
leased (expire_at t) l = record l { expires_at = t }

-- Whether an update has a row to change, and the row after it.
abbrev pub hits : LeaseFilter → Option Lease → Bool
hits f none = false
hits f (some l) = accepts f l

abbrev pub written : LeaseFilter → LeasePatch → Option Lease → Option Lease
written f p none = none
written f p (some l) = some (if accepts f l then leased p l else l)

-- What the answer to a call can be: the rows that it changed, if any, or an exception.
pub data Answer : Type 0 where
  changed : Answer
  unchanged : Answer
  raised : Answer

-- The row of one lock, behind the client. A call that raises may have been applied; an insert is
-- refused where the row is there, since `lock_name` is the primary key.
pub record LockApi : Type 1 where
  pub Db : Type 0
  pub lease : Db → Option Lease
  pub update_where : LeaseFilter → LeasePatch → Db → Db × Answer
  pub insert : Lease → Db → Db × Bool
  pub update_changed :
      (f : LeaseFilter) (p : LeasePatch) (d : Db)
      → (update_where f p d).1 ≡ changed
      → (hits f (lease d) ≡ true) × (lease (update_where f p d).0 ≡ written f p (lease d))
  pub update_unchanged :
      (f : LeaseFilter) (p : LeasePatch) (d : Db)
      → (update_where f p d).1 ≡ unchanged
      → (hits f (lease d) ≡ false) × (lease (update_where f p d).0 ≡ lease d)
  pub update_raised :
      (f : LeaseFilter) (p : LeasePatch) (d : Db)
      → (lease (update_where f p d).0 ≡ lease d)
        ⊎ (lease (update_where f p d).0 ≡ written f p (lease d))
  pub insert_done :
      (l : Lease) (d : Db)
      → (insert l d).1 ≡ true
      → (lease d ≡ none) × (lease (insert l d).0 ≡ some l)
  pub insert_refused :
      (l : Lease) (d : Db)
      → (lease (insert l d).0 ≡ lease d) ⊎ (lease d ≡ none) × (lease (insert l d).0 ≡ some l)

-- The fields of a `SchedulerLock`.
pub record SchedulerLock : Type 0 where
  pub owner : String
  pub ttl : ℕ
  pub held : Bool

-- Whether `acquire` returns behind its first call: it has changed a row. It goes on if the call raises.
abbrev pub took : Answer → Bool
took changed = true
took unchanged = false
took raised = false

module _ (api : LockApi) where
  open api use {Db, update_where, insert}

  -- Step 1 of `acquire`: take over an expired lease, or our own. `now` is read before it.
  pub take_expired : ℕ → SchedulerLock → Db → Db × Answer
  take_expired now lock d =
      update_where (expired_or_owned now lock.owner) (take_over lock.owner (now + lock.ttl)) d

  -- Step 2 of `acquire`: the first claim, with the `now` of step 1.
  pub first_claim : ℕ → SchedulerLock → Db → Db × SchedulerLock × Bool
  first_claim now lock d =
      let (d', done) = insert (record { owner = lock.owner; expires_at = now + lock.ttl }) d in
      (d', record lock { held = done }, done)

  pub acquire : ℕ → SchedulerLock → Db → Db × SchedulerLock × Bool
  unfolding take_expired first_claim
  acquire now lock d =
      let (d', answer) = take_expired now lock d in
      if took answer then (d', record lock { held = true }, true) else first_claim now lock d'

  pub renew : ℕ → SchedulerLock → Db → Db × Bool
  renew now lock d =
      let (d', answer) = update_where (owned lock.owner) (expire_at (now + lock.ttl)) d in
      elim answer [ changed ↦ (d', true) | unchanged ↦ (d', false) | raised ↦ (d', false) ]

  -- `finally` clears `_held` whether or not the call raised.
  pub release : ℕ → SchedulerLock → Db → Db × SchedulerLock
  release now lock d =
      if lock.held
      then ((update_where (owned lock.owner) (expire_at now) d).0, record lock { held = false })
      else (d, lock)
