-- ===== src/Scheduler/Locks/Effect.antt =====
-- What each call of the lock does to the lease's row.
use rsg_hermes.Prelude.{
  ℕ, String, ◌+◌, ◌≡◌, refl, ◌⊎◌, inl, inr, true, Option, none, some, eq_iff, Bool-cases, arith,
}
use rsg_hermes.Scheduler.Locks.{
  Lease, LockApi, SchedulerLock, Answer, changed, unchanged, raised, expired_or_owned, owned,
  take_over, expire_at, hits, written, accepts, took, take_expired, renew, release, first_claim,
}

pub Answer-cases : (a : Answer) → (a ≡ changed) ⊎ (a ≡ unchanged) ⊎ (a ≡ raised)
Answer-cases changed = inl refl
Answer-cases unchanged = inr (inl refl)
Answer-cases raised = inr (inr refl)

-- The row was free for `o` at `now`, and is now its lease to `until`.
pub record Taken (o : String) (now until : ℕ) (row row' : Option Lease) : Type 0 where
  pub was_free : (l : Lease) → row ≡ some l → accepts (expired_or_owned now o) l ≡ true
  pub lease_is : row' ≡ some (record { owner = o; expires_at = until })

module _ (api : LockApi) where
  open api use {
    Db, lease, update_where, insert, update_changed, update_unchanged, update_raised, insert_done,
    insert_refused,
  }

  Taken-written :
      (o : String) (now until : ℕ) (row row' : Option Lease)
      → row' ≡ written (expired_or_owned now o) (take_over o until) row
      → hits (expired_or_owned now o) row ≡ true
      → Taken o now until row row'
  Taken-written o now until none row' e h = cc
  Taken-written o now until (some l) row' e h = record {
    was_free = λ k same. ground (arith, h);
    lease_is = ground (arith, h, e);
  }

  written_or_kept :
      (o : String) (now until : ℕ) (row row' : Option Lease)
      → row' ≡ written (expired_or_owned now o) (take_over o until) row
      → (row' ≡ row) ⊎ Taken o now until row row'
  written_or_kept o now until none row' e = inl e
  written_or_kept o now until (some l) row' e =
      elim (Bool-cases (accepts (expired_or_owned now o) l)) [
        | inl free ↦ inr (Taken-written o now until (some l) row' e free)
        | inr busy ↦ inl (ground (arith, e, busy))
      ]

  module _ (now : ℕ) (lock : SchedulerLock) (d : Db) where
    abbrev until : ℕ
    until = now + lock.ttl

    -- The first call of an acquire that ends it: the row was free, and is now ours for a whole term.
    pub take_won :
        took (take_expired api now lock d).1 ≡ true
        → Taken lock.owner now until (lease d) (lease (take_expired api now lock d).0)
    unfolding take_expired
    take_won won =
        let (hit, wrote) =
          update_changed (expired_or_owned now lock.owner) (take_over lock.owner until) d
            (took_changed _ won) in
        Taken-written lock.owner now until (lease d) _ wrote hit
      where
        took_changed : (a : Answer) → took a ≡ true → a ≡ changed
        took_changed changed e = refl
        took_changed unchanged e = cc
        took_changed raised e = cc

    -- Whatever it answers, it leaves the row as it was, or takes a free one over.
    pub take_effect :
        (lease (take_expired api now lock d).0 ≡ lease d)
        ⊎ Taken lock.owner now until (lease d) (lease (take_expired api now lock d).0)
    unfolding take_expired
    take_effect =
        elim (update_raised (expired_or_owned now lock.owner) (take_over lock.owner until) d) [
          | inl kept ↦ inl kept
          | inr wrote ↦ written_or_kept lock.owner now until (lease d) _ wrote
        ]

    -- The second call, if it claims the lease: there was no row.
    pub claim_won :
        (first_claim api now lock d).2 ≡ true
        → Taken lock.owner now until (lease d) (lease (first_claim api now lock d).0)
    unfolding first_claim
    claim_won won =
        let (free, taken) =
          insert_done (record { owner = lock.owner; expires_at = now + lock.ttl }) d won in
        record { was_free = λ l e. ground (arith, free); lease_is = taken }

    pub claim_effect :
        (lease (first_claim api now lock d).0 ≡ lease d)
        ⊎ Taken lock.owner now until (lease d) (lease (first_claim api now lock d).0)
    unfolding first_claim
    claim_effect =
        elim (insert_refused (record { owner = lock.owner; expires_at = now + lock.ttl }) d) [
          | inl kept ↦ inl kept
          | inr (free, taken) ↦
              inr (record { was_free = λ l e. ground (arith, free); lease_is = taken })
        ]

    -- A renewal that returns true: the row is ours, and runs a whole term from now.
    pub renew_won :
        (renew api now lock d).1 ≡ true
        → (l : Lease) × (lease d ≡ some l)
          × (l.owner ≡ lock.owner)
          × (lease (renew api now lock d).0
              ≡ some (record { owner = lock.owner; expires_at = until }))
    unfolding renew
    renew_won won = elim (Answer-cases (update_where (owned lock.owner) (expire_at until) d).1) [
      | inl e ↦
          rw (e, renew)
            (renewed (lease d) (update_changed (owned lock.owner) (expire_at until) d e).0
              (update_changed (owned lock.owner) (expire_at until) d e).1)
      | inr (inl e) ↦ cc (rw (e, renew) at won)
      | inr (inr e) ↦ cc (rw (e, renew) at won)
    ]
      where
        renewed :
            {row' : Option Lease} (row : Option Lease)
            → hits (owned lock.owner) row ≡ true
            → row' ≡ written (owned lock.owner) (expire_at until) row
            → (l : Lease) × (row ≡ some l)
              × (l.owner ≡ lock.owner)
              × (row' ≡ some (record { owner = lock.owner; expires_at = until }))
        renewed none h e = cc
        renewed (some l) h e = (
          l,
          refl,
          (eq_iff l.owner lock.owner).0 h,
          ground (arith, h, e, eq_iff l.owner lock.owner),
        )

    renew-db : (renew api now lock d).0 ≡ (update_where (owned lock.owner) (expire_at until) d).0
    unfolding renew
    renew-db = elim (Answer-cases (update_where (owned lock.owner) (expire_at until) d).1) [
      | inl e ↦ rw (e, renew)
      | inr (inl e) ↦ rw (e, renew)
      | inr (inr e) ↦ rw (e, renew)
    ]

    pub renew_effect :
        (lease (renew api now lock d).0 ≡ lease d)
        ⊎ (lease (renew api now lock d).0 ≡ written (owned lock.owner) (expire_at until) (lease d))
    renew_effect = rw renew-db (update_raised (owned lock.owner) (expire_at until) d)

    pub release_effect :
        (lease (release api now lock d).0 ≡ lease d)
        ⊎ (lease (release api now lock d).0 ≡ written (owned lock.owner) (expire_at now) (lease d))
    unfolding release
    release_effect = elim (Bool-cases lock.held) [
      | inl held ↦ rw (held, release) (update_raised (owned lock.owner) (expire_at now) d)
      | inr free ↦ inl (rw (free, release))
    ]
