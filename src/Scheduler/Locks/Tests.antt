-- ===== src/Scheduler/Locks/Tests.antt =====
-- Mutual exclusion at a table that never raises: one replica takes the lease, another is refused.
use rsg_hermes.Prelude.{
  String, ◌≡◌, refl, ◌⊎◌, inl, inr, Bool, true, false, Option, none, some, arith, if◌then◌else◌,
}
use rsg_hermes.Scheduler.Locks.{
  Lease, LeaseFilter, LeasePatch, LockApi, Answer, changed, unchanged, hits, written, take_expired,
  first_claim,
}
use rsg_hermes.Scheduler.Locks.Exclusion.{
  World, tick, takes, claims, Reach, here, next, mutual_exclusion,
}

abbrev updated : LeaseFilter → LeasePatch → Option Lease → Option Lease × Answer
updated f p row = (written f p row, if hits f row then changed else unchanged)

abbrev inserted : Lease → Option Lease → Option Lease × Bool
inserted l none = (some l, true)
inserted l (some k) = (some k, false)

updated_changed :
    (f : LeaseFilter) (p : LeasePatch) (d : Option Lease)
    → (updated f p d).1 ≡ changed
    → hits f d ≡ true
updated_changed f p d e = ground (arith, e)

updated_unchanged :
    (f : LeaseFilter) (p : LeasePatch) (d : Option Lease)
    → (updated f p d).1 ≡ unchanged
    → (hits f d ≡ false) × (written f p d ≡ d)
updated_unchanged f p none e = (refl, refl)
updated_unchanged f p (some l) e = ground (arith, e)

inserted_done :
    (l : Lease) (d : Option Lease)
    → (inserted l d).1 ≡ true
    → (d ≡ none) × ((inserted l d).0 ≡ some l)
inserted_done l none e = (refl, refl)
inserted_done l (some k) e = cc e

inserted_refused :
    (l : Lease) (d : Option Lease)
    → ((inserted l d).0 ≡ d) ⊎ (d ≡ none) × ((inserted l d).0 ≡ some l)
inserted_refused l none = inr (refl, refl)
inserted_refused l (some k) = inl refl

abbrev table : LockApi
table = record {
  Db = Option Lease;
  lease = λ d. d;
  update_where = updated;
  insert = inserted;
  update_changed = λ f p d e. (updated_changed f p d e, refl);
  update_unchanged = λ f p d e. updated_unchanged f p d e;
  update_raised = λ f p d. inr refl;
  insert_done = λ l d e. inserted_done l d e;
  insert_refused = λ l d. inserted_refused l d;
}

abbrev boot : World table 100
boot = record { clock = 5; db = none; terms = λ o. none; pending = λ o. none }

-- Both replicas find no row and go on to the claim: "b" claims it, and "a", which has read the clock
-- before, is refused.
abbrev contested : (v : World table 100) × Reach table 100 boot v
unfolding take_expired
contested = (
  _,
  next
      (next
        (next (next (next here (takes "a" false 5 (omega arith))) (tick 2))
          (takes "b" false 7 (omega arith)))
        (claims "b" false 7 refl))
      (claims "a" false 5 refl),
)

b_has_it : contested.0.terms "b" ≡ some 107
unfolding take_expired first_claim
b_has_it = refl

a_does_not : contested.0.terms "a" ≡ none
unfolding take_expired first_claim
a_does_not = refl

mutual_exclusion_example : ◌≡◌ {A = String} "b" "b"
unfolding take_expired first_claim
mutual_exclusion_example =
    mutual_exclusion table 100 boot contested.0 (λ o. refl) (λ o. refl) (λ l e. absurd (cc e))
      contested.1 "b" "b" 107 107 b_has_it b_has_it (omega arith) (omega arith)
