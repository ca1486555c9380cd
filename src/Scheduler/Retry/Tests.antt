-- ===== src/Scheduler/Retry/Tests.antt =====
-- The theorems on retries at a queue of one row, behind a client that never raises.
use rsg_hermes.Prelude.{
  ℕ, zero, suc, String, ◌+◌, ◌≤◌, ◌<◌, ◌≡◌, ◌≢◌, ◌⊎◌, refl, inl, inr, Bool, true, Option, none,
  some, List, [], ◌∷◌, length, All, arith, str_eq, eq_iff, eq_refl, Bool-cases, map_option,
  if◌then◌else◌,
}
use rsg_hermes.Queue.{
  renewal, Job, nowcerts, queued, processing, failed, dead, Query, Patch, Distinct, QueueApi,
  selects, patched, attempts,
}
use rsg_hermes.Scheduler.Backoff.{max_attempts, compute_backoff_seconds}
use rsg_hermes.Scheduler.Retry.{
  failed_query, retry_patch, reclaim_patch, requeue_patch, retry_row, retry_rows,
  requeue_or_deadletter,
}
use rsg_hermes.Scheduler.Retry.Outcome.{OnlyBy, retried, requeue_effect}
use rsg_hermes.Scheduler.Retry.Lifecycle.{
  Run, here, next, claimed, broke, passed, stalled, claim, set_queue_status, retries_bounded,
}

abbrev found : Option Job → String → Option Job
found none i = none
found (some j) i = if str_eq j.id i then some j else none

abbrev at_most : ℕ → Bool → Job → List Job
at_most zero b j = []
at_most (suc n) b j = if b then j ∷ [] else []

abbrev chosen : Query → Option Job → List Job
chosen q none = []
chosen q (some j) = at_most q.limit (selects q j) j

abbrev changed : String → Patch → Option Job → Option Job
changed i p none = none
changed i p (some j) = some (if str_eq j.id i then patched p j else j)

chosen-found :
    (q : Query) (d : Option Job)
    → All (λ j. (found d j.id ≡ some j) × (selects q j ≡ true)) (chosen q d)
chosen-found q none = tt
chosen-found q (some j) = kept q.limit
  where
    kept :
        (n : ℕ)
        → All
            (λ k. (found (some j) k.id ≡ some k) × (selects q k ≡ true))
            (at_most n (selects q j) j)
    kept zero = tt
    kept (suc n) = elim (Bool-cases (selects q j)) [
      | inl e ↦ rw (e, eq_refl j.id) ((refl, e), tt)
      | inr e ↦ rw e tt
    ]

chosen_limit :
    (q : Query) (d : Option Job) → (length (chosen q d) ≤ q.limit) × Distinct (chosen q d)
chosen_limit q none = (omega arith, tt)
chosen_limit q (some j) = kept q.limit
  where
    kept : (n : ℕ) → (length (at_most n (selects q j) j) ≤ n) × Distinct (at_most n (selects q j) j)
    kept zero = (omega arith, tt)
    kept (suc n) = elim (Bool-cases (selects q j)) [
      | inl e ↦ rw e (omega arith, (tt, tt))
      | inr e ↦ rw e (omega arith, tt)
    ]

changed_found :
    (i : String) (p : Patch) (d : Option Job) (k : String)
    → found (changed i p d) k
      ≡ (if str_eq i k then map_option (patched p) (found d k) else found d k)
unfolding patched
changed_found i p none k = ground arith
changed_found i p (some j) k = ground (arith, eq_iff i k, eq_iff j.id i, eq_iff j.id k)

same_rows : (xs ys : List Job) → some xs ≡ some ys → xs ≡ ys
same_rows xs ys e = cc e

abbrev table : QueueApi
table = record {
  Db = Option Job;
  find = found;
  select = λ q d. some (chosen q d);
  update = λ i p d. (changed i p d, true);
  select_found = λ q d js e. rw (← same_rows _ _ e) (chosen-found q d);
  select_distinct = λ q d js e. rw (← same_rows _ _ e) ((chosen_limit q d).1);
  select_limit = λ q d js e. rw (← same_rows _ _ e) ((chosen_limit q d).0);
  update_returns = λ i p d k e. changed_found i p d k;
  update_effect = λ i p d k. inr (changed_found i p d k);
}

abbrev failing : Job
failing = record {
  id = "J1";
  object_type = renewal;
  destination = nowcerts;
  status = failed;
  attempt_count = some 1;
  scheduled_for = none;
  updated_at = some 0;
}

abbrev stuck : Job
stuck = record failing { status = processing }

abbrev now : ℕ
now = 2000000000

requeue_effect_example :
    OnlyBy table
      (failed_query (renewal ∷ []))
      (retried now)
      (some failing)
      (requeue_or_deadletter table now (renewal ∷ []) (some failing)).0
      "J1"
requeue_effect_example = requeue_effect table now (renewal ∷ []) (some failing) "J1"

waits_two_minutes :
    (requeue_or_deadletter table now (renewal ∷ []) (some failing)).0
    ≡ some (record failing {
      status = queued;
      attempt_count = some 2;
      scheduled_for = some 2120000000;
      updated_at = some now;
    })
unfolding requeue_or_deadletter selects patched requeue_patch compute_backoff_seconds retry_rows
    retry_row
waits_two_minutes = refl

-- The second try of a row: the executor of the first, which has been taken for dead, ends late and
-- fails the row while it waits.
abbrev waiting_again : Job
waiting_again = record failing { status = queued; attempt_count = some 3 }

abbrev late : Job
late = set_queue_status now failed (patched (reclaim_patch now) (claim now waiting_again))

abbrev requeued : Job
requeued = patched (retry_patch now late) late

late_end : Run waiting_again 1 requeued
unfolding patched
late_end =
    next (next (next (next here (claimed now refl)) (stalled now)) (broke now))
      (passed now late refl refl)

retries_bounded_example :
    (attempts waiting_again + 1 < max_attempts)
    × (attempts requeued ≡ attempts waiting_again + 1)
    × ((requeued.status ≢ dead) ⊎ (attempts waiting_again + 1 + 1 ≡ max_attempts))
retries_bounded_example = retries_bounded waiting_again 1 requeued refl (omega arith) late_end
