-- ===== src/Scheduler/Retry.antt =====
-- `requeue_or_deadletter` and `reclaim_stalled` of hermes/scheduler/retry.py, over any database that
-- keeps the contract of `QueueApi`. The proofs are in the modules below.
mod Sweep
pub mod Outcome
pub mod Lifecycle
mod Tests
use rsg_hermes.Prelude.{
  ℕ, String, ◌+◌, ◌-◌, ◌*◌, Bool, true, false, ◌≡◌, Option, none, some, List, [], ◌∷◌, ◌++◌, length,
  leb, or_else, if◌then◌else◌,
}
use rsg_hermes.Queue.{
  ObjectType, Status, queued, processing, failed, dead, Job, Query, Patch, QueueApi, attempts,
  backed_off_destinations,
}
use rsg_hermes.Scheduler.Backoff.{max_attempts, compute_backoff_seconds}

-- timedelta(seconds=n)
abbrev pub seconds : ℕ → ℕ
seconds n = n * 1000000

abbrev pub stalled_processing_seconds : ℕ
stalled_processing_seconds = 900

pub record RetryMetrics : Type 0 where
  pub requeued : ℕ
  pub dead_count : ℕ
  pub dead_ids : List String

-- The counters of the loop.
pub record Tally : Type 0 where
  pub requeued : ℕ
  pub dead_ids : List String

abbrev pub failed_query : List ObjectType → Query
failed_query types = record {
  object_types = types;
  destinations = backed_off_destinations;
  status = failed;
  updated_before = none;
  limit = 200;
}

abbrev pub dead_patch : ℕ → Patch
dead_patch now = record {
  status = dead;
  attempt_count = none;
  scheduled_for = none;
  updated_at = now;
}

unfoldable pub requeue_patch : ℕ → ℕ → Patch
requeue_patch now next_attempt = record {
  status = queued;
  attempt_count = some next_attempt;
  scheduled_for = some (now + seconds (compute_backoff_seconds next_attempt));
  updated_at = now;
}

abbrev pub stalled_query : List ObjectType → ℕ → Query
stalled_query types cutoff = record {
  object_types = types;
  destinations = backed_off_destinations;
  status = processing;
  updated_before = some cutoff;
  limit = 200;
}

abbrev pub reclaim_patch : ℕ → Patch
reclaim_patch now = record {
  status = queued;
  attempt_count = none;
  scheduled_for = none;
  updated_at = now;
}

abbrev pub is_exhausted : Job → Bool
is_exhausted row = leb max_attempts (attempts row + 1)

-- What the pass writes for a failed row.
abbrev pub retry_patch : ℕ → Job → Patch
retry_patch now row =
    if is_exhausted row then dead_patch now else requeue_patch now (attempts row + 1)

abbrev pub counted : Job → Tally → Tally
counted row t =
    if is_exhausted row
    then record t { dead_ids = t.dead_ids ++ row.id ∷ [] }
    else record t { requeued = t.requeued + 1 }

module _ (api : QueueApi) where
  open api use {Db, select, update}

  -- The body of the loop: a row whose update raises is logged and not counted.
  pub retry_row : ℕ → Job → Db × Tally → Db × Tally
  retry_row now row (d, t) =
      let (d', done) = update row.id (retry_patch now row) d in
      (d', if done then counted row t else t)

  pub retry_rows : ℕ → List Job → Db × Tally → Db × Tally
  retry_rows now [] s = s
  retry_rows now (row ∷ rows) s = retry_rows now rows (retry_row now row s)

  abbrev metrics : Db × Tally → Db × RetryMetrics
  metrics (d, t) =
      (d, record { requeued = t.requeued; dead_count = length t.dead_ids; dead_ids = t.dead_ids })

  pub requeue_or_deadletter : ℕ → List ObjectType → Db → Db × RetryMetrics
  requeue_or_deadletter now types d = elim (select (failed_query types) d) [
    | none ↦ (d, record { requeued = 0; dead_count = 0; dead_ids = [] })
    | some rows ↦ metrics (retry_rows now rows (d, record { requeued = 0; dead_ids = [] }))
  ]

  pub reclaim_row : ℕ → Job → Db × List String → Db × List String
  reclaim_row now row (d, ids) =
      let (d', done) = update row.id (reclaim_patch now) d in
      (d', if done then ids ++ row.id ∷ [] else ids)

  pub reclaim_rows : ℕ → List Job → Db × List String → Db × List String
  reclaim_rows now [] s = s
  reclaim_rows now (row ∷ rows) s = reclaim_rows now rows (reclaim_row now row s)

  -- `now - timedelta(…)`: the clock is past the threshold. The count is `len(reclaimed_ids)`.
  pub reclaim_stalled : ℕ → ℕ → List ObjectType → Db → Db × List String
  reclaim_stalled now threshold types d =
      elim (select (stalled_query types (now - seconds threshold)) d) [
        | none ↦ (d, [])
        | some rows ↦ reclaim_rows now rows (d, [])
      ]
