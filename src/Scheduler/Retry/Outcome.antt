-- ===== src/Scheduler/Retry/Outcome.antt =====
-- What a pass does to each row of the queue, and what it reports.
use rsg_hermes.Prelude.{
  ℕ, suc, ◌+◌, String, ◌≡◌, refl, ◌∙◌, ap, ◌⊎◌, inl, inr, true, some, List, [], ◌∷◌, All, All-map,
  length, length-append, leb, Option-cases, arith, if◌then◌else◌,
}
use rsg_hermes.Queue.{
  ObjectType, Job, Query, Patch, QueueApi, queued, dead, selects, patched, attempts,
}
use rsg_hermes.Scheduler.Backoff.{compute_backoff_seconds}
use rsg_hermes.Scheduler.Retry.{
  Tally, seconds, failed_query, retry_patch, requeue_patch, retry_row, retry_rows,
  requeue_or_deadletter,
}
use rsg_hermes.Scheduler.Retry.Sweep.{sweep, sweep-Effect, sweep-All}

-- A failed row after a retry: dead at the fifth attempt, and otherwise queued with its backoff.
abbrev pub retried : ℕ → Job → Job
retried now row =
    let next = attempts row + 1 in
    if leb 5 next then record row { status = dead; updated_at = some now } else record row {
      status = queued;
      attempt_count = some next;
      scheduled_for = some (now + seconds (compute_backoff_seconds next));
      updated_at = some now;
    }

-- A stalled row after its reclaim.
abbrev pub reclaimed : ℕ → Job → Job
reclaimed now row = record row { status = queued; updated_at = some now }

pub patched-retry_patch :
    (now : ℕ) (row : Job) → patched (retry_patch now row) row ≡ retried now row
unfolding patched requeue_patch
patched-retry_patch now row = ground arith

module _ (api : QueueApi) where
  open api use {Db, find, select, update, select_found, select_distinct}

  -- Row `k` is as it was, or it was selected by `q` and is now `f` of what it was.
  abbrev pub OnlyBy : Query → (Job → Job) → Db → Db → String → Type 0
  OnlyBy q f d d' k =
      (find d' k ≡ find d k)
      ⊎ ((r : Job) × (find d k ≡ some r) × (selects q r ≡ true) × (find d' k ≡ some (f r)))

  -- No call of `update` raises.
  abbrev pub Reliable : Type 0
  Reliable = (i : String) (p : Patch) (d : Db) → (update i p d).1 ≡ true

  retry_rows-db :
      (now : ℕ) (rows : List Job) (s : Db × Tally)
      → (retry_rows api now rows s).0 ≡ sweep api (retry_patch now) rows s.0
  unfolding retry_rows retry_row sweep
  retry_rows-db now [] s = refl
  retry_rows-db now (r ∷ rows) s = retry_rows-db now rows (retry_row api now r s)

  sweep-OnlyBy :
      (q : Query) (d : Db) (rows : List Job) (patch_of : Job → Patch) (f : Job → Job)
      → ((r : Job) → patched (patch_of r) r ≡ f r)
      → select q d ≡ some rows
      → (k : String) → OnlyBy q f d (sweep api patch_of rows d) k
  sweep-OnlyBy q d rows patch_of f same e k =
      elim (sweep-Effect api patch_of (λ r. selects q r ≡ true) rows d k
        (select_distinct q d rows e) (select_found q d rows e)) [
          | inl kept ↦ inl kept
          | inr (r, was, chosen, now_is) ↦ inr (r, was, chosen, now_is ∙ ap some (same r))
        ]

  -- Whatever calls raise, a retry pass leaves each row as it was, or the row was failed and in the
  -- pass's scope and is now dead, if this was its fifth attempt, or else queued with one more attempt
  -- and scheduled for its backoff from now.
  pub requeue_effect :
      (now : ℕ) (types : List ObjectType) (d : Db) (k : String)
      → OnlyBy (failed_query types) (retried now) d (requeue_or_deadletter api now types d).0 k
  unfolding requeue_or_deadletter
  requeue_effect now types d k = elim (Option-cases (select (failed_query types) d)) [
    | inl raised ↦ inl (rw (raised, requeue_or_deadletter))
    | inr (rows, e) ↦
        rw
          (
            e,
            requeue_or_deadletter,
            retry_rows-db now rows (d, record { requeued = 0; dead_ids = [] }),
          )
          (sweep-OnlyBy (failed_query types) d rows (retry_patch now) (retried now)
            (patched-retry_patch now) e k)
  ]

  All-retried :
      (now : ℕ) (d' : Db) (rows : List Job)
      → All (λ r. find d' r.id ≡ some (patched (retry_patch now r) r)) rows
      → All (λ r. find d' r.id ≡ some (retried now r)) rows
  All-retried now d' rows = All-map rows (λ r h. h ∙ ap some (patched-retry_patch now r))

  count_row :
      (now : ℕ) (r : Job) (s : Db × Tally)
      → Reliable
      → (retry_row api now r s).1.requeued + length (retry_row api now r s).1.dead_ids
        ≡ suc (s.1.requeued + length s.1.dead_ids)
  unfolding retry_row
  count_row now r (d, t) ok =
      ground (arith, ok r.id (retry_patch now r) d, length-append t.dead_ids (r.id ∷ []))

  tally_total :
      (now : ℕ) (rows : List Job) (s : Db × Tally)
      → Reliable
      → (retry_rows api now rows s).1.requeued + length (retry_rows api now rows s).1.dead_ids
        ≡ s.1.requeued + length s.1.dead_ids + length rows
  unfolding retry_rows
  tally_total now [] s ok = omega arith
  tally_total now (r ∷ rows) s ok =
      omega (arith, count_row now r s ok, tally_total now rows (retry_row api now r s) ok)

  -- When no update raises and the select returns, every selected row is retried and counted once: as requeued or as dead.
  pub requeue_complete :
      (now : ℕ) (types : List ObjectType) (d : Db) (rows : List Job)
      → Reliable
      → select (failed_query types) d ≡ some rows
      → All (λ r. find (requeue_or_deadletter api now types d).0 r.id ≡ some (retried now r)) rows
        × ((requeue_or_deadletter api now types d).1.requeued
              + (requeue_or_deadletter api now types d).1.dead_count
            ≡ length rows)
  unfolding requeue_or_deadletter
  requeue_complete now types d rows ok e =
      let start : Tally = record { requeued = 0; dead_ids = [] } in
      rw (e, requeue_or_deadletter)
        (
          rw (retry_rows-db now rows (d, start)) (
              All-retried now (sweep api (retry_patch now) rows d) rows (
                sweep-All api (retry_patch now) ok rows d
                  (select_distinct (failed_query types) d rows e)
                  (All-map rows (λ r h. h.0) (select_found (failed_query types) d rows e)))),
          omega (arith, tally_total now rows (d, start) ok),
        )
