-- ===== src/Scheduler/Retry/Lifecycle.antt =====
-- The life of one queue row, as the executors of hermes/renewals/executor.py (`_claim`,
-- `_set_queue_status`) and the passes of hermes/scheduler/retry.py drive it. The outside world
-- chooses which call comes next, when, and how a run ends.
use rsg_hermes.Prelude.{leb, if◌then◌else◌, ◌⊎◌, ℕ, ◌+◌, ◌<◌, ◌≡◌, ◌≢◌, some, arith}
use rsg_hermes.Queue.{Status, queued, processing, completed, failed, dead, Job, patched, attempts}
use rsg_hermes.Scheduler.Backoff.{max_attempts}
use native.Mathlib.Nat.{add-zero, add_assoc}
use rsg_hermes.Scheduler.Retry.{requeue_patch, retry_patch, reclaim_patch}

-- The PATCH of `_claim`, whose filter is the row's id and `status=eq.queued`.
abbrev pub claim : ℕ → Job → Job
claim now j = record j { status = processing; updated_at = some now }

-- `_set_queue_status`
abbrev pub set_queue_status : ℕ → Status → Job → Job
set_queue_status now s j = record j { status = s; updated_at = some now }

-- Whether the write of a pass puts the row that it has read back, or buries it.
abbrev pub requeues : Job → ℕ
requeues read = if leb max_attempts (attempts read + 1) then 0 else 1

-- One write that reaches the row; the number counts those that put the row back for a retry. Only
-- `_claim` names a status in its filter. The others go by the row's id, so they land on the row whatever
-- it has become since it was read: an executor may end the job of a row that has been reclaimed, and a
-- pass may write a row that has moved on. What a pass has read differs from the row in anything but the
-- attempts, which only the passes write, one at a time under the lease.
pub data Step (j : Job) : ℕ → Job → Type 0 where
  claimed : (now : ℕ) → j.status ≡ queued → Step j 0 (claim now j)
  finished : (now : ℕ) → Step j 0 (set_queue_status now completed j)
  broke : (now : ℕ) → Step j 0 (set_queue_status now failed j)
  passed :
      (now : ℕ) (read : Job)
      → read.status ≡ failed
      → attempts read ≡ attempts j
      → Step j (requeues read) (patched (retry_patch now read) j)
  stalled : (now : ℕ) → Step j 0 (patched (reclaim_patch now) j)

pub data Run (j : Job) : ℕ → Job → Type 0 where
  here : Run j 0 j
  next : {n m : ℕ} {k l : Job} → Run j n k → Step k m l → Run j (n + m) l

record Accounted (from : ℕ) (n : ℕ) (j : Job) : Type 0 where
  under_cap : attempts j < max_attempts
  balance : from + n ≡ attempts j
  buried_last : j.status ≡ dead → attempts j + 1 ≡ max_attempts

start : (j : Job) → j.status ≡ queued → attempts j < max_attempts → Accounted (attempts j) 0 j
start j e h = ground arith

-- The row after the write of a pass that has read the row as it is, but for its status.
retried_accounted :
    (now from n : ℕ) (k read : Job)
    → attempts read ≡ attempts k
    → Accounted from n k
    → Accounted from (n + requeues read) (patched (retry_patch now read) k)
unfolding patched requeue_patch
retried_accounted now from n k read same a = ground (arith, same, a.under_cap, a.balance)

reclaim_accounted :
    (now from n : ℕ) (k : Job)
    → Accounted from n k
    → Accounted from n (patched (reclaim_patch now) k)
unfolding patched
reclaim_accounted now from n k a = ground arith

step_accounted :
    (from n m : ℕ) (k l : Job) → Step k m l → Accounted from n k → Accounted from (n + m) l
step_accounted from n m k l (claimed now e) a = ground arith
step_accounted from n m k l (finished now) a = ground arith
step_accounted from n m k l (broke now) a = ground arith
step_accounted from n m k l (passed now read e same) a = retried_accounted now from n k read same a
step_accounted from n m k l (stalled now) a = rw add-zero (reclaim_accounted now from n k a)

run_accounted :
    (from n : ℕ) (j : Job) (m : ℕ) (k : Job)
    → Run j m k
    → Accounted from n j
    → Accounted from (n + m) k
run_accounted from n j _ _ here a = rw add-zero a
run_accounted from n j _ l (next {n = p} {m = q} {k = k} r s) a =
    rw (← add_assoc n p q) (step_accounted from (n + p) q k l s (run_accounted from n j p k r a))

-- However the writes interleave, whatever the row has become when one of them lands, a row that starts
-- queued below the cap is put back for a retry fewer than `max_attempts` minus its attempts times, its
-- attempts stay below the cap and count these retries, and it is dead only when one fewer than that many
-- have been made.
pub retries_bounded :
    (j : Job) (n : ℕ) (k : Job)
    → j.status ≡ queued
    → attempts j < max_attempts
    → Run j n k
    → (attempts j + n < max_attempts)
      × (attempts k ≡ attempts j + n)
      × ((k.status ≢ dead) ⊎ (attempts j + n + 1 ≡ max_attempts))
retries_bounded j n k e h r =
    let a = run_accounted (attempts j) 0 j n k r (start j e h) in
    (
      ground (arith, a.balance, a.under_cap),
      ground (arith, a.balance),
      ground (arith, a.balance, a.buried_last),
    )
