-- ===== src/Scheduler/Runner.antt =====
-- hermes/scheduler/runner.py: the cycles. Each call that leaves the cycle is recorded in a history,
-- latest first, and answered by an environment that may look at the whole history.
mod Effects
pub mod Endings
pub mod Traces
pub mod Unsplit
mod Tests
use rsg_hermes.Prelude.{
  ℕ, zero, suc, String, ◌≡◌, refl, Bool, true, false, Option, none, some, List, [], ◌∷◌, ◌++◌,
  length, str_eq, ◌==◌, if◌then◌else◌,
}
use rsg_hermes.Queue.{ObjectType}
use rsg_hermes.Services.{queue_object_types, hub_object_types}

pub data Executor : Type 0 where
  renewal intake quote opportunity_writeback : Executor

abbrev executor_tag : Executor → ℕ
executor_tag renewal = 0
executor_tag intake = 1
executor_tag quote = 2
executor_tag opportunity_writeback = 3

abbrev pub executor_eq : Executor → Executor → Bool
executor_eq a b = executor_tag a == executor_tag b

-- `service_executors`
unfoldable pub service_executors : String → List Executor
service_executors service =
    if str_eq service "renewals"
    then renewal ∷ []
    else if str_eq service "intake"
    then intake ∷ []
    else if str_eq service "hub"
    then quote ∷ opportunity_writeback ∷ []
    else []

-- The lines of `problems`.
pub data Problem : Type 0 where
  aborted : Executor → Problem
  group_aborted : Problem
  dead_lettered : List String → Problem
  reclaimed : List String → Problem
  failures : Executor → ℕ → Problem
  crashed : Problem

pub data Call : Type 0 where
  acquire renew release : Call
  reclaim_stalled requeue_or_deadletter : List ObjectType → Call
  connect : Call
  execute : Executor → Call
  alert : List Problem → Call

abbrev pub History : Type 0
History = List Call

pub data Outcome (A : Type 0) : Type 0 where
  returned : A → Outcome A
  raised : Outcome A

-- What each call answers: the reclaimed ids, the dead ids, and the `failed` count of an executor.
pub record Env : Type 0 where
  pub acquires : History → Bool
  pub reclaims : History → Outcome (List String)
  pub requeues : History → Outcome (List String)
  pub connects : History → Outcome (Unit {0})
  pub executes : Executor → History → Outcome ℕ

-- The local variables of a cycle; `failed` is `metrics[name]["failed"]` of the executors that returned.
pub record Locals : Type 0 where
  pub history : History
  pub problems : List Problem
  pub failed : List (Executor × ℕ)

abbrev pub Cycle : Type 0 → Type 0
Cycle A = Locals → Outcome A × Locals

module _ {A B : Type 0} where
  abbrev pub continue : Outcome A → (A → Cycle B) → Cycle B
  continue (returned a) f s = f a s
  continue raised f s = (raised, s)

  infixl 5 ◌>>=◌ ◌>>◌
  abbrev pub ◌>>=◌ : Cycle A → (A → Cycle B) → Cycle B
  ◌>>=◌ m f s = let (r, s') = m s in continue r f s'

  abbrev pub ◌>>◌ : Cycle A → Cycle B → Cycle B
  m >> k = m >>= λ _. k

abbrev pub problem : Problem → Cycle (Unit {0})
problem p s = (returned tt, record s { problems = s.problems ++ p ∷ [] })

-- `try: body` / `except Exception: problems.append(p)`
abbrev pub handled : Problem → Outcome (Unit {0}) × Locals → Outcome (Unit {0}) × Locals
handled p (returned _, s) = (returned tt, s)
handled p (raised, s) = problem p s

abbrev pub guarded : Cycle (Unit {0}) → Problem → Cycle (Unit {0})
guarded body p s = handled p (body s)

abbrev pub lookup : Executor → List (Executor × ℕ) → ℕ
lookup n [] = 0
lookup n ((m, k) ∷ rest) = if executor_eq m n then k else lookup n rest

abbrev pub report_dead : List String → Cycle (Unit {0})
report_dead [] s = (returned tt, s)
report_dead (i ∷ ids) s = problem (dead_lettered (i ∷ ids)) s

abbrev pub report_reclaimed : List String → Cycle (Unit {0})
report_reclaimed [] s = (returned tt, s)
report_reclaimed (i ∷ ids) s = problem (reclaimed (i ∷ ids)) s

-- `if metrics.get(name, {}).get("failed")`
abbrev pub report_failed : Executor → Cycle (Unit {0})
report_failed n s = elim (lookup n s.failed) [
  | zero ↦ (returned tt, s)
  | suc k ↦ problem (failures n (suc k)) s
]

unfoldable pub report_failures : List Executor → Cycle (Unit {0})
report_failures [] s = (returned tt, s)
report_failures (n ∷ ns) s = report_failures ns (report_failed n s).1

-- How a cycle ends; `ValueError` for an unknown service.
pub data Ended : Type 0 where
  unknown_service no_queue_work not_acquired : Ended
  ran : List Problem → Ended

-- `if problems: _alert(…)`
abbrev pub alerting : List Problem → History → History
alerting [] h = h
alerting (p ∷ ps) h = alert (p ∷ ps) ∷ h

abbrev pub concluded : Locals → History × List Problem
concluded s = (alerting s.problems (release ∷ s.history), s.problems)

module _ (env : Env) where
  abbrev pub renewing : Cycle (Unit {0})
  renewing s = (returned tt, record s { history = renew ∷ s.history })

  abbrev pub reclaiming : List ObjectType → Cycle (List String)
  reclaiming ts s = (env.reclaims s.history, record s { history = reclaim_stalled ts ∷ s.history })

  abbrev pub requeueing : List ObjectType → Cycle (List String)
  requeueing ts s =
      (env.requeues s.history, record s { history = requeue_or_deadletter ts ∷ s.history })

  abbrev pub connecting : Cycle (Unit {0})
  connecting s = (env.connects s.history, record s { history = connect ∷ s.history })

  abbrev store : Executor → Outcome ℕ → Locals → Outcome (Unit {0}) × Locals
  store n (returned k) s = (returned tt, record s { failed = s.failed ++ (n, k) ∷ [] })
  store n raised s = (raised, s)

  -- `metrics[name] = _run_executor(name, …)`
  abbrev pub executing : Executor → Cycle (Unit {0})
  executing n s = store n (env.executes n s.history) (record s { history = execute n ∷ s.history })

  -- The loop over the service's executors: one that raises does not cost the rest.
  unfoldable pub run_executors : List Executor → Cycle (Unit {0})
  run_executors [] s = (returned tt, s)
  run_executors (n ∷ ns) s = run_executors ns (renewing (guarded (executing n) (aborted n) s).1).1

  -- The `try` block of `run_service_cycle`.
  unfoldable pub service_body : List ObjectType → List Executor → Cycle (Unit {0})
  service_body types names = do
    stalled ← reclaiming types
    retry ← requeueing types
    renewing
    run_executors names
    report_dead retry
    report_reclaimed stalled
    report_failures names

  -- The group of `run_one_cycle` that shares a NowCerts client.
  abbrev pub nowcerts_group : Cycle (Unit {0})
  nowcerts_group = do connecting; executing quote; renewing; executing opportunity_writeback

  -- The `try` block of `run_one_cycle`.
  unfoldable pub one_body : Cycle (Unit {0})
  unfolding hub_object_types
  one_body = do
    stalled ← reclaiming hub_object_types
    retry ← requeueing hub_object_types
    renewing
    executing renewal
    renewing
    executing intake
    renewing
    guarded nowcerts_group group_aborted
    report_dead retry
    report_reclaimed stalled
    report_failures (renewal ∷ intake ∷ quote ∷ opportunity_writeback ∷ [])

  -- `except Exception` appends to the problems, `finally` releases, and the alert follows.
  unfoldable pub finishing : Cycle (Unit {0}) → History → History × List Problem
  finishing body h =
      concluded (guarded body crashed (record { history = h; problems = []; failed = [] })).1

  abbrev pub locked : Cycle (Unit {0}) → History → History × Ended
  locked body h =
      if env.acquires h
      then (let (h', ps) = finishing body (acquire ∷ h) in (h', ran ps))
      else (acquire ∷ h, not_acquired)

  abbrev pub with_work : List ObjectType → List Executor → History → History × Ended
  with_work [] names h = (h, no_queue_work)
  with_work (t ∷ ts) [] h = (h, no_queue_work)
  with_work (t ∷ ts) (n ∷ ns) h = locked (service_body (t ∷ ts) (n ∷ ns)) h

  unfoldable pub run_service_cycle : String → History → History × Ended
  run_service_cycle service h = elim (queue_object_types service) [
    | none ↦ (h, unknown_service)
    | some types ↦ with_work types (service_executors service) h
  ]

  unfoldable pub run_one_cycle : History → History × Ended
  run_one_cycle h = locked one_body h
