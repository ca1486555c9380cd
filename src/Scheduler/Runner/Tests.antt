-- ===== src/Scheduler/Runner/Tests.antt =====
-- The theorems on cycles at a queue with one dead and no stalled row, and an executor that raises.
use rsg_hermes.Prelude.{if◌then◌else◌, ◌≡◌, refl, Bool, true, List, [], ◌∷◌}
use rsg_hermes.Queue.{ObjectType}
use rsg_hermes.Services.{queue_object_types, hub_object_types}
use rsg_hermes.Scheduler.Runner.{
  Executor, renewal, quote, opportunity_writeback, aborted, crashed, dead_lettered, acquire,
  release, execute, alert, returned, raised, Env, service_executors, run_service_cycle,
  run_one_cycle, ran, alerting, executor_eq, finishing, service_body, run_executors,
  report_failures,
}
use rsg_hermes.Scheduler.Runner.Effects.{rounds}
use rsg_hermes.Scheduler.Runner.Endings.{prepared, KeepsLease, lease_discipline}
use rsg_hermes.Scheduler.Runner.Traces.{service_problems, service_cycle_runs}
use rsg_hermes.Scheduler.Runner.Unsplit.{one_cycle_crash}

abbrev world : (Executor → Bool) → Env
world breaks = record {
  acquires = λ h. true;
  reclaims = λ h. returned [];
  requeues = λ h. returned ("J9" ∷ []);
  connects = λ h. returned tt;
  executes = λ n h. if breaks n then raised else returned 0;
}

abbrev quotes_down : Env
quotes_down = world (executor_eq quote)

abbrev renewals_down : Env
renewals_down = world (executor_eq renewal)

abbrev hub_scope : List ObjectType
hub_scope = ObjectType.quote ∷ ObjectType.opportunity_writeback ∷ []

service_cycle_runs_example : run_service_cycle quotes_down "hub" [] ≡ (
  alerting
      (service_problems quotes_down hub_scope
        (quote ∷ opportunity_writeback ∷ [])
        (acquire ∷ [])
        []
        ("J9" ∷ []))
      (release ∷ rounds (quote ∷ opportunity_writeback ∷ []) (prepared hub_scope (acquire ∷ []))),
  ran (
      service_problems quotes_down hub_scope
        (quote ∷ opportunity_writeback ∷ [])
        (acquire ∷ [])
        []
        ("J9" ∷ [])),
)
unfolding queue_object_types service_executors
service_cycle_runs_example =
    service_cycle_runs quotes_down "hub" ObjectType.quote (ObjectType.opportunity_writeback ∷ [])
      quote (opportunity_writeback ∷ []) [] [] ("J9" ∷ []) refl refl refl refl refl

hub_reports :
    (run_service_cycle quotes_down "hub" []).1
    ≡ ran (aborted quote ∷ dead_lettered ("J9" ∷ []) ∷ [])
unfolding run_service_cycle queue_object_types service_executors finishing service_body
    run_executors report_failures
hub_reports = refl

lease_discipline_example :
    KeepsLease quotes_down [] (run_service_cycle quotes_down "hub" [])
    × KeepsLease quotes_down [] (run_one_cycle quotes_down [])
lease_discipline_example = lease_discipline quotes_down "hub" []

one_cycle_crash_example : run_one_cycle renewals_down [] ≡ (
  alert (crashed ∷ []) ∷ release ∷ execute renewal ∷ prepared hub_object_types (acquire ∷ []),
  ran (crashed ∷ []),
)
one_cycle_crash_example = one_cycle_crash renewals_down [] [] ("J9" ∷ []) refl refl refl refl
