-- ===== src/Scheduler/Runner/Traces.antt =====
-- What a service's cycle calls, in order, and what it reports.
use rsg_hermes.Prelude.{String, ◌≡◌, true, some, List, [], ◌∷◌, ◌++◌, append_assoc}
use rsg_hermes.Queue.{ObjectType}
use rsg_hermes.Services.{queue_object_types}
use rsg_hermes.Scheduler.Runner.{
  Executor, Problem, acquire, release, reclaim_stalled, History, returned, Env, service_executors,
  service_body, run_service_cycle, ran, alerting,
}
use rsg_hermes.Scheduler.Runner.Effects.{
  rounds, dead_lines, reclaimed_lines, failed_lines, aborted_lines, counts, report_dead_lem,
  report_reclaimed_lem, report_failures_lem, run_executors_lem,
}
use rsg_hermes.Scheduler.Runner.Endings.{finishing-returned, locked_lem, prepared}

module _ (env : Env) where
  service_body_lem :
      (types : List ObjectType) (names : List Executor) (h : History) (stalled dead : List String)
      → env.reclaims h ≡ returned stalled
      → env.requeues (reclaim_stalled types ∷ h) ≡ returned dead
      → service_body env types names (record { history = h; problems = []; failed = [] }) ≡ (
        returned tt,
        record {
          history = rounds names (prepared types h);
          problems =
              aborted_lines env names (prepared types h)
              ++ (dead_lines dead
                  ++ (reclaimed_lines stalled
                      ++ failed_lines (counts env names (prepared types h)) names));
          failed = counts env names (prepared types h);
        },
      )
  unfolding service_body
  service_body_lem types names h stalled dead e f =
      rw (e, service_body)
        (rw f (
          rw (run_executors_lem, report_dead_lem, report_reclaimed_lem, report_failures_lem)
            (simp append_assoc)))

  -- The problems of a service's cycle whose queue passes return.
  abbrev pub service_problems :
      List ObjectType → List Executor → History → List String → List String → List Problem
  service_problems types names h stalled dead =
      aborted_lines env names (prepared types h)
      ++ (dead_lines dead
          ++ (reclaimed_lines stalled ++ failed_lines (counts env names (prepared types h)) names))

  -- A service's cycle that gets the lease, and whose two queue passes return, runs each of the
  -- service's executors once, in order, whichever of them raise, renews the lease behind each,
  -- releases it, reports each executor that raised, the dead and the reclaimed ids and each failure
  -- count, and alerts exactly if there is something to report.
  pub service_cycle_runs :
      (service : String) (t : ObjectType) (ts : List ObjectType) (n : Executor) (ns : List Executor)
      (h : History) (stalled dead : List String)
      → queue_object_types service ≡ some (t ∷ ts)
      → service_executors service ≡ n ∷ ns
      → env.acquires h ≡ true
      → env.reclaims (acquire ∷ h) ≡ returned stalled
      → env.requeues (reclaim_stalled (t ∷ ts) ∷ acquire ∷ h) ≡ returned dead
      → run_service_cycle env service h ≡ (
        alerting
            (service_problems (t ∷ ts) (n ∷ ns) (acquire ∷ h) stalled dead)
            (release ∷ rounds (n ∷ ns) (prepared (t ∷ ts) (acquire ∷ h))),
        ran (service_problems (t ∷ ts) (n ∷ ns) (acquire ∷ h) stalled dead),
      )
  unfolding run_service_cycle
  service_cycle_runs service t ts n ns h stalled dead has_types has_names free e f =
      rw (has_types, run_service_cycle)
        (rw has_names (
          locked_lem env (service_body env (t ∷ ts) (n ∷ ns)) h _ free (
            finishing-returned env (service_body env (t ∷ ts) (n ∷ ns)) (acquire ∷ h) _
              (service_body_lem (t ∷ ts) (n ∷ ns) (acquire ∷ h) stalled dead e f))))
