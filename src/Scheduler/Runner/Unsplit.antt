-- ===== src/Scheduler/Runner/Unsplit.antt =====
-- What the unsplit cycle reports, and what it loses where an executor raises.
use rsg_hermes.Prelude.{ℕ, String, ◌≡◌, refl, ◌∙◌, ap, true, List, [], ◌∷◌, ◌++◌, append_assoc}
use rsg_hermes.Services.{hub_object_types}
use rsg_hermes.Scheduler.Runner.{
  Executor, renewal, intake, quote, opportunity_writeback, Problem, crashed, group_aborted, acquire,
  renew, release, reclaim_stalled, execute, alert, History, Outcome, returned, raised, Env, Locals,
  Cycle, continue, guarded, report_dead, report_reclaimed, report_failures, one_body, run_one_cycle,
  Ended, ran, handled, nowcerts_group, ◌>>◌,
}
use rsg_hermes.Scheduler.Runner.Effects.{
  dead_lines, reclaimed_lines, failed_lines, plus, report_dead_lem, report_reclaimed_lem,
  report_failures_lem,
}
use rsg_hermes.Scheduler.Runner.Endings.{
  start, finishing-returned, finishing-raised, locked_lem, prepared,
}

module _ (env : Env) where
  one_body_crash :
      (h : History) (stalled dead : List String)
      → env.reclaims h ≡ returned stalled
      → env.requeues (reclaim_stalled hub_object_types ∷ h) ≡ returned dead
      → env.executes renewal (prepared hub_object_types h) ≡ raised
      → one_body env (start h) ≡ (
        raised,
        record {
          history = execute renewal ∷ prepared hub_object_types h;
          problems = [];
          failed = [];
        },
      )
  unfolding one_body
  one_body_crash h stalled dead e f g = rw (e, one_body) (rw f (rw g))

  reports_lem :
      (dead recl : List String) (ns : List Executor) (s : Locals)
      → (report_dead dead >> (report_reclaimed recl >> report_failures ns)) s ≡ (
        returned tt,
        plus (dead_lines dead ++ (reclaimed_lines recl ++ failed_lines s.failed ns)) s,
      )
  reports_lem dead recl ns s =
      rw (report_dead_lem, report_reclaimed_lem, report_failures_lem) (simp append_assoc)

  group_reports :
      (r : Outcome Unit × Locals) (m : Cycle Unit)
      → continue (handled group_aborted r).0 (λ _. m) (handled group_aborted r).1
        ≡ m (handled group_aborted r).1
  group_reports (returned x, s) m = refl
  group_reports (raised, s) m = refl

  -- The state in which the NowCerts group leaves the cycle.
  abbrev after_group : History → ℕ → ℕ → Locals
  after_group h j k =
      (guarded (nowcerts_group env) group_aborted (record {
        history = renew ∷ execute intake ∷ renew ∷ execute renewal ∷ prepared hub_object_types h;
        problems = [];
        failed = (renewal, j) ∷ (intake, k) ∷ [];
      })).1

  abbrev all_executors : List Executor
  all_executors = renewal ∷ intake ∷ quote ∷ opportunity_writeback ∷ []

  one_body_lem :
      (h : History) (stalled dead : List String) (j k : ℕ)
      → env.reclaims h ≡ returned stalled
      → env.requeues (reclaim_stalled hub_object_types ∷ h) ≡ returned dead
      → env.executes renewal (prepared hub_object_types h) ≡ returned j
      → env.executes intake (renew ∷ execute renewal ∷ prepared hub_object_types h) ≡ returned k
      → one_body env (start h) ≡ (
        returned tt,
        plus
            (dead_lines dead
              ++ (reclaimed_lines stalled ++ failed_lines (after_group h j k).failed all_executors))
            (after_group h j k),
      )
  unfolding one_body
  one_body_lem h stalled dead j k e f g i =
      rw (e, one_body)
        (rw f (
          rw g (
            rw i (
              group_reports _
                (report_dead dead >> (report_reclaimed stalled >> report_failures all_executors))
              ∙ reports_lem dead stalled all_executors (after_group h j k)))))

  -- The unsplit cycle whose renewal executor raises reports the crash and nothing else: the dead and
  -- the reclaimed ids of the passes that have returned are not in its alert, and intake and the
  -- NowCerts group are not run.
  pub one_cycle_crash :
      (h : History) (stalled dead : List String)
      → env.acquires h ≡ true
      → env.reclaims (acquire ∷ h) ≡ returned stalled
      → env.requeues (reclaim_stalled hub_object_types ∷ acquire ∷ h) ≡ returned dead
      → env.executes renewal (prepared hub_object_types (acquire ∷ h)) ≡ raised
      → run_one_cycle env h ≡ (
        alert (crashed ∷ []) ∷ release ∷ execute renewal ∷ prepared hub_object_types (acquire ∷ h),
        ran (crashed ∷ []),
      )
  unfolding run_one_cycle
  one_cycle_crash h stalled dead free e f g = locked_lem env (one_body env) h _ free (
      finishing-raised env (one_body env) (acquire ∷ h) _
        (one_body_crash (acquire ∷ h) stalled dead e f g))

  -- The unsplit cycle whose queue passes and whose renewal and intake executors return reports the
  -- dead and the reclaimed ids, whatever the NowCerts group does.
  pub one_cycle_reports :
      (h : History) (stalled dead : List String) (j k : ℕ)
      → env.acquires h ≡ true
      → env.reclaims (acquire ∷ h) ≡ returned stalled
      → env.requeues (reclaim_stalled hub_object_types ∷ acquire ∷ h) ≡ returned dead
      → env.executes renewal (prepared hub_object_types (acquire ∷ h)) ≡ returned j
      → env.executes intake (renew ∷ execute renewal ∷ prepared hub_object_types (acquire ∷ h))
        ≡ returned k
      → (front rest : List Problem) × ((run_one_cycle env h).1
          ≡ ran (front ++ (dead_lines dead ++ (reclaimed_lines stalled ++ rest))))
  unfolding run_one_cycle
  one_cycle_reports h stalled dead j k free e f g i =
      let s = after_group (acquire ∷ h) j k in
      (
        s.problems,
        failed_lines s.failed all_executors,
        ap (λ (r : History × Ended). r.1)
            (locked_lem env (one_body env) h _ free (
              finishing-returned env (one_body env) (acquire ∷ h) _
                (one_body_lem (acquire ∷ h) stalled dead j k e f g i))),
      )
