-- ===== src/Scheduler/Runner/Endings.antt =====
-- How a cycle ends, whatever happens in it: the lease that it got is released.
use rsg_hermes.Prelude.{
  String, ◌≡◌, refl, ap, true, false, List, [], ◌∷◌, ◌++◌, ◌⊎◌, inl, inr, Bool-cases, Option-cases,
}
use rsg_hermes.Queue.{ObjectType}
use rsg_hermes.Services.{queue_object_types}
use rsg_hermes.Scheduler.Runner.{
  Executor, Problem, crashed, acquire, renew, release, reclaim_stalled, requeue_or_deadletter,
  alert, History, returned, raised, Env, Locals, Cycle, guarded, service_executors, service_body,
  one_body, finishing, locked, run_service_cycle, run_one_cycle, with_work, Ended, ran, handled,
  concluded, not_acquired, alerting,
}

-- Before the executors: the two queue passes and a renewal.
abbrev pub prepared : List ObjectType → History → History
prepared types h = renew ∷ requeue_or_deadletter types ∷ reclaim_stalled types ∷ h

-- The last call of a cycle, but for the alert.
abbrev pub LastReleases : History → Type 0
LastReleases [] = ⊥
LastReleases (alert ps ∷ h) = LastReleases h
LastReleases (release ∷ h) = Unit
LastReleases (_ ∷ h) = ⊥

abbrev pub start : History → Locals
start h = record { history = h; problems = []; failed = [] }

module _ (env : Env) where
  pub finishing-returned :
      (body : Cycle Unit) (h : History) (s : Locals)
      → body (start h) ≡ (returned tt, s)
      → finishing env body h ≡ (alerting s.problems (release ∷ s.history), s.problems)
  unfolding finishing
  finishing-returned body h s e = ap (λ r. concluded (handled crashed r).1) e

  pub finishing-raised :
      (body : Cycle Unit) (h : History) (s : Locals)
      → body (start h) ≡ (raised, s)
      → finishing env body h
        ≡ (alerting (s.problems ++ crashed ∷ []) (release ∷ s.history), s.problems ++ crashed ∷ [])
  unfolding finishing
  finishing-raised body h s e = ap (λ r. concluded (handled crashed r).1) e

  pub locked_lem :
      (body : Cycle Unit) (h : History) (r : History × List Problem)
      → env.acquires h ≡ true
      → finishing env body (acquire ∷ h) ≡ r
      → locked env body h ≡ (r.0, ran r.1)
  locked_lem body h r free e = rw (free, e)

  finishing_releases : (body : Cycle Unit) (h : History) → LastReleases (finishing env body h).0
  unfolding finishing
  finishing_releases body h =
      alerted _
        (guarded body crashed (record { history = h; problems = []; failed = [] })).1.problems
    where
      alerted : (g : History) (ps : List Problem) → LastReleases (alerting ps (release ∷ g))
      alerted g [] = tt
      alerted g (p ∷ ps) = tt

  -- A cycle called nothing, or asked for the lease in vain and nothing else, or got it and released it.
  abbrev pub KeepsLease : History → History × Ended → Type 0
  KeepsLease h r =
      (r.0 ≡ h)
      ⊎ (env.acquires h ≡ false) × (r ≡ (acquire ∷ h, not_acquired))
      ⊎ (env.acquires h ≡ true) × LastReleases r.0

  locked_keeps : (body : Cycle Unit) (h : History) → KeepsLease h (locked env body h)
  locked_keeps body h = elim (Bool-cases (env.acquires h)) [
    | inl free ↦ inr (inr (free, rw free (finishing_releases body (acquire ∷ h))))
    | inr busy ↦ inr (inl (busy, rw busy refl))
  ]

  work_keeps :
      (types : List ObjectType) (names : List Executor) (h : History)
      → KeepsLease h (with_work env types names h)
  work_keeps [] names h = inl refl
  work_keeps (t ∷ ts) [] h = inl refl
  work_keeps (t ∷ ts) (n ∷ ns) h = locked_keeps (service_body env (t ∷ ts) (n ∷ ns)) h

  service_keeps : (service : String) (h : History) → KeepsLease h (run_service_cycle env service h)
  unfolding run_service_cycle
  service_keeps service h = elim (Option-cases (queue_object_types service)) [
    | inl unknown ↦ rw (unknown, run_service_cycle) (inl refl)
    | inr (types, e) ↦ rw (e, run_service_cycle) (work_keeps types (service_executors service) h)
  ]

  -- Of either cycle, whatever its calls answer: it makes no call at all, or it asks for the lease, is
  -- refused and makes no further call, or it gets the lease and releases it as its last call but for
  -- the alert.
  pub lease_discipline :
      (service : String) (h : History)
      → KeepsLease h (run_service_cycle env service h) × KeepsLease h (run_one_cycle env h)
  unfolding run_one_cycle
  lease_discipline service h = (service_keeps service h, locked_keeps (one_body env) h)
