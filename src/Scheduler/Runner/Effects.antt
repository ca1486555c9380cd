-- ===== src/Scheduler/Runner/Effects.antt =====
-- The parts of a cycle as equations: the calls they add, and the problems they report.
use rsg_hermes.Prelude.{
  ℕ, zero, suc, String, ◌≡◌, refl, ◌∙◌, ap, List, [], ◌∷◌, ◌++◌, append-nil, append_assoc, arith,
}
use rsg_hermes.Scheduler.Runner.{
  Executor, Problem, aborted, dead_lettered, reclaimed, failures, renew, execute, History, Outcome,
  returned, raised, Env, Locals, guarded, executing, renewing, run_executors, report_dead,
  report_reclaimed, report_failed, report_failures, lookup,
}

-- Each executor in turn, and a renewal of the lease behind it.
abbrev pub rounds : List Executor → History → History
rounds [] h = h
rounds (n ∷ ns) h = rounds ns (renew ∷ execute n ∷ h)

abbrev pub dead_lines : List String → List Problem
dead_lines [] = []
dead_lines (i ∷ ids) = dead_lettered (i ∷ ids) ∷ []

abbrev pub reclaimed_lines : List String → List Problem
reclaimed_lines [] = []
reclaimed_lines (i ∷ ids) = reclaimed (i ∷ ids) ∷ []

abbrev pub failed_line : Executor → ℕ → List Problem
failed_line n zero = []
failed_line n (suc k) = failures n (suc k) ∷ []

abbrev pub failed_lines : List (Executor × ℕ) → List Executor → List Problem
failed_lines counts [] = []
failed_lines counts (n ∷ ns) = failed_line n (lookup n counts) ++ failed_lines counts ns

abbrev aborted_line : Executor → Outcome ℕ → List Problem
aborted_line n (returned k) = []
aborted_line n raised = aborted n ∷ []

abbrev count_of : Executor → Outcome ℕ → List (Executor × ℕ)
count_of n (returned k) = (n, k) ∷ []
count_of n raised = []

abbrev pub plus : List Problem → Locals → Locals
plus ps s = record s { problems = s.problems ++ ps }

plus-nil : (s : Locals) → plus [] s ≡ s
plus-nil s = rw append-nil refl

plus-plus : (ps qs : List Problem) (s : Locals) → plus qs (plus ps s) ≡ plus (ps ++ qs) s
plus-plus ps qs s = rw append_assoc refl

pub report_dead_lem :
    (ids : List String) (s : Locals) → report_dead ids s ≡ (returned tt, plus (dead_lines ids) s)
report_dead_lem [] s = rw append-nil refl
report_dead_lem (i ∷ ids) s = refl

pub report_reclaimed_lem :
    (ids : List String) (s : Locals)
    → report_reclaimed ids s ≡ (returned tt, plus (reclaimed_lines ids) s)
report_reclaimed_lem [] s = rw append-nil refl
report_reclaimed_lem (i ∷ ids) s = refl

report_failed_lem :
    (n : Executor) (k : ℕ) (s : Locals)
    → lookup n s.failed ≡ k
    → (report_failed n s).1 ≡ plus (failed_line n k) s
report_failed_lem n zero s e = rw (e, report_failed) (rw append-nil refl)
report_failed_lem n (suc k) s e = rw (e, report_failed) refl

pub report_failures_lem :
    (ns : List Executor) (s : Locals)
    → report_failures ns s ≡ (returned tt, plus (failed_lines s.failed ns) s)
unfolding report_failures
report_failures_lem [] s = rw append-nil refl
report_failures_lem (n ∷ ns) s = rw (report_failed_lem n (lookup n s.failed) s refl) (
    report_failures_lem ns (plus (failed_line n (lookup n s.failed)) s)
    ∙ ap (λ (t : Locals). (returned tt, t))
        (plus-plus (failed_line n (lookup n s.failed)) (failed_lines s.failed ns) s))

module _ (env : Env) where
  abbrev pub aborted_lines : List Executor → History → List Problem
  aborted_lines [] h = []
  aborted_lines (n ∷ ns) h =
      aborted_line n (env.executes n h) ++ aborted_lines ns (renew ∷ execute n ∷ h)

  abbrev pub counts : List Executor → History → List (Executor × ℕ)
  counts [] h = []
  counts (n ∷ ns) h = count_of n (env.executes n h) ++ counts ns (renew ∷ execute n ∷ h)

  one_round :
      (n : Executor) (s : Locals)
      → (renewing env (guarded (executing env n) (aborted n) s).1).1 ≡ record {
        history = renew ∷ execute n ∷ s.history;
        problems = s.problems ++ aborted_line n (env.executes n s.history);
        failed = s.failed ++ count_of n (env.executes n s.history);
      }
  one_round n s = ground (arith, append-nil s.problems, append-nil s.failed)

  pub run_executors_lem :
      (ns : List Executor) (s : Locals)
      → run_executors env ns s ≡ (
        returned tt,
        record {
          history = rounds ns s.history;
          problems = s.problems ++ aborted_lines ns s.history;
          failed = s.failed ++ counts ns s.history;
        },
      )
  unfolding run_executors
  run_executors_lem [] s = simp append-nil
  run_executors_lem (n ∷ ns) s = rw (one_round n s) (run_executors_lem ns _ ∙ simp append_assoc)
