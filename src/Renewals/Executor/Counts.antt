-- ===== src/Renewals/Executor/Counts.antt =====
-- What a run of the executor counts, and that a dry run changes nothing.
use rsg_hermes.Prelude.{
  ℕ, zero, suc, ◌+◌, ◌≤◌, ◌≡◌, refl, ◌∙◌, Bool, true, false, Option, none, some, List, [], ◌∷◌,
  ◌++◌, ap, sym, arith, length, length-append,
}
use rsg_hermes.Renewals.Executor.Calls.{
  Call, History, Env, answered, select_jobs, select_renewal, get_policy, get_insured, ReceiptStatus,
}
use rsg_hermes.Renewals.Executor.Instruction.{Row, load, JobContext}
use rsg_hermes.Renewals.Executor.Pipeline.{Checked, stopped, authorized}
use rsg_hermes.Renewals.Executor.Steps.{
  only, Quiet, find-Quiet, validate-Quiet, >>=-Quiet, return-Quiet, attempt-Quiet,
}
use rsg_hermes.Renewals.Executor.Filing.{>>=-returned, returned_value}
use rsg_hermes.Renewals.Executor.Runs.{
  Summary, no_jobs, count, take, claim_row, on_claimed, run_row, run_rows, run_executor,
  at_least_one, preview_job, previewed, Preview,
}

-- The calls that change something, anywhere.
abbrev pub is_change : Call → Bool
is_change (select_jobs n) = false
is_change (select_renewal i) = false
is_change (get_policy n) = false
is_change (get_insured i) = false
is_change _ = true

-- Of `n` rows: each claimed job has one outcome; a dry run claims none and previews every row.
pub record IsCounted (dry : Bool) (n : ℕ) (s : Summary) : Type 0 where
  pub outcomes : s.completed + s.failed + s.blocked ≡ s.claimed
  pub within : s.claimed + length s.previews ≤ n
  pub dry_claims : dry ≡ true → (s.claimed ≡ 0) × (length s.previews ≡ n)
  pub wet_previews : dry ≡ false → s.previews ≡ []

module _ (env : Env) where
  previewed-Quiet : (ctx : JobContext) (c : Checked) → Quiet is_change (previewed env ctx c)
  previewed-Quiet ctx (stopped r) = return-Quiet _
  previewed-Quiet ctx (authorized ctx') =
      >>=-Quiet (find-Quiet env (λ n. refl) ctx'.policy_number) λ p. return-Quiet _

  preview-Quiet : (row : Row) → Quiet is_change (preview_job env row)
  unfolding preview_job
  preview-Quiet row =
      >>=-Quiet (validate-Quiet env (λ n. refl) (load row)) (previewed-Quiet (load row))

  rows-Quiet : (rows : List Row) (s : Summary) → Quiet is_change (run_rows env true rows s)
  unfolding run_rows run_row
  rows-Quiet [] s = return-Quiet s
  rows-Quiet (row ∷ rows) s =
      >>=-Quiet (>>=-Quiet (preview-Quiet row) λ p. return-Quiet _) (rows-Quiet rows)

  -- A dry run reads and changes nothing, whatever its calls answer: no claim, no write to the AMS, no
  -- receipt, no status, no log row and no message.
  pub dry_run_changes_nothing :
      (limit : ℕ) (h : History)
      → only is_change (run_executor env limit true h).1 ≡ only is_change h
  unfolding run_executor
  dry_run_changes_nothing limit h =
      attempt-Quiet (env.jobs h) _ _ _ refl (λ rows. rows-Quiet (take limit rows) no_jobs)
        (record { quiet = λ g. refl }) h

  previewed-IsCounted :
      (n : ℕ) (s : Summary) (p : Preview)
      → IsCounted true n s
      → IsCounted true (suc n) (record s { previews = s.previews ++ p ∷ [] })
  previewed-IsCounted n s p c = record {
    outcomes = c.outcomes;
    within = omega (arith, length-append s.previews (p ∷ []));
    dry_claims = λ e. (
      (c.dry_claims refl).0,
      omega (arith, length-append s.previews (p ∷ []), (c.dry_claims refl).1),
    );
    wet_previews = λ e. cc;
  }

  claimed-IsCounted :
      (n : ℕ) (s : Summary) (o : ReceiptStatus)
      → IsCounted false n s
      → IsCounted false (suc n) (count o (record s { claimed = s.claimed + 1 }))
  claimed-IsCounted n s ReceiptStatus.completed c = record {
    outcomes = omega (arith, c.outcomes);
    within = omega (arith, c.within);
    dry_claims = λ e. absurd (cc);
    wet_previews = c.wet_previews;
  }
  claimed-IsCounted n s ReceiptStatus.failed c = record {
    outcomes = omega (arith, c.outcomes);
    within = omega (arith, c.within);
    dry_claims = λ e. absurd (cc);
    wet_previews = c.wet_previews;
  }
  claimed-IsCounted n s ReceiptStatus.blocked c = record {
    outcomes = omega (arith, c.outcomes);
    within = omega (arith, c.within);
    dry_claims = λ e. absurd (cc);
    wet_previews = c.wet_previews;
  }

  skipped-IsCounted : (n : ℕ) (s : Summary) → IsCounted false n s → IsCounted false (suc n) s
  skipped-IsCounted n s c = record {
    outcomes = c.outcomes;
    within = omega (arith, c.within);
    dry_claims = λ e. absurd (cc);
    wet_previews = c.wet_previews;
  }

  on_claimed-IsCounted :
      (o : Option Row) (n : ℕ) (s s' : Summary) (h h' : History)
      → IsCounted false n s
      → on_claimed env s o h ≡ (some s', h')
      → IsCounted false (suc n) s'
  on_claimed-IsCounted none n s s' h h' c e =
      rw (returned_value s s' h h' e) (skipped-IsCounted n s c)
  on_claimed-IsCounted (some row) n s s' h h' c e =
      let (o, _, e1) = >>=-returned _ _ h h' s' e in
      rw (returned_value _ s' _ h' e1) (claimed-IsCounted n s o.outcome c)

  row-IsCounted :
      (dry : Bool) (row : Row) (n : ℕ) (s s' : Summary) (h h' : History)
      → IsCounted dry n s
      → run_row env dry row s h ≡ (some s', h')
      → IsCounted dry (suc n) s'
  unfolding run_row
  row-IsCounted true row n s s' h h' c e =
      let (p, _, e1) = >>=-returned (preview_job env row) _ h h' s' e in
      rw (returned_value _ s' _ h' e1) (previewed-IsCounted n s p c)
  row-IsCounted false row n s s' h h' c e =
      let (o, _, e1) = >>=-returned (claim_row env row) (on_claimed env s) h h' s' e in
      on_claimed-IsCounted o n s s' _ h' c e1

  rows-IsCounted :
      (dry : Bool) (rows : List Row) (n m : ℕ) (s s' : Summary) (h h' : History)
      → n + length rows ≡ m
      → IsCounted dry n s
      → run_rows env dry rows s h ≡ (some s', h')
      → IsCounted dry m s'
  unfolding run_rows
  rows-IsCounted dry [] n m s s' h h' same c e =
      let eq : n ≡ m = omega (arith, same) in rw (returned_value s s' h h' e) (rw (← eq) c)
  rows-IsCounted dry (row ∷ rows) n m s s' h h' same c e =
      let (t, f, e1) = >>=-returned (run_row env dry row s) (run_rows env dry rows) h h' s' e in
      rows-IsCounted dry rows (suc n) m t s' _ h' (omega (arith, same))
        (row-IsCounted dry row n s t h _ c (ap (λ o. (o, (run_row env dry row s h).1)) f)) e1

  length-take : (n : ℕ) (rows : List Row) → length (take n rows) ≤ n
  length-take zero rows = omega arith
  length-take (suc n) [] = omega arith
  length-take (suc n) (row ∷ rows) = omega (arith, length-take n rows)

  -- Of a run that returns: the claimed jobs are those completed, failed and blocked, they and the
  -- previews are no more than the limit and no more than the jobs selected; a dry run claims none and
  -- previews each job within the limit, and any other run previews none.
  pub run_executor-IsCounted :
      (limit : ℕ) (dry : Bool) (rows : List Row) (s : Summary) (h h' : History)
      → env.jobs h ≡ answered rows
      → run_executor env limit dry h ≡ (some s, h')
      → IsCounted dry (length (take limit rows)) s × (length (take limit rows) ≤ limit)
  unfolding run_executor
  run_executor-IsCounted limit dry rows s h h' e f =
      let ran : run_executor env limit dry h
          ≡ run_rows env dry (take limit rows) no_jobs (select_jobs (at_least_one limit) ∷ h) =
        rw (e, run_executor) refl in
      (
        rows-IsCounted dry (take limit rows) 0 _ no_jobs s _ h' (omega arith) (none_counted dry)
            (sym ran ∙ f),
        length-take limit rows,
      )
    where
      none_counted : (dry : Bool) → IsCounted dry 0 no_jobs
      none_counted dry = record {
        outcomes = omega arith;
        within = omega arith;
        dry_claims = λ e. (refl, refl);
        wet_previews = λ e. refl;
      }
