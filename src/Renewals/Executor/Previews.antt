-- ===== src/Renewals/Executor/Previews.antt =====
-- The preview of a job against its execution.
use mathlib.Core.Path.{subst}
use rsg_hermes.Prelude.{
  ◌≡◌, refl, ◌∙◌, Bool, true, false, Option, none, some, ap, sym, inl, inr, ◌⊎◌, if◌then◌else◌,
  arith,
}
use rsg_hermes.Renewals.Executor.Calls.{
  History, Env, Reading, missing, ambiguous, found, find_policy_by_number, Reason, insured_inactive,
  ReceiptStatus, is_insured_active, status_dead, status_superseded,
}
use rsg_hermes.Renewals.Executor.Instruction.{action_named, JobContext, Row, Policy, load}
use rsg_hermes.Renewals.Executor.Finish.{◌>>=◌, return, JobOutcome}
use rsg_hermes.Renewals.Executor.Pipeline.{
  validate, Checked, stopped, authorized, revalidate_eligibility, lifecycle_of, guid_of,
}
use rsg_hermes.Renewals.Executor.Process.{
  noop_of, compared, on_revalidated, on_reading, on_checked, process_job,
}
use rsg_hermes.Renewals.Executor.Steps.{
  only, is_ams, find-Quiet, revalidate-Quiet, validate-Quiet, complete-Quiet,
}
use rsg_hermes.Renewals.Lifecycle.{is_dead, is_superseded}
use rsg_hermes.Renewals.Executor.Instructed.{IsInstructed, instructed}
use rsg_hermes.Renewals.Executor.Writes.{approved_writes, onto, perform_writes}
use rsg_hermes.Renewals.Executor.Filing.{>>=-returned, returned_value, block_value, complete_value}
use rsg_hermes.Renewals.Executor.Runs.{
  Preview, Verdict, would_block, would_noop, would_execute, verdict_of, previewed, preview_job,
}

module _ (env : Env) where
  -- Since its approval the policy that the job has read behind `g` has lost its insured, or has a dead or
  -- a superseded status, and the job is blocked for just that.
  abbrev pub HasDrifted : JobContext → Policy → JobOutcome → History → Type 0
  HasDrifted ctx p o g =
      (o.outcome ≡ ReceiptStatus.blocked)
      × (((is_insured_active env (guid_of p) (find_policy_by_number env ctx.policy_number g).1).0
              ≡ some false)
            × (o.reason ≡ some insured_inactive)
          ⊎ (is_dead (lifecycle_of p) ≡ true) × (o.reason ≡ some (status_dead (lifecycle_of p)))
          ⊎ (is_superseded (lifecycle_of p) ≡ true)
            × (o.reason ≡ some (status_superseded (lifecycle_of p))))

  -- The policy that a job reads behind `g`.
  abbrev pub IsRead : JobContext → Policy → History → Type 0
  IsRead ctx p g = (find_policy_by_number env ctx.policy_number g).0 ≡ some (found p)

  -- What a verdict says of the job's outcome and of the calls by which it changes the AMS, where the job
  -- is validated by `g`.
  abbrev pub Foretells : Verdict → JobContext → JobOutcome → History → History → History → Type 0
  Foretells (would_block r) ctx o g before after =
      (o.outcome ≡ ReceiptStatus.blocked) × (o.reason ≡ some r)
  Foretells would_noop ctx o g before after =
      (p : Policy) × IsRead ctx p g
      × (HasDrifted ctx p o g ⊎ (o.outcome ≡ ReceiptStatus.completed) × (after ≡ before))
  Foretells would_execute ctx o g before after =
      (p : Policy) × IsRead ctx p g
      × (HasDrifted ctx p o g ⊎ IsInstructed ctx p (action_named ctx.action) before after)

  drift :
      (p : Policy) (r : Reason) (h : History)
      → (revalidate_eligibility env p h).0 ≡ some (some r)
      → ((is_insured_active env (guid_of p) h).0 ≡ some false) × (some r ≡ some insured_inactive)
        ⊎ (is_dead (lifecycle_of p) ≡ true) × (some r ≡ some (status_dead (lifecycle_of p)))
        ⊎ (is_superseded (lifecycle_of p) ≡ true)
          × (some r ≡ some (status_superseded (lifecycle_of p)))
  unfolding revalidate_eligibility return ◌>>=◌
  drift p r h e = ground (arith, e)

  -- The part of a prediction behind the policy that has been read.
  abbrev Goes : JobContext → Policy → JobOutcome → Bool → History → History → History → Type 0
  Goes ctx p o true g before after =
      HasDrifted ctx p o g ⊎ (o.outcome ≡ ReceiptStatus.completed) × (after ≡ before)
  Goes ctx p o false g before after =
      HasDrifted ctx p o g ⊎ IsInstructed ctx p (action_named ctx.action) before after

  Goes-foretold :
      (ctx : JobContext) (p : Policy) (o : JobOutcome) (b : Bool) (g before after : History)
      → IsRead ctx p g
      → Goes ctx p o b g before after
      → Foretells (if b then would_noop else would_execute) ctx o g before after
  Goes-foretold ctx p o true g before after read goes = (p, read, goes)
  Goes-foretold ctx p o false g before after read goes = (p, read, goes)

  ready_foretold :
      (ctx : JobContext) (p : Policy) (g w h h' : History) (o : JobOutcome) (b : Bool)
      → only is_ams h ≡ w
      → compared env ctx p b h ≡ (some o, h')
      → Goes ctx p o b g w (only is_ams h')
  ready_foretold ctx p g w h h' o true quiet e = inr (
    (complete_value env ctx _ _ _ _ h h' o e).0,
    ap (λ r. only is_ams r.1) (sym e) ∙ ((complete-Quiet env ctx _ _ _ _).quiet h ∙ quiet),
  )
  ready_foretold ctx p g w h h' o false quiet e =
      let wrote : onto (approved_writes env ctx p (action_named ctx.action)) w ≡ only is_ams h' =
        ap (onto (approved_writes env ctx p (action_named ctx.action))) (sym quiet)
        ∙ (sym (perform_writes env ctx p h) ∙ ap (λ r. only is_ams r.1) e) in
      inr (
        subst (IsInstructed ctx p (action_named ctx.action) w) wrote
          (instructed env ctx p (action_named ctx.action) w))

  drifted_foretold :
      (ctx : JobContext) (p : Policy) (o : JobOutcome) (g w w' : History) (b : Bool)
      → HasDrifted ctx p o g
      → Goes ctx p o b g w w'
  drifted_foretold ctx p o g w w' true d = inl d
  drifted_foretold ctx p o g w w' false d = inl d

  reading_foretold :
      (ctx : JobContext) (x : Reading) (g h' : History) (o : JobOutcome)
      → (find_policy_by_number env ctx.policy_number g).0 ≡ some x
      → on_reading env ctx x (find_policy_by_number env ctx.policy_number g).1 ≡ (some o, h')
      → Foretells (verdict_of env ctx x) ctx o g (only is_ams g) (only is_ams h')
  reading_foretold ctx missing g h' o read e = block_value env ctx _ _ _ h' o e
  reading_foretold ctx (ambiguous n) g h' o read e = block_value env ctx _ _ _ h' o e
  reading_foretold ctx (found p) g h' o read e =
      let (r, f, e1) = >>=-returned _ _ _ h' o e in
      let first = (find-Quiet env {kind = is_ams} (λ n. refl) ctx.policy_number).quiet g in
      let second =
        (revalidate-Quiet env {kind = is_ams} (λ n. refl) p).quiet
          (find_policy_by_number env ctx.policy_number g).1 in
      Goes-foretold ctx p o (noop_of (action_named ctx.action) ctx p) g (only is_ams g)
        (only is_ams h') read (revalidated_foretold r f (second ∙ first) e1)
    where
      revalidated_foretold :
          (r : Option Reason)
          → (revalidate_eligibility env p (find_policy_by_number env ctx.policy_number g).1).0
            ≡ some r
          → only is_ams
              (revalidate_eligibility env p (find_policy_by_number env ctx.policy_number g).1).1
            ≡ only is_ams g
          → on_revalidated env ctx p r
              (revalidate_eligibility env p (find_policy_by_number env ctx.policy_number g).1).1
            ≡ (some o, h')
          → Goes ctx p o
              (noop_of (action_named ctx.action) ctx p)
              g
              (only is_ams g)
              (only is_ams h')
      revalidated_foretold none f quiet e1 = ready_foretold ctx p g _ _ h' o _ quiet e1
      revalidated_foretold (some r) f quiet e1 =
          let (blocked, why) = block_value env ctx r _ _ h' o e1 in
          drifted_foretold ctx p o g _ _ (noop_of (action_named ctx.action) ctx p) (
            blocked,
            elim (drift p r _ f) [
              | inl (gone, is) ↦ inl (gone, why ∙ is)
              | inr (inl (dead, is)) ↦ inr (inl (dead, why ∙ is))
              | inr (inr (over, is)) ↦ inr (inr (over, why ∙ is))
            ],
          )

  -- A job that is previewed, and then run behind the same calls, does what the verdict says. If it would
  -- block with a reason, the job ends blocked with that reason. Else the job has read a policy by its
  -- number, and unless that policy has drifted, a job that would be a no-op completes and writes nothing
  -- to the AMS, and a job that would execute writes what its instruction asks for of that policy,
  -- whatever it ends with. Drift, which the preview does not look for, blocks the job with its reason:
  -- the policy's insured counts as inactive, or its status is dead or superseded.
  pub preview-Foretells :
      (row : Row) (h g h' : History) (v : Preview) (o : JobOutcome)
      → preview_job env row h ≡ (some v, g)
      → process_job env row h ≡ (some o, h')
      → Foretells v.verdict v.context o
          (validate env (load row) h).1
          (only is_ams h)
          (only is_ams h')
  unfolding preview_job process_job
  preview-Foretells row h g h' v o e f =
      let (c, c_is, e1) =
        >>=-returned (validate env (load row)) (previewed env (load row)) h g v e in
      let (d, d_is, f1) =
        >>=-returned (validate env (load row)) (on_checked env (load row)) h h' o f in
      let same : c ≡ d = cc in
      let first = (validate-Quiet env {kind = is_ams} (λ n. refl) (load row)).quiet h in
      subst (λ w. Foretells v.verdict v.context o (validate env (load row) h).1 w (only is_ams h'))
        first
        (checked_foretold c (λ i. e1 i)
          (subst (λ x. on_checked env (load row) x (validate env (load row) h).1 ≡ (some o, h'))
            (sym same) f1))
    where
      checked_foretold :
          (c : Checked)
          → previewed env (load row) c (validate env (load row) h).1 ≡ (some v, g)
          → on_checked env (load row) c (validate env (load row) h).1 ≡ (some o, h')
          → Foretells v.verdict v.context o
              (validate env (load row) h).1
              (only is_ams (validate env (load row) h).1)
              (only is_ams h')
      checked_foretold (stopped r) e1 f1 =
          rw (returned_value _ v _ g e1) (block_value env (load row) r _ _ h' o f1)
      checked_foretold (authorized ctx) e1 f1 =
          let h1 = (validate env (load row) h).1 in
          let (x, x_is, e2) =
            >>=-returned (find_policy_by_number env ctx.policy_number) _ h1 g v e1 in
          let (y, y_is, f2) =
            >>=-returned (find_policy_by_number env ctx.policy_number) (on_reading env ctx) h1 h' o
              f1 in
          let same : x ≡ y = cc in
          rw (returned_value _ v _ g e2) (rw same (reading_foretold ctx y h1 h' o y_is f2))
