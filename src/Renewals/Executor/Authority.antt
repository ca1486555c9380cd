-- ===== src/Renewals/Executor/Authority.antt =====
-- A job writes to the AMS only when it is authorized, and then what has been approved.
use mathlib.Core.Path.{subst}
use rsg_hermes.Renewals.Lifecycle.{Lifecycle, is_dead, is_superseded}
use rsg_hermes.Renewals.Executor.Instructed.{
  IsApproved, IsApproved-if_complete, IsInstructed, instructed,
}
use rsg_hermes.Prelude.{
  ◌≡◌, refl, ◌∙◌, Bool, true, false, Option, none, some, List, [], ◌∷◌, arith, inl, inr, ◌⊎◌, ap,
  sym, Option-cases,
}
use rsg_hermes.Prelude.Text.{Text}
use rsg_hermes.Renewals.Executor.Calls.{
  History, Env, Answer, answered, client_error, raised, attempt, select_renewal, missing, ambiguous,
  found, find_policy_by_number, is_insured_active, Reason, renewal_lookup_failed,
}
use rsg_hermes.Renewals.Executor.Instruction.{action_named, JobContext, Row, Policy, load}
use rsg_hermes.Renewals.Executor.Finish.{◌>>=◌, return}
use rsg_hermes.Renewals.Executor.Pipeline.{
  lifecycle_stop, lifecycle_of, guid_of, incomplete, validate, Checked, stopped, authorized,
  with_renewal, revalidate_eligibility,
}
use rsg_hermes.Renewals.Executor.Process.{
  noop_of, compared, on_revalidated, on_reading, on_checked, process_job,
}
use rsg_hermes.Renewals.Executor.Steps.{
  only, is_ams, >>=-cases, complete-Quiet, block-Quiet, find-Quiet, revalidate-Quiet,
  validate-Quiet,
}
use rsg_hermes.Renewals.Executor.Writes.{approved_writes, onto, perform_writes}

-- The context with the renewal that `_validate` has found.
abbrev pub linked : JobContext → Text → JobContext
linked ctx i = record ctx { renewal_row = some i }

goes_on :
    (s : Lifecycle) → lifecycle_stop s ≡ none → (is_dead s ≡ false) × (is_superseded s ≡ false)
goes_on s h = ground (arith, h)

module _ (env : Env) where
  -- The policy as it is read has passed the insured and the lifecycle, and is not in the approved state.
  pub record IsReady (ctx : JobContext) (before : Policy) (g : History) : Type 0 where
    pub read : (find_policy_by_number env ctx.policy_number g).0 ≡ some (found before)
    pub insured :
        (is_insured_active env (guid_of before) (find_policy_by_number env ctx.policy_number g).1).0
        ≡ some true
    pub live : is_dead (lifecycle_of before) ≡ false
    pub not_superseded : is_superseded (lifecycle_of before) ≡ false
    pub changed : noop_of (action_named ctx.action) ctx before ≡ false

  -- The instruction is complete, and its renewal is there.
  pub record IsAuthorized (ctx : JobContext) (i : Text) (h : History) : Type 0 where
    pub approved : IsApproved ctx
    pub others : List Text
    pub renewal : env.renewals ctx.renewal_id h ≡ answered (i ∷ others)

  revalidate-none :
      (p : Policy) (g : History)
      → (revalidate_eligibility env p g).0 ≡ some none
      → ((is_insured_active env (guid_of p) g).0 ≡ some true)
        × (lifecycle_stop (lifecycle_of p) ≡ none)
  unfolding revalidate_eligibility return ◌>>=◌
  revalidate-none p g e = ground arith

  -- The answer to the look-up of the renewal.
  looking : JobContext → Answer (List Text) → History → Option Checked × History
  looking ctx answer h =
      attempt answer (λ rows. return (with_renewal ctx rows))
        (return (stopped renewal_lookup_failed)) (select_renewal ctx.renewal_id ∷ h)

  looking-authorized :
      (ctx ctx' : JobContext) (answer : Answer (List Text)) (h : History)
      → (looking ctx answer h).0 ≡ some (authorized ctx')
      → (i : Text) × (others : List Text) × (answer ≡ answered (i ∷ others))
        × (ctx' ≡ linked ctx i)
        × ((looking ctx answer h).1 ≡ select_renewal ctx.renewal_id ∷ h)
  unfolding looking return
  looking-authorized ctx ctx' (answered []) h e = cc
  looking-authorized ctx ctx' (answered (i ∷ others)) h e = (i, others, refl, cc, refl)
  looking-authorized ctx ctx' client_error h e = cc
  looking-authorized ctx ctx' raised h e = cc

  pub validate-authorized :
      (ctx ctx' : JobContext) (h : History)
      → (validate env ctx h).0 ≡ some (authorized ctx')
      → (i : Text) × IsAuthorized ctx i h
        × (ctx' ≡ linked ctx i)
        × ((validate env ctx h).1 ≡ select_renewal ctx.renewal_id ∷ h)
  unfolding validate looking
  validate-authorized ctx ctx' h e = elim (Option-cases (incomplete ctx)) [
    | inr (r, stop) ↦ absurd (cc (ap (λ v. v) e, validate-stopped r stop))
    | inl clear ↦
        (let step : validate env ctx h ≡ looking ctx (env.renewals ctx.renewal_id h) h =
            rw (clear, validate) refl in
          let (i, others, found_it, same, after) =
            looking-authorized ctx ctx' (env.renewals ctx.renewal_id h) h
              (ap (λ r. r.0) (sym step) ∙ e) in
          (
            i,
            record {
              approved = IsApproved-if_complete ctx clear;
              others = others;
              renewal = found_it;
            },
            same,
            ap (λ r. r.1) step ∙ after,
          ))
  ]
    where
      validate-stopped :
          (r : Reason) → incomplete ctx ≡ some r → (validate env ctx h).0 ≡ some (stopped r)
      validate-stopped r stop = rw (stop, validate) refl

  -- The calls of a job to the AMS, from the comparison on.
  compared_writes :
      (ctx : JobContext) (p : Policy) (b : Bool) (h : History)
      → noop_of (action_named ctx.action) ctx p ≡ b
      → (only is_ams (compared env ctx p b h).1 ≡ only is_ams h)
        ⊎ (noop_of (action_named ctx.action) ctx p ≡ false)
          × (only is_ams (compared env ctx p b h).1
              ≡ onto (approved_writes env ctx p (action_named ctx.action)) (only is_ams h))
  compared_writes ctx p true h e = inl ((complete-Quiet env ctx _ _ _ _).quiet h)
  compared_writes ctx p false h e = inr (e, perform_writes env ctx p h)

  -- The job either writes nothing, or what its instruction asks for, of a policy that is ready.
  abbrev pub WritesApproved : JobContext → History → History → History → Type 0
  WritesApproved ctx g h after =
      (only is_ams after ≡ only is_ams h)
      ⊎ ((p : Policy) × IsReady ctx p g
          × (only is_ams after
              ≡ onto (approved_writes env ctx p (action_named ctx.action)) (only is_ams h)))

  compared_ready :
      (ctx : JobContext) (p : Policy) (g : History) (h : History)
      → (find_policy_by_number env ctx.policy_number g).0 ≡ some (found p)
      → only is_ams h ≡ only is_ams g
      → ((is_insured_active env (guid_of p) (find_policy_by_number env ctx.policy_number g).1).0
          ≡ some true)
        × (lifecycle_stop (lifecycle_of p) ≡ none)
      → WritesApproved ctx g g (compared env ctx p (noop_of (action_named ctx.action) ctx p) h).1
  compared_ready ctx p g h e same ok =
      elim (compared_writes ctx p (noop_of (action_named ctx.action) ctx p) h refl) [
        | inl w ↦ inl (w ∙ same)
        | inr (changed, w) ↦ inr (
          p,
          record {
            read = e;
            insured = ok.0;
            live = (goes_on _ ok.1).0;
            not_superseded = (goes_on _ ok.1).1;
            changed = changed;
          },
          w ∙ ap (onto (approved_writes env ctx p (action_named ctx.action))) same,
        )
      ]

  ready_writes :
      (ctx : JobContext) (p : Policy) (g : History)
      → (find_policy_by_number env ctx.policy_number g).0 ≡ some (found p)
      → WritesApproved ctx g g
          ((revalidate_eligibility env p >>= on_revalidated env ctx p)
            (find_policy_by_number env ctx.policy_number g).1).1
  ready_writes ctx p g e =
      let first = (find-Quiet env {kind = is_ams} (λ n. refl) ctx.policy_number).quiet g in
      let second =
        (revalidate-Quiet env {kind = is_ams} (λ n. refl) p).quiet
          (find_policy_by_number env ctx.policy_number g).1 in
      elim (>>=-cases (revalidate_eligibility env p) (on_revalidated env ctx p)
        (find_policy_by_number env ctx.policy_number g).1) [
          | inl (f, step) ↦ inl (rw step (second ∙ first))
          | inr (some r, f, step) ↦
              inl (rw step ((block-Quiet env ctx r _).quiet _ ∙ (second ∙ first)))
          | inr (none, f, step) ↦
              rw step (compared_ready ctx p g _ e (second ∙ first) (revalidate-none p _ f))
        ]

  reading_writes :
      (ctx : JobContext) (g : History)
      → WritesApproved ctx g g
          ((find_policy_by_number env ctx.policy_number >>= on_reading env ctx) g).1
  reading_writes ctx g =
      let first = (find-Quiet env {kind = is_ams} (λ n. refl) ctx.policy_number).quiet g in
      elim (>>=-cases (find_policy_by_number env ctx.policy_number) (on_reading env ctx) g) [
        | inl (e, step) ↦ inl (rw step first)
        | inr (missing, e, step) ↦ inl (rw step ((block-Quiet env ctx _ _).quiet _ ∙ first))
        | inr (ambiguous n, e, step) ↦ inl (rw step ((block-Quiet env ctx _ _).quiet _ ∙ first))
        | inr (found p, e, step) ↦ rw step (ready_writes ctx p g e)
      ]

  job_writes_built :
      (row : Row) (h : History)
      → (only is_ams (process_job env row h).1 ≡ only is_ams h)
        ⊎ ((i : Text) × (p : Policy) × IsAuthorized (load row) i h
            × IsReady (linked (load row) i) p (select_renewal (load row).renewal_id ∷ h)
            × (only is_ams (process_job env row h).1
                ≡ onto
                    (approved_writes env (linked (load row) i) p (action_named (load row).action))
                    (only is_ams h)))
  unfolding process_job
  job_writes_built row h =
      let first = (validate-Quiet env {kind = is_ams} (λ n. refl) (load row)).quiet h in
      elim (>>=-cases (validate env (load row)) (on_checked env (load row)) h) [
        | inl (e, step) ↦ inl (rw step first)
        | inr (stopped r, e, step) ↦ inl (rw step ((block-Quiet env _ _ _).quiet _ ∙ first))
        | inr (authorized ctx, e, step) ↦
            let (i, ok, same, after) = validate-authorized (load row) ctx h e in
            elim (reading_writes (linked (load row) i) (select_renewal (load row).renewal_id ∷ h)) [
              | inl w ↦ inl (rw step (rw after (rw same w)))
              | inr (p, ready, w) ↦ inr (i, p, ok, ready, rw step (rw after (rw same w)))
            ]
      ]

  -- Whatever the calls answer, a job writes nothing to the AMS, or what its instruction asks for, once:
  -- the policy with the approved values and its id and nothing else, or a note of the renewal or a task
  -- on the policy. It writes only if the instruction is of a known action, somebody has approved it at
  -- some time, and it names a policy, a renewal and an expected result, an update also fields; if the
  -- linked renewal is there and the policy has been read by its number; and if its insured counts as
  -- active, its status is neither dead nor superseded, and an update would change it.
  pub job_writes :
      (row : Row) (h : History)
      → (only is_ams (process_job env row h).1 ≡ only is_ams h)
        ⊎ ((i : Text) × (p : Policy) × IsAuthorized (load row) i h
            × IsReady (linked (load row) i) p (select_renewal (load row).renewal_id ∷ h)
            × IsInstructed
                (linked (load row) i)
                p
                (action_named (load row).action)
                (only is_ams h)
                (only is_ams (process_job env row h).1))
  job_writes row h = elim (job_writes_built row h) [
    | inl none_made ↦ inl none_made
    | inr (i, p, ok, ready, wrote) ↦
        let ctx = linked (load row) i in
        inr (
          i,
          p,
          ok,
          ready,
          subst (IsInstructed ctx p (action_named (load row).action) (only is_ams h)) (sym wrote)
              (instructed env ctx p (action_named (load row).action) (only is_ams h)),
        )
  ]
