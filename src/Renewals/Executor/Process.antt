-- ===== src/Renewals/Executor/Process.antt =====
-- hermes/renewals/executor.py: the verification of an action, and `process_job`. Since the AMS client
-- reads a refused GET as no policy, the handlers of its error behind a read are never run.
use rsg_hermes.Prelude.{Bool, true, false, Option, none, some, List, [], ◌∷◌}
use rsg_hermes.Prelude.Text.{Text}
use rsg_hermes.Renewals.Executor.Instruction.{
  Action, prepare_options, update_ams, action_named, Row, JobContext, load, Policy, mismatched,
  is_noop,
}
use rsg_hermes.Renewals.Executor.Calls.{
  Reason, missing_mapping, duplicate_policies, execute_failed, reread_empty, no_created_id,
  not_persisted, already_matches, Response, Evidence, policy, matches, created_id, response, Ids,
  no_ids, policy_database_id, Step, Env, Reading, missing, ambiguous, found, find_policy_by_number,
  extract_created_id,
}
use rsg_hermes.Renewals.Executor.Finish.{JobOutcome, ◌>>=◌, return, complete, block, fail}
use rsg_hermes.Renewals.Executor.Pipeline.{
  Checked, stopped, authorized, validate, revalidate_eligibility, database_id, Executed, done,
  refused, execute,
}

-- What `_verify` returns: the state behind the action, or why it does not count as done.
pub data Check : Type 0 where
  confirmed : Evidence → Check
  unconfirmed : Reason → Option Evidence → Check

abbrev pub compare_fields : Policy → List Text → Check
compare_fields after [] = confirmed (policy after)
compare_fields after (k ∷ ks) = unconfirmed (not_persisted (k ∷ ks)) (some (policy after))

unfoldable pub check_update : JobContext → Reading → Check
check_update ctx missing = unconfirmed reread_empty none
check_update ctx (ambiguous n) = unconfirmed reread_empty (some (matches n))
check_update ctx (found []) = unconfirmed reread_empty (some (policy []))
check_update ctx (found (f ∷ after)) =
    compare_fields (f ∷ after) (mismatched (f ∷ after) ctx.fields)

abbrev pub check_created : Response → Option Text → Check
check_created r (some i) = confirmed (created_id i)
check_created r none = unconfirmed no_created_id (some (response r))

-- The action is an update that finds its values in place.
abbrev pub noop_of : Option Action → JobContext → Policy → Bool
noop_of (some update_ams) ctx before = is_noop before ctx.fields
noop_of _ ctx before = false

module _ (env : Env) where
  unfoldable pub verify : JobContext → Option Action → Response → Policy → Step Check
  verify ctx (some prepare_options) r before h = (some (confirmed (policy before)), h)
  verify ctx (some update_ams) r before h =
      (find_policy_by_number env ctx.policy_number >>= λ after. return (check_update ctx after)) h
  verify ctx _ r before h = (some (check_created r (extract_created_id r)), h)

  abbrev pub on_check : JobContext → Policy → Ids → Check → Step JobOutcome
  on_check ctx before ids (confirmed after) = complete env ctx (policy before) after ids none
  on_check ctx before ids (unconfirmed r after) = fail env ctx r (some (policy before)) after ids

  -- From `_verify` on.
  abbrev pub on_executed : JobContext → Policy → Executed → Step JobOutcome
  on_executed ctx before refused = fail env ctx execute_failed (some (policy before)) none no_ids
  on_executed ctx before (done r ids) =
      verify ctx (action_named ctx.action) r before >>= on_check ctx before ids

  -- From `_execute` on.
  unfoldable pub perform : JobContext → Policy → Step JobOutcome
  perform ctx before = execute env ctx (action_named ctx.action) before >>= on_executed ctx before

  -- From the comparison with the approved values on.
  abbrev pub compared : JobContext → Policy → Bool → Step JobOutcome
  compared ctx before true =
      complete env ctx (policy before) (policy before) (policy_database_id (database_id before))
        (some already_matches)
  compared ctx before false = perform ctx before

  abbrev pub on_revalidated : JobContext → Policy → Option Reason → Step JobOutcome
  on_revalidated ctx before (some r) = block env ctx r (some (policy before))
  on_revalidated ctx before none =
      compared ctx before (noop_of (action_named ctx.action) ctx before)

  -- From the read of the policy on.
  abbrev pub on_reading : JobContext → Reading → Step JobOutcome
  on_reading ctx missing = block env ctx missing_mapping none
  on_reading ctx (ambiguous n) = block env ctx duplicate_policies (some (matches n))
  on_reading ctx (found before) = revalidate_eligibility env before >>= on_revalidated ctx before

  abbrev pub on_checked : JobContext → Checked → Step JobOutcome
  on_checked ctx (stopped r) = block env ctx r none
  on_checked ctx (authorized ctx') =
      find_policy_by_number env ctx'.policy_number >>= on_reading ctx'

  unfoldable pub process_job : Row → Step JobOutcome
  process_job row = validate env (load row) >>= on_checked (load row)
