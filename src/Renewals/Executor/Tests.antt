-- ===== src/Renewals/Executor/Tests.antt =====
-- An update of a premium that the AMS keeps, and a policy that has been cancelled.
use rsg_hermes.Prelude.{◌≡◌, refl, Bool, true, false, none, some, [], ◌∷◌, if◌then◌else◌, ◌⊎◌, ◌≤◌}
use rsg_hermes.Prelude.Int.{pos}
use rsg_hermes.Prelude.Text.{Text, codes, strip}
use rsg_hermes.Prelude.Dict.{get}
use rsg_hermes.Overrides.{Value, num, text}
use rsg_hermes.Renewals.Lifecycle.{normalize_status, cancelled}
use rsg_hermes.Renewals.Executor.Calls.{
  History, Env, Answer, answered, update_policy, select_renewal, ReceiptStatus, policy_database_id,
  no_ids, status_dead, find_policy_by_number, is_insured_active,
}
use rsg_hermes.Renewals.Executor.Instruction.{
  action_named, Row, Policy, load, current_value, values_equal, is_noop,
}
use rsg_hermes.Renewals.Executor.Finish.{
  ◌>>=◌, return, JobOutcome, write_receipt, set_queue_status, log_trail, log_guardrail, escalate,
  complete, terminal, block,
}
use rsg_hermes.Renewals.Executor.Pipeline.{
  incomplete, validate, guid_of, lifecycle_of, revalidate_eligibility, database_id, execute,
}
use rsg_hermes.Renewals.Executor.Process.{check_update, verify, perform, process_job}
use rsg_hermes.Renewals.Executor.Steps.{only, is_ams}
use rsg_hermes.Renewals.Executor.Authority.{IsAuthorized, IsReady, linked, job_writes}
use rsg_hermes.Renewals.Executor.Instructed.{IsInstructed}
use rsg_hermes.Renewals.Executor.Filing.{IsFiled}
use rsg_hermes.Renewals.Executor.Receipts.{job_files}
use rsg_hermes.Renewals.Executor.Verified.{completed-IsProven}
use rsg_hermes.Renewals.Executor.Proofs.{IsProven}
use rsg_hermes.Renewals.Executor.Runs.{
  Preview, would_execute, preview_job, claim_row, guarded_job, run_row, run_rows, run_executor,
}
use rsg_hermes.Renewals.Executor.Counts.{
  IsCounted, is_change, run_executor-IsCounted, dry_run_changes_nothing,
}
use rsg_hermes.Renewals.Executor.Previews.{Foretells, preview-Foretells}

abbrev policy_with : Text → Value → Policy
policy_with status premium =
    (codes "databaseId", text (codes "P1"))
    ∷ (codes "insuredDatabaseId", text (codes "G1"))
    ∷ (codes "status", text status)
    ∷ (codes "totalPremium", premium)
    ∷ []

abbrev is_updated : History → Bool
is_updated [] = false
is_updated (update_policy p ∷ h) = true
is_updated (c ∷ h) = is_updated h

abbrev job : Row
job = record {
  id = codes "J1";
  approved_by = some (codes "ana");
  approved_at = some (codes "2026-01-01");
  payload =
      (codes "action", codes " update_ams ")
      ∷ (codes "renewal_id", codes "N1")
      ∷ (codes "policy_number", codes "AB-1")
      ∷ (codes "expected_result", codes "premium")
      ∷ [];
  payload_fields = (codes "TotalPremium", num (pos 1200000000)) ∷ [];
  due_in_days = none;
}

abbrev world : Text → Env
world status = record {
  today = 739000;
  jobs = λ h. answered (job ∷ []);
  claims = λ i h. answered (job ∷ []);
  renewals = λ i h. answered (i ∷ []);
  policies = λ n h. answered (
      some (policy_with status (num (pos (if is_updated h then 1200000000 else 1000000000)))) ∷ []);
  insureds = λ i h. answered (some true);
  updates = λ h. answered tt;
  tasks = λ h. Answer.raised;
  notes = λ h. Answer.raised;
  receipts = λ h. answered (some (codes "R1"));
  statuses = λ h. answered tt;
  actions = λ h. answered tt;
  guardrails = λ h. Answer.client_error;
}

abbrev live : Env
live = world (codes "In Force")

abbrev cancelled_since : Env
cancelled_since = world (codes "Canceled")

abbrev updated : JobOutcome
updated = record {
  outcome = ReceiptStatus.completed;
  reason = none;
  receipt_id = some (codes "R1");
  verified = true;
  nowcerts_ids = policy_database_id (text (codes "P1"));
}

update_completes : process_job live job [] ≡ (some updated, (process_job live job []).1)
unfolding process_job load strip get validate incomplete action_named ◌>>=◌ return
    find_policy_by_number revalidate_eligibility is_insured_active guid_of lifecycle_of
    normalize_status is_noop current_value values_equal perform execute verify check_update complete
    write_receipt set_queue_status log_trail database_id
update_completes = refl

job_writes_example :
    (only is_ams (process_job live job []).1 ≡ [])
    ⊎ ((i : Text) × (p : Policy) × IsAuthorized live (load job) i []
        × IsReady live (linked (load job) i) p (select_renewal (load job).renewal_id ∷ [])
        × IsInstructed
            (linked (load job) i)
            p
            (action_named (load job).action)
            []
            (only is_ams (process_job live job []).1))
job_writes_example = job_writes live job []

job_files_example : IsFiled live (codes "J1") [] updated (process_job live job []).1
job_files_example = job_files live job [] (process_job live job []).1 updated update_completes

completed-IsProven_example :
    IsProven live
      (load job)
      (action_named (load job).action)
      (only is_ams (process_job live job []).1)
completed-IsProven_example =
    completed-IsProven live job [] (process_job live job []).1 updated update_completes refl

dry_run_changes_nothing_example : only is_change (run_executor live 1 true []).1 ≡ []
dry_run_changes_nothing_example = dry_run_changes_nothing live 1 []

one_completed : run_executor live 1 false [] ≡ (
  some (record { claimed = 1; completed = 1; failed = 0; blocked = 0; previews = [] }),
  (run_executor live 1 false []).1,
)
unfolding run_executor run_rows run_row claim_row guarded_job process_job load strip get validate
    incomplete action_named ◌>>=◌ return find_policy_by_number revalidate_eligibility
    is_insured_active guid_of lifecycle_of normalize_status is_noop current_value values_equal
    perform execute verify check_update complete write_receipt set_queue_status log_trail
    database_id
one_completed = refl

run_executor-IsCounted_example :
    IsCounted false 1
      (record { claimed = 1; completed = 1; failed = 0; blocked = 0; previews = [] })
    × (1 ≤ 1)
run_executor-IsCounted_example =
    run_executor-IsCounted live 1 false (job ∷ []) _ [] (run_executor live 1 false []).1 refl
      one_completed

abbrev would_run : Preview
would_run = record { context = linked (load job) (codes "N1"); verdict = would_execute }

abbrev stopped_dead : JobOutcome
stopped_dead = record {
  outcome = ReceiptStatus.blocked;
  reason = some (status_dead cancelled);
  receipt_id = some (codes "R1");
  verified = false;
  nowcerts_ids = no_ids;
}

-- The preview would execute the update of a policy that has been cancelled.
cancelled_previews :
    preview_job cancelled_since job [] ≡ (some would_run, (preview_job cancelled_since job []).1)
unfolding preview_job load strip get validate incomplete action_named ◌>>=◌ return
    find_policy_by_number is_noop current_value values_equal
cancelled_previews = refl

cancelled_blocks :
    process_job cancelled_since job [] ≡ (some stopped_dead, (process_job cancelled_since job []).1)
unfolding process_job load strip get validate incomplete action_named ◌>>=◌ return
    find_policy_by_number revalidate_eligibility is_insured_active guid_of lifecycle_of
    normalize_status block terminal write_receipt set_queue_status log_trail log_guardrail escalate
cancelled_blocks = refl

preview-Foretells_example :
    Foretells cancelled_since would_execute
      (linked (load job) (codes "N1"))
      stopped_dead
      (validate cancelled_since (load job) []).1
      []
      (only is_ams (process_job cancelled_since job []).1)
preview-Foretells_example =
    preview-Foretells cancelled_since job [] (preview_job cancelled_since job []).1
      (process_job cancelled_since job []).1 would_run stopped_dead cancelled_previews
      cancelled_blocks
