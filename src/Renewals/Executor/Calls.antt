-- ===== src/Renewals/Executor/Calls.antt =====
-- The calls that leave hermes/renewals/executor.py, recorded in a history, latest first, and answered by
-- an environment that may look at the whole history. `find_policy_by_number` and `is_insured_active` are
-- those of packages/rsg-hermes-core/hermes_integrations/nowcerts_client.py, over its GET requests.
use rsg_hermes.Prelude.{ℕ, ◌+◌, Bool, true, Option, none, some, List, [], ◌∷◌, length}
use rsg_hermes.Prelude.Text.{Text, codes}
use rsg_hermes.Prelude.Dict.{Dict, get}
use rsg_hermes.Overrides.{Value}
use rsg_hermes.Queue.{Status}
use rsg_hermes.Renewals.Lifecycle.{Lifecycle}
use rsg_hermes.Renewals.Executor.Instruction.{Row, JobContext, Policy}

-- Why a job is stopped, or a note on its completion.
pub data Reason : Type 0 where
  unknown_action missing_approval missing_policy_number : Reason
  missing_expected_result missing_renewal_id missing_fields : Reason
  renewal_lookup_failed renewal_not_found : Reason
  missing_mapping duplicate_policies : Reason
  insured_inactive : Reason
  status_dead status_superseded : Lifecycle → Reason
  execute_failed : Reason
  reread_empty no_created_id : Reason
  not_persisted : List Text → Reason
  unexpected_error : Reason
  already_matches : Reason

pub data Due : Type 0 where
  on_date : Text → Due
  on_day : ℕ → Due

-- The body of `insert_task`.
pub record Task : Type 0 where
  pub title : Text
  pub status : Text
  pub priority : Text
  pub due_date : Due
  pub description : Text
  pub insured_database_id : Value
  pub policy_number : Text
  pub category_name : Text

-- The body of `manage_notes`.
pub record Note : Type 0 where
  pub database_id : Value
  pub title : Text
  pub note : Text
  pub renewal_id : Text

-- What a create answers: a dict with its `data`, or no dict.
pub data Response : Type 0 where
  other : Response
  created : Dict Text → Dict Text → Response

-- What a receipt keeps of the policy before and behind the action.
pub data Evidence : Type 0 where
  policy : Policy → Evidence
  matches : ℕ → Evidence
  created_id : Text → Evidence
  response : Response → Evidence

pub data Ids : Type 0 where
  no_ids : Ids
  policy_database_id : Value → Ids
  note_id : Option Text → Ids
  task_ids : Option Text → Value → Ids

pub data ReceiptStatus : Type 0 where
  completed failed blocked : ReceiptStatus

pub record Receipt : Type 0 where
  pub context : JobContext
  pub status : ReceiptStatus
  pub verified : Bool
  pub before_state : Option Evidence
  pub after_state : Option Evidence
  pub nowcerts_ids : Ids
  pub error : Option Reason

pub data Trail : Type 0 where
  request_terms prepare_options client_follow_up ams_update : Trail
  execution_blocked execution_failed : Trail

pub data Call : Type 0 where
  select_jobs : ℕ → Call
  claim : Text → Call
  select_renewal get_policy get_insured : Text → Call
  update_policy : Policy → Call
  insert_task : Task → Call
  manage_notes : Note → Call
  insert_receipt : Receipt → Call
  update_queue : Text → Status → Option Reason → Call
  insert_action : Text → Trail → Call
  insert_guardrail : JobContext → ReceiptStatus → Reason → Call
  post_message : JobContext → ReceiptStatus → Reason → Call

abbrev pub History : Type 0
History = List Call

-- A call answers, raises the error of its client, or raises another exception.
pub data Answer (A : Type 0) : Type 0 where
  answered : A → Answer A
  client_error raised : Answer A

-- What each call answers behind a history. `policies` are the rows of a GET by number, a row that is no
-- dict being `none`; `insureds` is the `active` flag of the first row, if there is such a row and flag.
pub record Env : Type 0 where
  pub today : ℕ
  pub jobs : History → Answer (List Row)
  pub claims : Text → History → Answer (List Row)
  pub renewals : Text → History → Answer (List Text)
  pub policies : Text → History → Answer (List (Option Policy))
  pub insureds : Text → History → Answer (Option Bool)
  pub updates : History → Answer (Unit {0})
  pub tasks : History → Answer Response
  pub notes : History → Answer Response
  pub receipts : History → Answer (Option Text)
  pub statuses : History → Answer (Unit {0})
  pub actions : History → Answer (Unit {0})
  pub guardrails : History → Answer (Unit {0})

-- A part of the executor; `none` is an exception that it lets through.
abbrev pub Step : Type 0 → Type 0
Step A = History → Option A × History

module _ {A B : Type 0} where
  -- `try: a = call() except ClientError: return refused`, and the code behind it.
  abbrev pub attempt : Answer A → (A → Step B) → Step B → Step B
  attempt (answered a) k refused h = k a h
  attempt client_error k refused h = refused h
  attempt raised k refused h = (none, h)

-- What `find_policy_by_number` returns: `None`, a dict with `_ambiguous`, or a policy.
pub data Reading : Type 0 where
  missing : Reading
  ambiguous : ℕ → Reading
  found : Policy → Reading

abbrev pub reading_of : List (Option Policy) → Reading
reading_of [] = missing
reading_of (none ∷ []) = missing
reading_of (some p ∷ []) = found p
reading_of (p ∷ q ∷ rest) = ambiguous (2 + length rest)

-- `active is None` counts as active.
abbrev pub flag_of : Option Bool → Bool
flag_of none = true
flag_of (some b) = b

module _ (env : Env) where
  -- A GET that is refused reads as no policy.
  unfoldable pub find_policy_by_number : Text → Step Reading
  find_policy_by_number [] h = (some missing, h)
  find_policy_by_number (c ∷ s) h =
      attempt (env.policies (c ∷ s) h) (λ rows g. (some (reading_of rows), g))
        (λ g. (some missing, g)) (get_policy (c ∷ s) ∷ h)

  unfoldable pub is_insured_active : Text → Step Bool
  is_insured_active [] h = (some true, h)
  is_insured_active (c ∷ s) h =
      attempt (env.insureds (c ∷ s) h) (λ flag g. (some (flag_of flag), g)) (λ g. (some true, g))
        (get_insured (c ∷ s) ∷ h)

-- The inner loop of `extract_created_id`.
abbrev pub id_in : List Text → Dict Text → Option Text
id_in [] d = none
id_in (k ∷ ks) d = elim (get k d) [ some (c ∷ s) ↦ some (c ∷ s) | _ ↦ id_in ks d ]

abbrev pub id_keys : List Text
id_keys =
    codes "database_id" ∷ codes "databaseId" ∷ codes "noteId" ∷ codes "note_id" ∷ codes "id" ∷ []

unfoldable pub extract_created_id : Response → Option Text
extract_created_id other = none
extract_created_id (created top nested) = elim (id_in id_keys top) [
  | some i ↦ some i
  | none ↦ id_in id_keys nested
]
