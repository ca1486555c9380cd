-- ===== src/Lib.antt =====
-- RSG Hermes: the queue of outbound work, its scheduler and its renewal executor, and commissions
-- from the statement to the ledger.
--
-- Hermes writes an insurance agency's work to outside systems. A row of `outbound_sync_queue` is
-- a job; a scheduler takes a lease that its replicas share, puts failed jobs back with a backoff
-- or buries them, frees jobs whose executor died, and runs the executors. Before a policy
-- expires, a rule says whether it is an upcoming renewal, and a cadence which touches are due; an
-- approved instruction is checked, executed against the AMS and verified. Apart from that,
-- people's corrections of synced values outrank their source until it catches up, and commission
-- statements are staged, reviewed, committed and matched with the rows of a ledger, and each
-- row's actual commission is summed and judged.
--
-- The files, and the code that each is about (paths from the repository's root):
--   * Prelude and its children: shared tests on numbers, lists, integers, Python's text methods
--     and dicts. No code of the repository.
--   * Python/Date, Python/Decimal: `date.fromisoformat` on YYYY-MM-DD and `Decimal` on plain
--     decimals, as hermes/commissions/reconcile.py uses them (`_parse_date`, `_dec`).
--   * Queue: packages/rsg-hermes-core/hermes_core/queue.py, the row of a job, and the contract
--     `QueueApi` of the database client.
--   * Services: `SERVICES[…].queue_object_types` of hermes/services.py and the scopes of
--     hermes/scheduler/runner.py. Services/Partition has the theorems.
--   * Scheduler/Backoff, Scheduler/Retry: hermes/scheduler/retry.py (`compute_backoff_seconds`,
--     `requeue_or_deadletter`, `reclaim_stalled`). Retry/Sweep and Retry/Outcome prove what a
--     pass does to each row; Retry/Lifecycle adds `_claim` and `_set_queue_status` of
--     hermes/renewals/executor.py, as a step relation on one row. Only `_claim` is filtered by
--     the status there; the other writes go by the row's id, whatever its status is by then.
--     Passes write attempts, one pass at a time under the lease.
--   * Scheduler/Locks: `SchedulerLock` of hermes/scheduler/locks.py over the contract `LockApi`.
--     Locks/Effect has the effect of each call, Locks/Backing and Locks/Exclusion the replicas as
--     a step relation, in which each HTTP call is one step: acquire is two (`take_expired`,
--     `first_claim`), and other calls may run between them. The clock that a call reads may lie
--     behind by the time it is made; the replicas share one clock.
--   * Scheduler/Runner: `service_executors`, `run_service_cycle` and `run_one_cycle` of
--     hermes/scheduler/runner.py. Runner/Effects, Endings, Traces and Unsplit have the theorems.
--     A cycle uses the lock, the passes and the executors by their calls only, which are recorded
--     in a history.
--   * Commissions/Reconcile: hermes/commissions/reconcile.py (`term_window`, `in_term`, `rollup`,
--     `severity`, `classify_reconciliation`). Reconcile/Run is `run_rollup`; Sums, Verdicts,
--     Rerun and Applied have the theorems, the last on the ledger as the updates of a run leave
--     it.
--   * Commissions/Matching: hermes/commissions/matching.py (`normalize_policy_number`,
--     `match_line`, `_index_ledger`, `_index_book`). Matching/Relink is `relink_unmatched`; Keys,
--     Indexes, Ladder, Tally and Counts have the theorems.
--   * Renewals/Cadence and Renewals/Cadence/Config: hermes/renewals/cadence.py and
--     cadence_config.py, the segment of a policy and the touches due before it expires.
--     Cadence/Touches and Segments have the theorems. The caller that posts touches and stamps
--     their slots is not in the repository's code, so it is not modelled.
--   * Renewals/Lifecycle: the statuses of packages/rsg-hermes-core/hermes_core/canonical.py
--     (`normalize_status`).
--   * Renewals/Eligibility: hermes/renewals/eligibility.py (`evaluate` and what it calls).
--     Eligibility/Rule and Eligibility/Entry have the theorems.
--   * Renewals/Candidates: hermes/renewals/candidate_refresh.py, the lineage of a policy
--     (`_lineage_for` and what it calls); Candidates/Build is `build_candidates`. The walk of
--     `_root_number` is on fuel, one more than the rows of the index, which is enough since each
--     row that it moves to has a number it has not met. The premium of an account, a sum of
--     floats, and the live insureds are arguments. Candidates/Root, Pair and Best have the
--     theorems.
--   * Renewals/Corrections: the keys of hermes/renewals/corrections.py (`candidate_key`,
--     `split_key`, `key_filters`), with theorems in Corrections/Keys.
--   * Renewals/Executor: hermes/renewals/executor.py. Executor/Instruction is the row of a job
--     and the comparison of values, Executor/Calls the calls that leave the module (with
--     `find_policy_by_number` and `is_insured_active` of
--     packages/rsg-hermes-core/hermes_integrations/nowcerts_client.py), Executor/Finish the
--     finalizers, Executor/Pipeline the stages, Executor/Process `process_job`, and Executor/Runs
--     `run_executor` and `_preview_job`. Executor/Steps and Executor/Filing have the lemmas on
--     histories, and Executor/Instructed says apart from the code which instructions are approved
--     and what they ask for; Authority, Writes, Receipts, Proofs, Verified, Counts and Previews
--     the theorems.
--   * Commissions/Statements: hermes/commissions/statements.py. Statements/Parse and
--     Statements/Rows read cells and rows, Statements/Batches is the crosscheck and
--     `stage_statement`, and Statements/Commit is `commit_statement` and `reject_statement`.
--     Statements/Gate, Ledger and Posting have the theorems on them.
--   * Overrides: packages/rsg-hermes-core/hermes_core/overrides/core.py (`same_value`, `resolve`,
--     `reconcile`), on JSON values that are no lists or objects. Overrides/Apply is
--     `index_overrides` and `apply_overrides`, Overrides/Run is `reconcile_overrides` of
--     store.py, from the active overrides on; Overrides/Store is its `set_override` and
--     `withdraw`, with theorems in Store/Single; Overrides/Shown has theorems on core.py, and
--     Overrides/Synced on the rows as the updates of a sync leave them.
--   * The Tests modules run the definitions on concrete inputs, over small tables that keep the
--     contracts.
--
-- How the model stands to the code:
--   * An instant is a number of microseconds, a day the ordinal of `date.toordinal`, and an
--     amount an integer of millionths of a dollar, so a decimal has up to six digits behind its
--     point. A float is taken to show the decimal that it was made of. Decimals in scientific
--     notation, with underscores or not finite, and dates in the other ISO forms, are outside the
--     domain; texts are mapped in case as ASCII.
--   * The database is a parameter. `QueueApi` and `LockApi` are records of calls with the
--     documented behaviour of PostgREST as laws: a select returns stored rows that meet its
--     filters, within the limit and each once; a call that raises may have been applied; an
--     insert is refused where the primary key is there; an update with filters changes the row
--     that meets them, and returns it. The order of a select is not modelled.
--   * The rollup and the relinking read their selects as lists; a select that raises there, or an
--     update that raises in `run_rollup` or `reconcile_overrides`, ends the run with the
--     exception and is not modelled. In `relink_unmatched` the answers of the inserts and updates
--     are a parameter.
--   * In Overrides/Store the table is the list of its rows in the order in which the database
--     returns them; what the database answers is an argument: whether a call raises, before or
--     behind its effect, and the id of the new row. An error of the write log is swallowed.
--   * A cycle's environment answers each call and may look at all calls before it, so a theorem
--     on cycles is about every way in which the calls may answer.
--   * A job of the renewal executor is a step over a history of calls, as a cycle is: a call
--     answers, raises the error of its client, or raises another exception, which ends the job.
--     The clients are given, texts of a payload are texts, and approved values are JSON scalars;
--     the filter and the order of the select of the jobs are the database's.
--   * In Commissions/Statements a statement has been read into rows, and `strptime` is a
--     parameter; in a commit, the new statement's id, the lines that the database accepts, and
--     what the relinking and the rollup do are given, and the effects of these two on the ledger
--     are those of Commissions/Matching and Commissions/Reconcile. A batch has less than 50,000
--     staged lines, which is the select's limit.
--   * A rate of a statement is an integer of units of 10⁻⁸; an entry day is not before the
--     calendar's first.
--   * The tunables of the cadence have the default values of their environment variables.
--   * Every loop is a recursion on its list, except the walk of `_root_number`, which is on fuel
--     as said above.
--
-- Not modelled: the columns that no decision reads, log lines, message texts, time stamps in
-- metrics, the work of the executors other than that of renewals, the endless loops of the
-- scheduler and the worker, the staging of a renewal job, the projection of the renewal
-- candidates and the lapse check, the readers of the statement files and the preview of a
-- statement's matches, and the parts of the repository that talk to outside services or render
-- documents.
pub mod Prelude
pub mod Python
pub mod Queue
pub mod Services
pub mod Commissions
pub mod Renewals
pub mod Overrides
pub mod Scheduler
