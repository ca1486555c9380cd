-- ===== src/Commissions/Statements/Ledger.antt =====
-- Statements over several calls: a batch that has been committed, one whose commit was cut short, and
-- one that has just been staged.
use rsg_hermes.Prelude.{
  ℕ, zero, suc, ◌+◌, ◌≡◌, ◌≢◌, refl, ◌∙◌, sym, ap, Bool, true, false, not, ◌&&◌, Option, none, some,
  List, [], ◌∷◌, ◌++◌, map, length, map_option, ◌<◌, All, append-nil, if◌then◌else◌, arith, inl,
  inr, Bool-cases,
}
use rsg_hermes.Prelude.Text.{Text, text_eq}
use rsg_hermes.Commissions.Matching.Relink.{LinkRun}
use rsg_hermes.Commissions.Statements.Batches.{
  BatchStatus, pending_review, committed, error, Batch, Staged, Transaction, Store,
  requires_source_confirmation, with_carrier,
}
use rsg_hermes.Commissions.Statements.Commit.{
  not_pending, CommitResult, CommitOutcome, refused, crashed, done, CommitEnv, find_batch,
  staged_for, refusal, transaction_of, filter, update_batch, final_status, reviewed, insert_lines,
  settle, promote, commit_statement,
}
use rsg_hermes.Commissions.Statements.Gate.{
  update_batch_settled, IsPosted, IsApprovable, commit-IsPosted, insert_lines_lem,
}

find_batch-update_batch :
    (i : Text) (f : Batch → Batch) (bs : List Batch)
    → ((b : Batch) → (f b).id ≡ b.id)
    → find_batch i (update_batch i f bs) ≡ map_option f (find_batch i bs)
unfolding update_batch
find_batch-update_batch i f [] keeps = refl
find_batch-update_batch i f (b ∷ bs) keeps = elim (Bool-cases (text_eq b.id i)) [
  | inl same ↦ rw same (rw (keeps b) (rw same refl))
  | inr other ↦ rw other (rw other (find_batch-update_batch i f bs keeps))
]

abbrev pub status_of : Batch → BatchStatus
status_of b = b.ingest_status

-- The batch behind a commit that has returned.
left :
    (env : CommitEnv) (i by : Text) (c : Bool) (s s' : Store) (r : CommitResult)
    → (posted : IsPosted env i by c s r s')
    → find_batch i s'.batches
      ≡ some (reviewed by (final_status r.committed) (some r.statement_id) posted.batch)
left env i by c s s' r posted =
    ap (find_batch i)
      (posted.reviews ∙ sym (update_batch_settled i by r.statement_id r.committed s.batches))
    ∙ (find_batch-update_batch i _ s.batches (λ b. refl)
        ∙ ap (map_option (reviewed by (final_status r.committed) (some r.statement_id)))
            posted.approvable.there)

refused_again :
    (b : Batch) (c : Bool) (ls : List Staged) (by : Text) (n : ℕ) (sid : Option Text)
    → refusal (reviewed by (final_status n) sid b) c ls ≡ some not_pending
unfolding refusal
refused_again b c ls by zero sid = refl
refused_again b c ls by (suc n) sid = refl

-- Behind a commit that has returned, any other commit of its batch is refused, and changes nothing.
second_refused :
    (env again : CommitEnv) (i by by' : Text) (c c' : Bool) (s s' : Store) (r : CommitResult)
    → commit_statement env i by c s ≡ (done r, s')
    → commit_statement again i by' c' s' ≡ (refused not_pending, s')
unfolding commit_statement
second_refused env again i by by' c c' s s' r h =
    let posted = commit-IsPosted env i by c s s' r h in
    rw (left env i by c s s' r posted, commit_statement)
      (rw
        (refused_again posted.batch c' (staged_for i s'.staging) by r.committed
          (some r.statement_id))
        refl)

-- A batch is committed once: behind a commit that has returned with at least one line accepted, the
-- batch is marked as committed, and any other commit of it is refused and changes nothing.
pub commit_once :
    (env again : CommitEnv) (i by by' : Text) (c c' : Bool) (s s' : Store) (r : CommitResult)
    → commit_statement env i by c s ≡ (done r, s')
    → 0 < r.committed
    → (map_option status_of (find_batch i s'.batches) ≡ some committed)
      × (commit_statement again i by' c' s' ≡ (refused not_pending, s'))
commit_once env again i by by' c c' s s' r h some_line =
    let posted = commit-IsPosted env i by c s s' r h in
    (
      ap (map_option status_of) (left env i by c s s' r posted)
          ∙ ap some (marked r.committed some_line),
      second_refused env again i by by' c c' s s' r h,
    )
  where
    marked : (n : ℕ) → 0 < n → final_status n ≡ committed
    marked zero h = absurd (omega (arith, h))
    marked (suc n) h = refl

-- A batch of which the database has accepted no line cannot be tried again: behind a commit that has
-- returned with none, the ledger's transactions are as before, the batch is marked as `error`, and every
-- other commit of it is refused, whatever the database would accept by then.
pub failed_commit_blocks_retry :
    (env again : CommitEnv) (i by by' : Text) (c c' : Bool) (s s' : Store) (r : CommitResult)
    → commit_statement env i by c s ≡ (done r, s')
    → r.committed ≡ 0
    → (s'.transactions ≡ s.transactions)
      × (map_option status_of (find_batch i s'.batches) ≡ some error)
      × (commit_statement again i by' c' s' ≡ (refused not_pending, s'))
failed_commit_blocks_retry env again i by by' c c' s s' r h no_line =
    let posted = commit-IsPosted env i by c s s' r h in
    (
      posted.rows
          ∙ (ap (λ l. s.transactions ++ map (transaction_of r.statement_id posted.batch) l)
                (none_in _ (sym posted.result ∙ no_line))
              ∙ append-nil s.transactions),
      ap (map_option status_of) (left env i by c s s' r posted)
          ∙ ap (λ n. some (final_status n)) no_line,
      second_refused env again i by by' c c' s s' r h,
    )
  where
    none_in : (l : List Staged) → length l ≡ 0 → l ≡ []
    none_in [] e = refl
    none_in (x ∷ l) e = absurd (omega (arith, e))

passes_gate :
    (b : Batch) (c : Bool) (ls : List Staged)
    → b.ingest_status ≡ pending_review
    → b.crosscheck_ok ≡ some true
    → (requires_source_confirmation b.extraction_method b.is_ocr && not c) ≡ false
    → ls ≢ []
    → refusal b c ls ≡ none
unfolding refusal
passes_gate b c [] pending checked confirmed lines = absurd (lines refl)
passes_gate b c (l ∷ ls) pending checked confirmed lines = ground arith

-- The accepted lines of a batch as transactions.
abbrev pub posted_rows : CommitEnv → Text → Text → Batch → Store → List Transaction
posted_rows env i sid b s = map (transaction_of sid b) (filter env.accepts (staged_for i s.staging))

-- What the commit leaves when the relinking raises: the lines, and a batch that is still pending.
cut_short :
    (env : CommitEnv) (i by sid : Text) (c : Bool) (s : Store) (b : Batch)
    → IsApprovable i c s b
    → env.statement_id ≡ some sid
    → env.relinks (s.transactions ++ posted_rows env i sid b s) ≡ none
    → commit_statement env i by c s ≡ (
      crashed,
      record s {
        statements = s.statements ++ (sid, length (staged_for i s.staging)) ∷ [];
        transactions = s.transactions ++ posted_rows env i sid b s;
      },
    )
unfolding commit_statement insert_lines
cut_short env i by sid c s b ok new_id raises =
    let gate =
      passes_gate b c (staged_for i s.staging) ok.pending ok.checked ok.confirmed ok.nonempty in
    let opened = record s {
      statements = s.statements ++ (sid, length (staged_for i s.staging)) ∷ [];
    } in
    let start : commit_statement env i by c s ≡ promote env i by b (staged_for i s.staging) s =
      rw (ok.there, commit_statement) (rw gate refl) in
    let open_it : promote env i by b (staged_for i s.staging) s
        ≡ settle env i by sid
            (insert_lines env sid b (staged_for i s.staging) (0, [], s.transactions)) opened =
      rw (new_id, promote) refl in
    let lines =
      ap (λ a. settle env i by sid a opened)
        (insert_lines_lem env sid b (staged_for i s.staging) 0 [] s.transactions) in
    start
    ∙ (open_it
        ∙ (lines
            ∙ ap
                (after (0 + length (filter env.accepts (staged_for i s.staging)))
                  (filter (λ l. not (env.accepts l)) (staged_for i s.staging)) opened)
                raises))
  where
    after : ℕ → List Staged → Store → Option LinkRun → CommitOutcome × Store
    after n es opened link = elim link [
      | none ↦
          (crashed, record opened { transactions = s.transactions ++ posted_rows env i sid b s })
      | some run ↦
          if env.rolls_up (s.transactions ++ posted_rows env i sid b s) && env.updates
          then (
            done (record { statement_id = sid; committed = n; refused_lines = es; link = run }),
            record opened {
              transactions = s.transactions ++ posted_rows env i sid b s;
              batches = update_batch i (reviewed by (final_status n) (some sid)) opened.batches;
            },
          )
          else (
            crashed,
            record opened { transactions = s.transactions ++ posted_rows env i sid b s },
          )
    ]

filter_whole : (p : Staged → Bool) (ls : List Staged) → All (λ l. p l ≡ true) ls → filter p ls ≡ ls
filter_whole p [] h = refl
filter_whole p (l ∷ ls) h = rw (h.0, filter) (ap (λ t. l ∷ t) (filter_whole p ls h.1))

-- The lines of a batch as transactions of a statement.
abbrev pub lines_as : Text → Batch → List Staged → List Transaction
lines_as sid b ls =
    map (λ l. record { statement_id = sid; line = with_carrier b.carrier_name l.line }) ls

-- If the database accepts every line of the batch both times, a commit that the relinking cuts short by
-- raising, and that is then made again, has posted each line of the batch twice: once for each of its two
-- statements.
pub commit_again_doubles :
    (env again : CommitEnv) (i by by' sid : Text) (c c' : Bool) (s s' : Store) (b : Batch)
    (r : CommitResult)
    → IsApprovable i c s b
    → env.statement_id ≡ some sid
    → env.relinks (s.transactions ++ lines_as sid b (staged_for i s.staging)) ≡ none
    → All (λ l. env.accepts l ≡ true) (staged_for i s.staging)
    → All (λ l. again.accepts l ≡ true) (staged_for i s.staging)
    → commit_statement again i by' c' (commit_statement env i by c s).1 ≡ (done r, s')
    → s'.transactions
      ≡ (s.transactions ++ lines_as sid b (staged_for i s.staging))
        ++ lines_as r.statement_id b (staged_for i s.staging)
commit_again_doubles env again i by by' sid c c' s s' b r ok new_id raises all all' h =
    let first = filter_whole env.accepts (staged_for i s.staging) all in
    let second = filter_whole again.accepts (staged_for i s.staging) all' in
    let raises' : env.relinks (s.transactions ++ posted_rows env i sid b s) ≡ none =
      ap (λ l. env.relinks (s.transactions ++ map (transaction_of sid b) l)) first ∙ raises in
    let cut = ap (λ r. r.1) (cut_short env i by sid c s b ok new_id raises') in
    let posted = commit-IsPosted again i by' c' (commit_statement env i by c s).1 s' r h in
    let same : some posted.batch ≡ some b =
      sym posted.approvable.there ∙ (ap (λ (t : Store). find_batch i t.batches) cut ∙ ok.there) in
    let same_batch : posted.batch ≡ b = cc in
    posted.rows
    ∙ ((λ j.
          (cut j).transactions
          ++ map (transaction_of r.statement_id (same_batch j))
              (filter again.accepts (staged_for i (cut j).staging)))
        ∙ (λ j.
            (s.transactions ++ map (transaction_of sid b) (first j))
            ++ map (transaction_of r.statement_id b) (second j)))
