-- ===== src/Commissions/Statements/Gate.antt =====
-- The gate of a commit, and what a commit leaves behind.
use rsg_hermes.Prelude.{
  ℕ, zero, suc, leb, if◌then◌else◌, ◌+◌, ◌≡◌, ◌≢◌, refl, ◌∙◌, sym, ap, Bool, true, false, not, ◌&&◌,
  none, some, List, [], ◌∷◌, ◌++◌, map, append-nil, append_assoc, length, arith, inl, inr, ◌⊎◌,
  Bool-cases, Option-cases,
}
use mathlib.Core.Path.{ap₂}
use rsg_hermes.Prelude.Text.{Text, text_eq}
use rsg_hermes.Commissions.Statements.Batches.{
  BatchStatus, pending_review, committed, error, Batch, Staged, Transaction, Store,
  requires_source_confirmation,
}
use rsg_hermes.Commissions.Statements.Commit.{
  Refusal, not_found, CommitResult, refused, crashed, done, CommitEnv, find_batch, staged_for,
  refusal, transaction_of, filter, update_batch, final_status, reviewed, insert_lines, settle,
  promote, commit_statement,
}

-- What lets a batch through the gate.
pub record IsApprovable (i : Text) (confirmed_source : Bool) (s : Store) (b : Batch) : Type 0 where
  pub there : find_batch i s.batches ≡ some b
  pub pending : b.ingest_status ≡ pending_review
  pub checked : b.crosscheck_ok ≡ some true
  pub confirmed :
      (requires_source_confirmation b.extraction_method b.is_ocr && not confirmed_source) ≡ false
  pub nonempty : staged_for i s.staging ≢ []

refusal-none :
    (b : Batch) (c : Bool) (staged : List Staged)
    → refusal b c staged ≡ none
    → (b.ingest_status ≡ pending_review)
      × (b.crosscheck_ok ≡ some true)
      × ((requires_source_confirmation b.extraction_method b.is_ocr && not c) ≡ false)
      × (staged ≢ [])
unfolding refusal
refusal-none b c [] h = ground arith
refusal-none b c (l ∷ ls) h = (ground arith, ground arith, ground arith, λ e. cc)

triple :
    {A B C : Type 0} {a a' : A} {b b' : B} {c c' : C}
    → a ≡ a'
    → b ≡ b'
    → c ≡ c'
    → ◌≡◌ {A = A × B × C} (a, b, c) (a', b', c')
triple p q r = λ j. (p j, q j, r j)

-- A batch whose commit has returned with `n` lines.
abbrev pub settled_as : ℕ → Text → Text → Batch → Batch
settled_as n by sid b = record b {
  ingest_status = if leb 1 n then committed else error;
  statement_id = some sid;
  reviewed_by = some by;
}

reviewed_settled :
    (n : ℕ) (by sid : Text) (b : Batch)
    → reviewed by (final_status n) (some sid) b ≡ settled_as n by sid b
reviewed_settled zero by sid b = refl
reviewed_settled (suc n) by sid b =
    ap
      (λ (t : BatchStatus). record b {
        ingest_status = t;
        statement_id = some sid;
        reviewed_by = some by;
      })
      (ground arith)

pub update_batch_settled :
    (i by sid : Text) (n : ℕ) (bs : List Batch)
    → update_batch i (reviewed by (final_status n) (some sid)) bs
      ≡ map (λ b. if text_eq b.id i then settled_as n by sid b else b) bs
unfolding update_batch
update_batch_settled i by sid n [] = refl
update_batch_settled i by sid n (b ∷ bs) =
    ap₂ (λ (x : Batch) (xs : List Batch). x ∷ xs)
      (ap (λ (x : Batch). if text_eq b.id i then x else b) (reviewed_settled n by sid b))
      (update_batch_settled i by sid n bs)

module _ (env : CommitEnv) where
  -- A commit is refused and changes nothing, or its batch is there, pending, has passed its crosscheck,
  -- has been confirmed against the source if it was read from a PDF, and has staged lines.
  pub commit_gate :
      (i by : Text) (confirmed_source : Bool) (s : Store)
      → ((r : Refusal) × (commit_statement env i by confirmed_source s ≡ (refused r, s)))
        ⊎ ((b : Batch) × IsApprovable i confirmed_source s b)
  unfolding commit_statement
  commit_gate i by c s = elim (Option-cases (find_batch i s.batches)) [
    | inl e ↦ inl (not_found, rw (e, commit_statement) refl)
    | inr (b, e) ↦ elim (Option-cases (refusal b c (staged_for i s.staging))) [
      | inr (r, f) ↦ inl (r, rw (e, commit_statement) (rw f refl))
      | inl f ↦
          let (pending, checked, confirmed, lines) = refusal-none b c (staged_for i s.staging) f in
          inr (
            b,
            record {
              there = e;
              pending = pending;
              checked = checked;
              confirmed = confirmed;
              nonempty = lines;
            },
          )
    ]
  ]

  pub insert_lines_lem :
      (i : Text) (b : Batch) (ls : List Staged) (n : ℕ) (errors : List Staged)
      (rows : List Transaction)
      → insert_lines env i b ls (n, errors, rows) ≡ (
        n + length (filter env.accepts ls),
        errors ++ filter (λ l. not (env.accepts l)) ls,
        rows ++ map (transaction_of i b) (filter env.accepts ls),
      )
  unfolding insert_lines
  insert_lines_lem i b [] n errors rows =
      triple (omega arith) (sym (append-nil errors)) (sym (append-nil rows))
  insert_lines_lem i b (l ∷ ls) n errors rows = elim (Bool-cases (env.accepts l)) [
    | inl yes_it ↦ rw yes_it (
        insert_lines_lem i b ls (n + 1) errors (rows ++ transaction_of i b l ∷ [])
        ∙ triple (omega arith) refl (append_assoc rows _ _))
    | inr not_it ↦ rw not_it (
        insert_lines_lem i b ls n (errors ++ l ∷ []) rows
        ∙ triple refl (append_assoc errors _ _) refl)
  ]

  -- What a commit that returns has come from.
  pub record IsPosted (i by : Text) (c : Bool) (s : Store) (r : CommitResult) (s' : Store)
      : Type 0 where
    pub batch : Batch
    pub approvable : IsApprovable i c s batch
    pub result : r.committed ≡ length (filter env.accepts (staged_for i s.staging))
    pub errors : r.refused_lines ≡ filter (λ l. not (env.accepts l)) (staged_for i s.staging)
    pub rows :
        s'.transactions
        ≡ s.transactions
          ++ map (transaction_of r.statement_id batch) (filter env.accepts (staged_for i s.staging))
    pub reviews :
        s'.batches
        ≡ map
            (λ b. if text_eq b.id i then settled_as r.committed by r.statement_id b else b)
            s.batches
    pub staging : s'.staging ≡ s.staging

  settle_done :
      (i by sid : Text) (n : ℕ) (es : List Staged) (rows : List Transaction) (s s' : Store)
      (r : CommitResult)
      → settle env i by sid (n, es, rows) s ≡ (done r, s')
      → (r.statement_id ≡ sid)
        × (r.committed ≡ n)
        × (r.refused_lines ≡ es)
        × (s' ≡ record s {
          transactions = rows;
          batches = update_batch i (reviewed by (final_status n) (some sid)) s.batches;
        })
  settle_done i by sid n es rows s s' r h = ground arith

  promote_done :
      (i by : Text) (c : Bool) (b : Batch) (s s' : Store) (r : CommitResult)
      → IsApprovable i c s b
      → promote env i by b (staged_for i s.staging) s ≡ (done r, s')
      → IsPosted i by c s r s'
  unfolding insert_lines
  promote_done i by c b s s' r ok h = elim (Option-cases env.statement_id) [
    | inl e ↦
        let step : promote env i by b (staged_for i s.staging) s ≡ (crashed, s) =
          rw (e, promote) refl in
        absurd (cc)
    | inr (sid, e) ↦
        let opened = record s {
          statements = s.statements ++ (sid, length (staged_for i s.staging)) ∷ [];
        } in
        let step : promote env i by b (staged_for i s.staging) s
            ≡ settle env i by sid
                (insert_lines env sid b (staged_for i s.staging) (0, [], s.transactions)) opened =
          rw (e, promote) refl in
        let (same_id, n, es, store) = settle_done i by sid _ _ _ opened s' r (
          ap (λ a. settle env i by sid a opened)
            (sym (insert_lines_lem sid b (staged_for i s.staging) 0 [] s.transactions))
          ∙ (sym step ∙ h)) in
        record {
          batch = b;
          approvable = ok;
          result = n ∙ omega arith;
          errors = es;
          rows =
              ap (λ (t : Store). t.transactions) store
              ∙ ap
                  (λ d.
                    s.transactions
                    ++ map (transaction_of d b) (filter env.accepts (staged_for i s.staging)))
                  (sym same_id);
          reviews =
              ap (λ (t : Store). t.batches) store
              ∙ ((λ j.
                    update_batch i (reviewed by (final_status (sym n j)) (some (sym same_id j)))
                      s.batches)
                  ∙ update_batch_settled i by r.statement_id r.committed s.batches);
          staging = ap (λ (t : Store). t.staging) store;
        }
  ]

  -- A commit that returns has passed the gate. It appends one transaction for each staged line of its
  -- batch that the database accepts, in order, and reports each other; it changes no batch but its own,
  -- which becomes `committed` if some line was accepted, else `error`, and leaves the staging as it is.
  pub commit-IsPosted :
      (i by : Text) (c : Bool) (s s' : Store) (r : CommitResult)
      → commit_statement env i by c s ≡ (done r, s')
      → IsPosted i by c s r s'
  unfolding commit_statement
  commit-IsPosted i by c s s' r h = elim (Option-cases (find_batch i s.batches)) [
    | inl e ↦
        let step : commit_statement env i by c s ≡ (refused not_found, s) =
          rw (e, commit_statement) refl in
        absurd (cc)
    | inr (b, e) ↦ elim (Option-cases (refusal b c (staged_for i s.staging))) [
      | inr (x, f) ↦
          let step : commit_statement env i by c s ≡ (refused x, s) =
            rw (e, commit_statement) (rw f refl) in
          absurd (cc)
      | inl f ↦
          let step : commit_statement env i by c s ≡ promote env i by b (staged_for i s.staging) s =
            rw (e, commit_statement) (rw f refl) in
          let (pending, checked, confirmed, lines) = refusal-none b c (staged_for i s.staging) f in
          promote_done i by c b s s' r
            (record {
              there = e;
              pending = pending;
              checked = checked;
              confirmed = confirmed;
              nonempty = lines;
            })
            (sym step ∙ h)
    ]
  ]
