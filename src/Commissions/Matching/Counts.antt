-- ===== src/Commissions/Matching/Counts.antt =====
-- What `relink_unmatched` counts and writes.
use rsg_hermes.Prelude.{
  ℕ, suc, ◌+◌, ◌≡◌, refl, Bool, true, false, Option, none, some, List, [], ◌∷◌, ◌++◌, length, ◌==◌,
  length-append, arith, Bool-cases, inl, inr,
}
use rsg_hermes.Prelude.Text.{Text, text_eq}
use rsg_hermes.Prelude.Dict.{Dict, get, assign}
use rsg_hermes.Commissions.Matching.{
  LedgerKey, Policy, MatchResult, MatchKind, exact, normalized, created, unmatched, truthy,
  match_line, index_ledger, index_book,
}
use rsg_hermes.Commissions.Matching.Relink.{
  Line, LinkError, book_read, create_ledger, Env, LinkRun, orphans, write_link, insert_ledger,
  create, key_for, by_kind, link_line, link_lines, empty_run, relink_unmatched, balanced,
  from_orphans, dry_run_id,
}
use rsg_hermes.Commissions.Matching.Tally.{
  create_failures, create_failures-append, Distinct-snoc, IsCounted, set-IsCounted, fresh_key,
  known_kept, known_after,
}

module _ (env : Env) (dry_run : Bool) where
  write-IsCounted :
      (n t : ℕ) (line : Line) (i : Option Text) (run : LinkRun)
      → IsCounted n t run
      → IsCounted n t (write_link env dry_run line i run)
  write-IsCounted n t line none run c = c
  write-IsCounted n t line (some i) run c = elim (Bool-cases dry_run) [
    | inl dry ↦ rw dry c
    | inr live ↦ elim (Bool-cases (text_eq i dry_run_id)) [
      | inl mark ↦ rw (live, mark) c
      | inr real ↦ rw (live, real) (set-IsCounted env dry_run n t line i run c)
    ]
  ]

  insert-IsCounted :
      (t : ℕ) (line : Line) (number : Option Text) (key : Text) (answer : Option Text)
      (run : LinkRun)
      → get key run.created_for ≡ none
      → IsCounted 1 t run
      → IsCounted 0 t (insert_ledger env dry_run line number key answer run)
  insert-IsCounted t line number key none run absent c = record {
    seen = c.seen;
    balance =
        omega (arith, c.balance, create_failures-append run.errors (create_ledger number ∷ []));
    rows = c.rows;
    known = c.known;
    once = c.once;
  }
  insert-IsCounted t line number key (some i) run absent c =
      write-IsCounted 0 t line (truthy (some i))
        (record run {
          created = run.created + 1;
          ledger_rows_created = run.ledger_rows_created + 1;
          created_for = assign key i run.created_for;
          inserted = run.inserted ++ key ∷ [];
        })
        (record {
          seen = c.seen;
          balance = omega (arith, c.balance);
          rows = omega (arith, c.rows, length-append run.inserted (key ∷ []));
          known = known_after key i run.created_for run.inserted c.known;
          once =
              Distinct-snoc run.inserted key c.once
                (fresh_key key run.created_for run.inserted absent c.known);
        })

module _ (env : Env) where
  create-IsCounted :
      (dry_run : Bool) (t : ℕ) (line : Line) (number : Option Text) (key : Text) (row : Option Text)
      (run : LinkRun)
      → get key run.created_for ≡ row
      → IsCounted 1 t run
      → IsCounted 0 t (create env dry_run line number key row run)
  create-IsCounted dry_run t line number key (some i) run e c =
      write-IsCounted env dry_run 0 t line (truthy (some i))
        (record run { created = run.created + 1 })
        (record {
          seen = c.seen;
          balance = omega (arith, c.balance);
          rows = c.rows;
          known = c.known;
          once = c.once;
        })
  create-IsCounted dry_run t line number key none run absent c = elim (Bool-cases dry_run) [
    | inl dry ↦ rw dry (record {
      seen = c.seen;
      balance = omega (arith, c.balance);
      rows = c.rows;
      known = known_kept key dry_run_id run.created_for run.inserted c.known;
      once = c.once;
    })
    | inr live ↦
        rw live
          (insert-IsCounted env false t line number key (env.inserts run.inserted key) run absent c)
  ]

  by_kind-IsCounted :
      (dry_run : Bool) (t : ℕ) (line : Line) (kind : MatchKind) (m : MatchResult) (run : LinkRun)
      → IsCounted 1 t run
      → IsCounted 0 t (by_kind env dry_run line kind m run)
  by_kind-IsCounted dry_run t line unmatched m run c = record {
    seen = c.seen;
    balance = omega (arith, c.balance);
    rows = c.rows;
    known = c.known;
    once = c.once;
  }
  by_kind-IsCounted dry_run t line created m run c =
      create-IsCounted dry_run t line m.policy_number (key_for env dry_run m.policy_number)
        (get (key_for env dry_run m.policy_number) run.created_for) run refl c
  by_kind-IsCounted dry_run t line exact m run c =
      write-IsCounted env dry_run 0 t line (truthy m.ledger_id)
        (record run { exact = run.exact + 1 })
        (record {
          seen = c.seen;
          balance = omega (arith, c.balance);
          rows = c.rows;
          known = c.known;
          once = c.once;
        })
  by_kind-IsCounted dry_run t line normalized m run c =
      write-IsCounted env dry_run 0 t line (truthy m.ledger_id)
        (record run { normalized = run.normalized + 1 })
        (record {
          seen = c.seen;
          balance = omega (arith, c.balance);
          rows = c.rows;
          known = c.known;
          once = c.once;
        })

  line-IsCounted :
      (dry_run : Bool) (t : ℕ) (line : Line) (m : MatchResult) (run : LinkRun)
      → IsCounted 0 t run
      → IsCounted 0 (suc t) (link_line env dry_run line m run)
  unfolding link_line
  line-IsCounted dry_run t line m run c =
      by_kind-IsCounted dry_run (suc t) line m.kind m (record run { examined = run.examined + 1 })
        (record {
          seen = omega (arith, c.seen);
          balance = omega (arith, c.balance);
          rows = c.rows;
          known = c.known;
          once = c.once;
        })

  lines-IsCounted :
      (dry_run : Bool) (ex norm : Dict Text) (book : Dict Policy) (t n : ℕ) (lines : List Line)
      (run : LinkRun)
      → n ≡ t + length lines
      → IsCounted 0 t run
      → IsCounted 0 n (link_lines env dry_run ex norm book lines run)
  unfolding link_lines
  lines-IsCounted dry_run ex norm book t n [] run e c =
      let same : n ≡ t = omega (arith, e) in rw same c
  lines-IsCounted dry_run ex norm book t n (line ∷ lines) run e c =
      let m = match_line line.policy_number ex norm book in
      lines-IsCounted dry_run ex norm book (suc t) n lines (link_line env dry_run line m run)
        (omega (arith, e)) (line-IsCounted dry_run t line m run c)

  empty-IsCounted :
      (es : List LinkError) → create_failures es ≡ 0 → IsCounted 0 0 (empty_run env true es)
  empty-IsCounted es none_failed = record {
    seen = refl;
    balance = omega (arith, none_failed);
    rows = refl;
    known = tt;
    once = tt;
  }

  orphans-IsCounted :
      (dry_run : Bool) (lines : List Line) (ledger : List LedgerKey) (book : Option (List Policy))
      → IsCounted 0 (length lines) (from_orphans env dry_run lines ledger book)
  orphans-IsCounted dry_run [] ledger book = empty-IsCounted [] refl
  orphans-IsCounted dry_run (line ∷ lines) ledger (some book) =
      lines-IsCounted dry_run (index_ledger ledger).0 (index_ledger ledger).1 (index_book book) 0
        (suc (length lines)) (line ∷ lines) (empty_run env dry_run []) (omega arith)
        (empty-IsCounted [] refl)
  orphans-IsCounted dry_run (line ∷ lines) ledger none =
      lines-IsCounted dry_run (index_ledger ledger).0 (index_ledger ledger).1 [] 0
        (suc (length lines)) (line ∷ lines) (empty_run env dry_run (book_read ∷ [])) (omega arith)
        (empty-IsCounted (book_read ∷ []) refl)

  pub relink-IsCounted :
      (dry_run : Bool) (lines : List Line) (ledger : List LedgerKey) (book : Option (List Policy))
      → IsCounted 0 (length (orphans lines)) (relink_unmatched env dry_run lines ledger book)
  unfolding relink_unmatched
  relink-IsCounted dry_run lines ledger book = orphans-IsCounted dry_run (orphans lines) ledger book

  -- `balanced` holds of a run exactly if the insert of no ledger row has failed.
  pub relink_balanced :
      (dry_run : Bool) (lines : List Line) (ledger : List LedgerKey) (book : Option (List Policy))
      → balanced (relink_unmatched env dry_run lines ledger book)
        ≡ (create_failures (relink_unmatched env dry_run lines ledger book).errors == 0)
  relink_balanced dry_run lines ledger book =
      ground (arith, (relink-IsCounted dry_run lines ledger book).balance)
