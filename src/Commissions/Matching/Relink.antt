-- ===== src/Commissions/Matching/Relink.antt =====
-- `relink_unmatched` of hermes/commissions/matching.py. The selects are the lists given; the database
-- answers each insert with an id or an exception, and each update with or without one.
use rsg_hermes.Prelude.{
  ℕ, ◌+◌, Bool, true, false, Option, none, some, List, [], ◌∷◌, ◌++◌, or_else, ◌==◌, if◌then◌else◌,
}
use rsg_hermes.Prelude.Text.{Text, text_eq, codes}
use rsg_hermes.Prelude.Dict.{Dict, get, assign}
use rsg_hermes.Commissions.Matching.{
  LedgerKey, Policy, MatchResult, MatchKind, exact, normalized, created, unmatched, truthy,
  normalize_policy_number, match_line, index_ledger, index_book,
}

pub record Line : Type 0 where
  pub id : Option Text
  pub policy_number : Option Text
  pub ledger_id : Option Text

pub data LinkError : Type 0 where
  book_read : LinkError
  create_ledger : Option Text → LinkError
  link_transaction : Option Text → LinkError

-- What the database answers, given the keys inserted so far: the new row's id, or `none` where it
-- raises; and whether an update returns.
pub record Env : Type 0 where
  pub inserts : List Text → Text → Option Text
  pub links : Option Text → Text → Bool

-- `unmatched_policies` is the multiset of the keys that the source counts; the last three fields are
-- `created_for` and what has been inserted and updated.
pub record LinkRun : Type 0 where
  pub examined : ℕ
  pub exact : ℕ
  pub normalized : ℕ
  pub created : ℕ
  pub unmatched : ℕ
  pub ledger_rows_created : ℕ
  pub unmatched_policies : List Text
  pub errors : List LinkError
  pub created_for : Dict Text
  pub inserted : List Text
  pub linked_lines : List (Option Text × Text)

abbrev pub linked : LinkRun → ℕ
linked run = run.exact + run.normalized + run.created

abbrev pub balanced : LinkRun → Bool
balanced run = (linked run + run.unmatched) == run.examined

abbrev pub is_linked : Line → Bool
is_linked line = elim (truthy line.ledger_id) [ none ↦ false | some i ↦ true ]

abbrev pub orphans : List Line → List Line
orphans [] = []
orphans (line ∷ lines) = let rest = orphans lines in if is_linked line then rest else line ∷ rest

abbrev pub dry_run_id : Text
dry_run_id = codes "(dry-run)"

module _ (env : Env) (dry_run : Bool) where
  -- `supa.update(TRANSACTIONS_TABLE, …)`
  abbrev pub set_ledger : Line → Text → LinkRun → LinkRun
  set_ledger line i run =
      if env.links line.id i
      then record run { linked_lines = run.linked_lines ++ (line.id, i) ∷ [] }
      else record run { errors = run.errors ++ link_transaction line.id ∷ [] }

  abbrev pub write_link : Line → Option Text → LinkRun → LinkRun
  write_link line none run = run
  write_link line (some i) run =
      if dry_run then run else if text_eq i dry_run_id then run else set_ledger line i run

  abbrev pub insert_ledger : Line → Option Text → Text → Option Text → LinkRun → LinkRun
  insert_ledger line number key none run = record run {
    errors = run.errors ++ create_ledger number ∷ [];
  }
  insert_ledger line number key (some i) run = write_link line (truthy (some i)) (record run {
    created = run.created + 1;
    ledger_rows_created = run.ledger_rows_created + 1;
    created_for = assign key i run.created_for;
    inserted = run.inserted ++ key ∷ [];
  })

  abbrev pub create : Line → Option Text → Text → Option Text → LinkRun → LinkRun
  create line number key (some i) run =
      write_link line (truthy (some i)) (record run { created = run.created + 1 })
  create line number key none run =
      if dry_run
      then record run {
        created = run.created + 1;
        created_for = assign key dry_run_id run.created_for;
      }
      else insert_ledger line number key (env.inserts run.inserted key) run

  abbrev pub key_for : Option Text → Text
  key_for number = normalize_policy_number (or_else number [])

  abbrev pub by_kind : Line → MatchKind → MatchResult → LinkRun → LinkRun
  by_kind line unmatched m run = record run {
    unmatched = run.unmatched + 1;
    unmatched_policies =
        run.unmatched_policies ++ or_else (truthy m.policy_number) (codes "(blank)") ∷ [];
  }
  by_kind line created m run =
      create line m.policy_number (key_for m.policy_number)
        (get (key_for m.policy_number) run.created_for) run
  by_kind line exact m run =
      write_link line (truthy m.ledger_id) (record run { exact = run.exact + 1 })
  by_kind line normalized m run =
      write_link line (truthy m.ledger_id) (record run { normalized = run.normalized + 1 })

  -- The body of the loop.
  unfoldable pub link_line : Line → MatchResult → LinkRun → LinkRun
  link_line line m run = by_kind line m.kind m (record run { examined = run.examined + 1 })

  unfoldable pub link_lines : Dict Text → Dict Text → Dict Policy → List Line → LinkRun → LinkRun
  unfolding link_line
  link_lines ex norm book [] run = run
  link_lines ex norm book (line ∷ lines) run =
      link_lines ex norm book lines
        (link_line line (match_line line.policy_number ex norm book) run)

  abbrev pub empty_run : List LinkError → LinkRun
  empty_run errors = record {
    examined = 0;
    exact = 0;
    normalized = 0;
    created = 0;
    unmatched = 0;
    ledger_rows_created = 0;
    unmatched_policies = [];
    errors = errors;
    created_for = [];
    inserted = [];
    linked_lines = [];
  }

  -- `none` for the book is a read that raises: the third rung is then not there.
  abbrev over_book : List Line → List LedgerKey → Option (List Policy) → LinkRun
  over_book lines ledger (some book) =
      link_lines (index_ledger ledger).0 (index_ledger ledger).1 (index_book book) lines
        (empty_run [])
  over_book lines ledger none =
      link_lines (index_ledger ledger).0 (index_ledger ledger).1 [] lines
        (empty_run (book_read ∷ []))

  abbrev pub from_orphans : List Line → List LedgerKey → Option (List Policy) → LinkRun
  from_orphans [] ledger book = empty_run []
  from_orphans (line ∷ lines) ledger book = over_book (line ∷ lines) ledger book

  unfoldable pub relink_unmatched : List Line → List LedgerKey → Option (List Policy) → LinkRun
  unfolding link_lines
  relink_unmatched lines ledger book = from_orphans (orphans lines) ledger book
