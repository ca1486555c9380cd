-- ===== src/Commissions/Matching/Tally.antt =====
-- What a run of `relink_unmatched` has counted and written so far.
use rsg_hermes.Prelude.{
  ℕ, suc, ◌+◌, ◌≡◌, ◌≢◌, Bool, false, none, some, List, [], ◌∷◌, ◌++◌, length, All, All-map,
  All-append, arith, Bool-cases, inl, inr, if◌then◌else◌,
}
use rsg_hermes.Prelude.Text.{Text, text_eq}
use rsg_hermes.Prelude.Dict.{Dict, get, assign, get-assign, text_eq→eq, text_eq_refl}
use rsg_hermes.Commissions.Matching.Relink.{
  Line, LinkError, book_read, create_ledger, link_transaction, Env, LinkRun, set_ledger,
}

-- The ledger rows that could not be made.
abbrev pub create_failures : List LinkError → ℕ
create_failures [] = 0
create_failures (create_ledger n ∷ es) = suc (create_failures es)
create_failures (_ ∷ es) = create_failures es

pub create_failures-append :
    (es fs : List LinkError) → create_failures (es ++ fs) ≡ create_failures es + create_failures fs
create_failures-append [] fs = omega arith
create_failures-append (book_read ∷ es) fs = create_failures-append es fs
create_failures-append (create_ledger n ∷ es) fs = omega (arith, create_failures-append es fs)
create_failures-append (link_transaction i ∷ es) fs = create_failures-append es fs

abbrev pub Distinct : List Text → Type 0
Distinct [] = Unit
Distinct (k ∷ ks) = All (λ j. text_eq k j ≡ false) ks × Distinct ks

pub Distinct-snoc :
    (ks : List Text) (k : Text)
    → Distinct ks
    → All (λ j. text_eq j k ≡ false) ks
    → Distinct (ks ++ k ∷ [])
Distinct-snoc [] k d a = (tt, tt)
Distinct-snoc (j ∷ ks) k d a = (All-append _ ks (k ∷ []) d.0 (a.0, tt), Distinct-snoc ks k d.1 a.1)

-- All but `pending` of the `total` lines examined are counted under one kind or failed to get their ledger
-- row; each key got one row at most.
pub record IsCounted (pending total : ℕ) (run : LinkRun) : Type 0 where
  pub seen : run.examined ≡ total
  pub balance :
      run.examined
      ≡ pending
        + run.exact
        + run.normalized
        + run.created
        + run.unmatched
        + create_failures run.errors
  pub rows : run.ledger_rows_created ≡ length run.inserted
  pub known : All (λ k. get k run.created_for ≢ none) run.inserted
  pub once : Distinct run.inserted

pub set-IsCounted :
    (env : Env) (dry_run : Bool) (n t : ℕ) (line : Line) (i : Text) (run : LinkRun)
    → IsCounted n t run
    → IsCounted n t (set_ledger env dry_run line i run)
set-IsCounted env dry_run n t line i run c = elim (Bool-cases (env.links line.id i)) [
  | inl done ↦
      rw done (record {
        seen = c.seen;
        balance = c.balance;
        rows = c.rows;
        known = c.known;
        once = c.once;
      })
  | inr refused ↦ rw refused (record {
    seen = c.seen;
    balance =
        omega (arith, c.balance, create_failures-append run.errors (link_transaction line.id ∷ []));
    rows = c.rows;
    known = c.known;
    once = c.once;
  })
]

-- A key that has no row yet is none of those inserted.
pub fresh_key :
    (key : Text) (d : Dict Text) (ks : List Text)
    → get key d ≡ none
    → All (λ k. get k d ≢ none) ks
    → All (λ k. text_eq k key ≡ false) ks
fresh_key key d ks absent = All-map ks λ k here. elim (Bool-cases (text_eq k key)) [
  | inl same ↦ absurd (here (rw (text_eq→eq k key same) absent))
  | inr other ↦ other
]

pub known_kept :
    (key i : Text) (d : Dict Text) (ks : List Text)
    → All (λ k. get k d ≢ none) ks
    → All (λ k. get k (assign key i d) ≢ none) ks
known_kept key i d ks known = All-map ks (λ k here. rw get-assign (kept k here)) known
  where
    kept : (k : Text) → get k d ≢ none → (if text_eq key k then some i else get k d) ≢ none
    kept k here = elim (Bool-cases (text_eq key k)) [
      | inl same ↦ rw same (λ e. cc)
      | inr other ↦ rw other here
    ]

pub known_after :
    (key i : Text) (d : Dict Text) (ks : List Text)
    → All (λ k. get k d ≢ none) ks
    → All (λ k. get k (assign key i d) ≢ none) (ks ++ key ∷ [])
known_after key i d ks known =
    All-append (λ k. get k (assign key i d) ≢ none) ks (key ∷ []) (known_kept key i d ks known)
      ((λ e. cc (get-assign key key i d, text_eq_refl key, e)), tt)
