-- ===== src/Commissions/Matching/Indexes.antt =====
-- What the indexes of the ledger answer, and that the ladder links a line to its own policy only.
use mathlib.Core.Path.{subst}
use rsg_hermes.Prelude.{
  ◌≡◌, ◌≢◌, ◌↔◌, refl, sym, ◌∙◌, ap, Bool, true, false, ◌&&◌, ◌||◌, Option, none, some, List, [],
  ◌∷◌, arith, any, or_else, Bool-cases, Option-cases, ◌⊎◌, inl, inr, All, if◌then◌else◌,
}
use rsg_hermes.Prelude.Text.{Text, text_eq}
use rsg_hermes.Prelude.Dict.{
  Dict, get, pop, get-set_default, get-pop, text_eq_iff, text_eq→eq, text_eq_refl,
}
use rsg_hermes.Commissions.Matching.{
  LedgerKey, Indexing, normalize_policy_number, number_in, index_numbered, index_key, collide,
  index_row, index_rows, drop_keys, index_ledger,
}

-- The key and the id under which a row is indexed, if it has both.
abbrev keyed : Text → Text → Text → Option Text
keyed [] number row_id = none
keyed (c ∷ key) number row_id = some (c ∷ key)

abbrev usable : Text → Text → Bool
usable [] row_id = false
usable (c ∷ number) [] = false
usable (c ∷ number) (d ∷ row_id) = true

-- Row `row` has the key `k`: its number and its id are not empty, and its number normalizes to `k`.
abbrev pub has_key : Text → LedgerKey → Bool
has_key k row =
    usable (number_in row) (or_else row.id [])
    && text_eq (normalize_policy_number (number_in row)) k

-- What the loop holds under one key: the first id, and whether another has been met.
abbrev View : Type 0
View = Option Text × Bool

abbrev in_list : Text → List Text → Bool
in_list k ks = any (λ j. text_eq j k) ks

abbrev view : Text → Indexing → View
view k ix = (get k ix.normalized, in_list k ix.collisions)

abbrev meet : Text → View → View
meet i (none, c) = (some i, c)
meet i (some j, c) = if text_eq j i then (some j, c) else (some j, true)

-- What one row does under its own key, and under another.
collide_self :
    (key row_id : Text) (ix : Indexing)
    → view key (collide key row_id (get key ix.normalized) ix) ≡ meet row_id (view key ix)
collide_self key row_id ix = elim (Option-cases (get key ix.normalized)) [
  | inl absent ↦
      rw absent
        (ground (arith, get-set_default key key row_id ix.normalized, text_eq_refl key, absent))
  | inr (j, met) ↦ elim (Bool-cases (text_eq j row_id)) [
    | inl again ↦
        rw (met, again)
          (ground (arith, get-set_default key key row_id ix.normalized, text_eq_refl key, met))
    | inr clash ↦ rw (met, clash, text_eq_refl key) (rw met refl)
  ]
]

collide_other :
    (k key row_id : Text) (o : Option Text) (ix : Indexing)
    → text_eq key k ≡ false
    → view k (collide key row_id o ix) ≡ view k ix
collide_other k key row_id none ix ne = rw (get-set_default, ne)
collide_other k key row_id (some j) ix ne = elim (Bool-cases (text_eq j row_id)) [
  | inl again ↦ rw again (rw (get-set_default, ne))
  | inr clash ↦ rw (clash, ne)
]

view-index_key :
    (k key row_id : Text) (ix : Indexing)
    → k ≢ []
    → view k (index_key key row_id ix)
      ≡ (if text_eq key k then meet row_id (view k ix) else view k ix)
view-index_key [] [] row_id ix ne = absurd (ne refl)
view-index_key (c ∷ k) [] row_id ix ne = refl
view-index_key k (c ∷ key) row_id ix ne = elim (Bool-cases (text_eq (c ∷ key) k)) [
  | inl same ↦ rw same (rw (← text_eq→eq (c ∷ key) k same) (collide_self (c ∷ key) row_id ix))
  | inr other ↦ rw other (collide_other k (c ∷ key) row_id (get (c ∷ key) ix.normalized) ix other)
]

numbered_view :
    (k number row_id : Text) (ix : Indexing)
    → k ≢ []
    → view k (index_numbered number row_id ix) ≡ (
        if usable number row_id && text_eq (normalize_policy_number number) k
        then meet row_id (view k ix)
        else view k ix)
numbered_view k [] row_id ix ne = refl
numbered_view k (c ∷ number) [] ix ne = refl
numbered_view k (c ∷ number) (d ∷ row_id) ix ne =
    view-index_key k (normalize_policy_number (c ∷ number)) (d ∷ row_id) _ ne

row_view :
    (k : Text) (row : LedgerKey) (ix : Indexing)
    → k ≢ []
    → view k (index_row row ix)
      ≡ (if has_key k row then meet (or_else row.id []) (view k ix) else view k ix)
unfolding index_row
row_view k row ix ne = numbered_view k (number_in row) (or_else row.id []) ix ne

-- The answer under a key whose view is given.
abbrev answer : View → Option Text
answer (o, true) = none
answer (o, false) = o

get-drop_keys :
    (k : Text) (ks : List Text) (d : Dict Text)
    → get k (drop_keys ks d) ≡ answer (get k d, in_list k ks)
unfolding drop_keys
get-drop_keys k [] d = refl
get-drop_keys k (j ∷ ks) d =
    get-drop_keys k ks (pop j d) ∙ rw get-pop (by_test (text_eq j k) (in_list k ks))
  where
    by_test : (b c : Bool) → answer (if b then none else get k d, c) ≡ answer (get k d, b || c)
    by_test true true = refl
    by_test true false = refl
    by_test false true = refl
    by_test false false = refl

abbrev through : Text → List LedgerKey → View → View
through k [] v = v
through k (row ∷ rows) v = through k rows (if has_key k row then meet (or_else row.id []) v else v)

rows_view :
    (k : Text) (rows : List LedgerKey) (ix : Indexing)
    → k ≢ []
    → view k (index_rows rows ix) ≡ through k rows (view k ix)
unfolding index_rows
rows_view k [] ix ne = refl
rows_view k (row ∷ rows) ix ne =
    rows_view k rows (index_row row ix) ne ∙ ap (through k rows) (row_view k row ix ne)

get-index_ledger :
    (k : Text) (rows : List LedgerKey)
    → k ≢ []
    → get k (index_ledger rows).1 ≡ answer (through k rows (none, false))
unfolding index_ledger get
get-index_ledger k rows ne =
    let ix = index_rows rows (record { exact = []; normalized = []; collisions = [] }) in
    get-drop_keys k ix.collisions ix.normalized
    ∙ ap answer (rows_view k rows (record { exact = []; normalized = []; collisions = [] }) ne)

-- Every row with the key has the id `i`.
abbrev pub AllHave : Text → Text → List LedgerKey → Type 0
AllHave k i rows = All (λ row. (has_key k row ≡ false) ⊎ (or_else row.id [] ≡ i)) rows

its_id : (b : Bool) (j i : Text) → b ≡ true → (b ≡ false) ⊎ (j ≡ i) → j ≡ i
its_id b j i has (inl not_it) = cc (has, not_it)
its_id b j i has (inr same) = same

clashed :
    (k : Text) (rows : List LedgerKey) (o : Option Text) → answer (through k rows (o, true)) ≡ none
clashed k [] o = refl
clashed k (row ∷ rows) none = elim (Bool-cases (has_key k row)) [
  | inl has ↦ rw has (clashed k rows (some (or_else row.id [])))
  | inr not_it ↦ rw not_it (clashed k rows none)
]
clashed k (row ∷ rows) (some j) = elim (Bool-cases (has_key k row)) [
  | inl has ↦ elim (Bool-cases (text_eq j (or_else row.id []))) [
    | inl e ↦ rw (has, e) (clashed k rows (some j))
    | inr ne ↦ rw (has, ne) (clashed k rows (some j))
  ]
  | inr not_it ↦ rw not_it (clashed k rows (some j))
]

met_one :
    (k : Text) (rows : List LedgerKey) (j i : Text)
    → (answer (through k rows (some j, false)) ≡ some i) ↔ ((j ≡ i) × AllHave k j rows)
met_one k [] j i = (λ e. ((cc), tt), λ h. ap some h.0)
met_one k (row ∷ rows) j i = elim (Bool-cases (has_key k row)) [
  | inl has ↦ elim (Bool-cases (text_eq j (or_else row.id []))) [
    | inl e ↦
        let same = sym (text_eq→eq j (or_else row.id []) e) in
        let (to, from) = met_one k rows j i in
        (
          (λ h. let (p, all) = to (rw (has, e) at h) in (p, (inr same, all))),
          (λ h. rw (has, e) (from (h.0, h.1.1))),
        )
    | inr ne ↦ (
      (λ h. cc (clashed k rows (some j), rw (has, ne) at h)),
      (λ h. cc (ne, (text_eq_iff j (or_else row.id [])).1 (sym (its_id _ _ _ has h.1.0)))),
    )
  ]
  | inr not_it ↦
      let (to, from) = met_one k rows j i in
      (
        (λ h. let (p, all) = to (rw not_it at h) in (p, (inl not_it, all))),
        (λ h. rw not_it (from (h.0, h.1.1))),
      )
]

-- Some row has the key.
abbrev pub SomeHas : Text → List LedgerKey → Type 0
SomeHas k [] = ⊥
SomeHas k (row ∷ rows) = (has_key k row ≡ true) ⊎ SomeHas k rows

met_none :
    (k : Text) (rows : List LedgerKey) (i : Text)
    → (answer (through k rows (none, false)) ≡ some i) ↔ (SomeHas k rows × AllHave k i rows)
met_none k [] i = (λ e. cc e, λ h. absurd h.0)
met_none k (row ∷ rows) i = elim (Bool-cases (has_key k row)) [
  | inl has ↦
      let (to, from) = met_one k rows (or_else row.id []) i in
      (
        (λ h.
            let (p, all) = to (rw has at h) in
            (inl has, (inr p, subst (λ x. AllHave k x rows) p all))),
        (λ h. rw has (
            from (
              its_id _ _ _ has h.1.0,
              subst (λ x. AllHave k x rows) (sym (its_id _ _ _ has h.1.0)) h.1.1,
            ))),
      )
  | inr not_it ↦
      let (to, from) = met_none k rows i in
      (
        (λ h. let (some_row, all) = to (rw not_it at h) in (inr some_row, (inl not_it, all))),
        (λ h. elim h.0 [ inl has ↦ cc (has, not_it) | inr more ↦ rw not_it (from (more, h.1.1)) ]),
      )
]

-- The normalized index answers an id under a key exactly if some ledger row has the key and every row
-- that has it has that id: a key that two rows share is answered by nothing.
pub index_unambiguous :
    (k i : Text) (rows : List LedgerKey)
    → k ≢ []
    → (get k (index_ledger rows).1 ≡ some i) ↔ (SomeHas k rows × AllHave k i rows)
index_unambiguous k i rows ne = rw (get-index_ledger k rows ne) (met_none k rows i)
