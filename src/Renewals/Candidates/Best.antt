-- ===== src/Renewals/Candidates/Best.antt =====
-- Which candidate stands for a renewal event.
use rsg_hermes.Prelude.{
  ℕ, ◌≡◌, refl, sym, ◌∙◌, ap, inl, inr, true, false, Bool, Option, none, some, List, [], ◌∷◌, ◌++◌,
  ltb, ==_iff, map, if◌then◌else◌, arith, Bool-cases, ◌&&◌,
}
use rsg_hermes.Prelude.Dict.{text_eq→eq, text_eq_refl}
use rsg_hermes.Renewals.Candidates.{Row}
use rsg_hermes.Renewals.Candidates.Build.{
  Candidate, Key, key_eq, key_of, rank_in, keep, keep_all, Live, candidate_of, build_from,
  build_candidates,
}

-- Of two candidates for an event the first, unless the second ranks higher.
abbrev pub better : Option Candidate → Option Candidate → Option Candidate
better none o = o
better (some b) none = some b
better (some b) (some c) = if ltb (rank_in b) (rank_in c) then some c else some b

-- The first of the candidates of the highest rank among those of an event.
abbrev pub best_of : Key → List Candidate → Option Candidate
best_of k [] = none
best_of k (c ∷ cs) =
    let rest = best_of k cs in if key_eq (key_of c) k then better (some c) rest else rest

-- The candidates of the policies, in the book's order.
abbrev pub candidates_of : Live → List Row → List Row → List Candidate
candidates_of live policies [] = []
candidates_of live policies (r ∷ rs) =
    candidate_of live policies r ++ candidates_of live policies rs

abbrev pub entries : Key → List (ℕ × Candidate) → List (ℕ × Candidate)
entries k [] = []
entries k ((n, b) ∷ rest) =
    let more = entries k rest in if key_eq (key_of b) k then (n, b) ∷ more else more

abbrev ranked : Option Candidate → List (ℕ × Candidate)
ranked none = []
ranked (some c) = (rank_in c, c) ∷ []

key_eq→eq : (a b : Key) → key_eq a b ≡ true → a ≡ b
unfolding key_eq
key_eq→eq (a, b, c) (a', b', c') h =
    ap3 (text_eq→eq a a' (both_true _ _ (both_true _ _ h).0).0)
      (text_eq→eq b b' (both_true _ _ (both_true _ _ h).0).1) ((==_iff c c').0 (both_true _ _ h).1)
  where
    both_true : (x y : Bool) → x && y ≡ true → (x ≡ true) × (y ≡ true)
    both_true x y e = ground (arith, e)

    ap3 : a ≡ a' → b ≡ b' → c ≡ c' → ◌≡◌ {A = Key} (a, b, c) (a', b', c')
    ap3 p q r = rw p (rw q (rw r refl))

-- A key that equals another meets the same keys.
same_key : (a b k : Key) → key_eq a b ≡ true → key_eq a k ≡ key_eq b k
same_key a b k h = ap (λ x. key_eq x k) (key_eq→eq a b h)

key_eq_refl : (a : Key) → key_eq a a ≡ true
unfolding key_eq
key_eq_refl (a, b, c) = rw (text_eq_refl a) (rw (text_eq_refl b) ((==_iff c c).1 refl))

one_key : (a b k : Key) → key_eq a k ≡ true → key_eq b k ≡ true → key_eq a b ≡ true
one_key a b k h g = rw (key_eq→eq a k h) (rw (key_eq→eq b k g) (key_eq_refl k))

entries-keep_other :
    (k : Key) (c : Candidate) (best : List (ℕ × Candidate))
    → key_eq (key_of c) k ≡ false
    → entries k (keep c best) ≡ entries k best
unfolding keep
entries-keep_other k c [] h = rw h refl
entries-keep_other k c ((n, b) ∷ best) h =
    ground (arith, h, same_key (key_of b) (key_of c) k, entries-keep_other k c best h)

entries-keep_same :
    (k : Key) (c : Candidate) (best : List (ℕ × Candidate)) (o : Option Candidate)
    → key_eq (key_of c) k ≡ true
    → entries k best ≡ ranked o
    → entries k (keep c best) ≡ ranked (better o (some c))
unfolding keep
entries-keep_same k c [] none h e = rw h refl
entries-keep_same k c [] (some b) h e = cc
entries-keep_same k c ((n, b) ∷ best) none h e =
    ground (arith, h, e, same_key (key_of b) (key_of c) k, entries-keep_same k c best none h)
entries-keep_same k c ((n, b) ∷ best) (some d) h e = ground (
  arith,
  h,
  e,
  same_key (key_of b) (key_of c) k,
  one_key (key_of b) (key_of c) k,
  entries-keep_same k c best (some d) h,
)

better_assoc : (a b c : Option Candidate) → better (better a b) c ≡ better a (better b c)
better_assoc none b c = refl
better_assoc (some a) none c = refl
better_assoc (some a) (some b) none = ground arith
better_assoc (some a) (some b) (some c) = ground arith

better-none : (a : Option Candidate) → better a none ≡ a
better-none none = refl
better-none (some a) = refl

best_of-append :
    (k : Key) (cs ds : List Candidate) → best_of k (cs ++ ds) ≡ better (best_of k cs) (best_of k ds)
best_of-append k [] ds = refl
best_of-append k (c ∷ cs) ds = elim (Bool-cases (key_eq (key_of c) k)) [
  | inl h ↦ rw h (
      ap (better (some c)) (best_of-append k cs ds)
      ∙ sym (better_assoc (some c) (best_of k cs) (best_of k ds)))
  | inr h ↦ rw h (best_of-append k cs ds)
]

entries-keep_all :
    (k : Key) (cs : List Candidate) (best : List (ℕ × Candidate)) (o : Option Candidate)
    → entries k best ≡ ranked o
    → entries k (keep_all cs best) ≡ ranked (better o (best_of k cs))
unfolding keep_all
entries-keep_all k [] best o e = e ∙ ap ranked (sym (better-none o))
entries-keep_all k (c ∷ cs) best o e = elim (Bool-cases (key_eq (key_of c) k)) [
  | inl h ↦ rw h (
      entries-keep_all k cs (keep c best) (better o (some c)) (entries-keep_same k c best o h e)
      ∙ ap ranked (better_assoc o (some c) (best_of k cs)))
  | inr h ↦ rw h (entries-keep_all k cs (keep c best) o (entries-keep_other k c best h ∙ e))
]

entries-build_from :
    (live : Live) (policies rs : List Row) (k : Key) (best : List (ℕ × Candidate))
    (o : Option Candidate)
    → entries k best ≡ ranked o
    → entries k (build_from live policies rs best)
      ≡ ranked (better o (best_of k (candidates_of live policies rs)))
unfolding build_from
entries-build_from live policies [] k best o e = e ∙ ap ranked (sym (better-none o))
entries-build_from live policies (r ∷ rs) k best o e =
    entries-build_from live policies rs k (keep_all (candidate_of live policies r) best)
      (better o (best_of k (candidate_of live policies r)))
      (entries-keep_all k (candidate_of live policies r) best o e)
    ∙ ap ranked (
        better_assoc o (best_of k (candidate_of live policies r))
          (best_of k (candidates_of live policies rs))
        ∙ ap (better o) (
            sym (best_of-append k (candidate_of live policies r) (candidates_of live policies rs))))

-- The rows for an event.
abbrev pub rows_at : Key → List Candidate → List Candidate
rows_at k [] = []
rows_at k (c ∷ cs) = let rest = rows_at k cs in if key_eq (key_of c) k then c ∷ rest else rest

abbrev pub at_most_one : Option Candidate → List Candidate
at_most_one none = []
at_most_one (some c) = c ∷ []

rows-entries :
    (k : Key) (best : List (ℕ × Candidate))
    → rows_at k (map (λ e. e.1) best) ≡ map (λ e. e.1) (entries k best)
rows-entries k [] = refl
rows-entries k ((n, b) ∷ best) = elim (Bool-cases (key_eq (key_of b) k)) [
  | inl h ↦ rw h (ap (λ l. b ∷ l) (rows-entries k best))
  | inr h ↦ rw h (rows-entries k best)
]

-- `build_candidates` returns at most one row for each renewal event, that is, each insured, lineage and day: the
-- first of the candidates of the highest rank among those that the policies of the book give for it,
-- and none exactly if they give none.
pub build_candidates-best :
    (live : Live) (policies : List Row) (k : Key)
    → rows_at k (build_candidates live policies)
      ≡ at_most_one (best_of k (candidates_of live policies policies))
unfolding build_candidates
build_candidates-best live policies k =
    rows-entries k (build_from live policies policies [])
    ∙ ap (map (λ e. e.1)) (entries-build_from live policies policies k [] none refl)
    ∙ unranked (best_of k (candidates_of live policies policies))
  where
    unranked : (o : Option Candidate) → map (λ e. e.1) (ranked o) ≡ at_most_one o
    unranked none = refl
    unranked (some c) = refl
