-- ===== src/Renewals/Candidates/Pair.antt =====
-- A term and the one that renews it: which of the two is the event.
use rsg_hermes.Prelude.{
  ℕ, ◌≡◌, ◌≢◌, refl, sym, ◌∙◌, ap, inl, inr, ◌⊎◌, true, false, Bool, Option, none, some, List, [],
  ◌∷◌, ◌++◌, ◌&&◌, or_else, if◌then◌else◌, arith, any, Bool-cases, append-nil, append_assoc,
}
use rsg_hermes.Prelude.Int.{ℤ}
use rsg_hermes.Prelude.Text.{Text, text_eq}
use rsg_hermes.Prelude.Dict.{Dict, get, text_eq_refl, text_eq_iff}
use rsg_hermes.Renewals.Eligibility.{
  evaluate, medicare, current_term, LineageContext, status, effective, expiration, Policy,
}
use rsg_hermes.Renewals.Eligibility.Rule.{
  event_in, evaluate_lem, current_event, staged_event, either_event,
}
use rsg_hermes.Renewals.Candidates.{
  Row, aligned, number_of, renewed_from, succeeds, valid_successor, is_some, append_at,
  index_successor, index_number, index_from, index, lineage_for, lineage_in,
}
use rsg_hermes.Renewals.Candidates.Root.{index-IsKeyed}
use rsg_hermes.Renewals.Candidates
use rsg_hermes.Renewals.Lifecycle.{Lifecycle}

-- The successors that the book lists for a number, in the book's order.
abbrev pub renewals_of : Text → List Row → List Row
renewals_of k [] = []
renewals_of k (r ∷ rs) =
    let rest = renewals_of k rs in
    elim (renewed_from r) [ none ↦ rest | some pred ↦ if text_eq pred k then r ∷ rest else rest ]

get-append_at :
    (j k : Text) (r : Row) (d : Dict (List Row))
    → or_else (get k (append_at j r d)) []
      ≡ (if text_eq j k then or_else (get k d) [] ++ r ∷ [] else or_else (get k d) [])
unfolding get append_at
get-append_at j k r [] = ground arith
get-append_at j k r ((i, rs) ∷ d) =
    ground (arith, text_eq_iff j k, text_eq_iff i k, text_eq_iff i j, get-append_at j k r d)

successors_from :
    (rs : List Row) (d : Dict Row) (s : Dict (List Row)) (k : Text)
    → or_else (get k (index_from d s rs).1) [] ≡ or_else (get k s) [] ++ renewals_of k rs
unfolding index_from
successors_from [] d s k = sym (append-nil (or_else (get k s) []))
successors_from (r ∷ rs) d s k =
    successors_from rs (index_number (number_of r) r d) (index_successor (renewed_from r) r s) k
    ∙ by_predecessor (renewed_from r)
  where
    by_predecessor :
        (o : Option Text)
        → or_else (get k (index_successor o r s)) [] ++ renewals_of k rs
          ≡ or_else (get k s) [] ++ elim o [
            | none ↦ renewals_of k rs
            | some pred ↦ if text_eq pred k then r ∷ renewals_of k rs else renewals_of k rs
          ]
    by_predecessor none = refl
    by_predecessor (some pred) = rw (get-append_at pred k r s) (added (Bool-cases (text_eq pred k)))
      where
        added :
            (text_eq pred k ≡ true) ⊎ (text_eq pred k ≡ false)
            → (if text_eq pred k then or_else (get k s) [] ++ r ∷ [] else or_else (get k s) [])
                ++ renewals_of k rs
              ≡ or_else (get k s) []
                ++ (if text_eq pred k then r ∷ renewals_of k rs else renewals_of k rs)
        added (inl e) = rw e (append_assoc (or_else (get k s) []) (r ∷ []) (renewals_of k rs))
        added (inr e) = rw e refl

-- Some row of the list succeeds.
has_successor :
    (exp : Option ℕ) (rs : List Row) → is_some (valid_successor exp rs) ≡ any (succeeds exp) rs
has_successor exp [] = refl
has_successor exp (s ∷ rs) = ground (arith, has_successor exp rs)

-- A policy of the book has a valid successor exactly if some row of the book names it as the policy that
-- it renews, is staged or current, and begins within three days of its expiration.
pub has_valid_successor_lem :
    (policies : List Row) (r : Row) (today : ℕ)
    → (lineage_in policies r today).has_valid_successor
      ≡ any (succeeds (Candidates.expiration r)) (renewals_of (number_of r) policies)
unfolding lineage_in lineage_for index get
has_valid_successor_lem policies r today =
    has_successor (Candidates.expiration r) (or_else (get (number_of r) (index policies).1) [])
    ∙ ap (any (succeeds (Candidates.expiration r))) (successors_from policies [] [] (number_of r))

any-renewals :
    (f : Row → Bool) (k : Text) (before after : List Row) (s : Row)
    → renewed_from s ≡ some k
    → f s ≡ true
    → any f (renewals_of k (before ++ s ∷ after)) ≡ true
any-renewals f k [] after s e h = rw (e, renewals_of) (rw (text_eq_refl k) (ground (arith, h)))
any-renewals f k (r ∷ before) after s e h =
    passed (renewed_from r) (any-renewals f k before after s e h)
  where
    passed :
        (o : Option Text)
        → any f (renewals_of k (before ++ s ∷ after)) ≡ true
        → any f (elim o [
          | none ↦ renewals_of k (before ++ s ∷ after)
          | some pred ↦
              if text_eq pred k
              then r ∷ renewals_of k (before ++ s ∷ after)
              else renewals_of k (before ++ s ∷ after)
        ])
          ≡ true
    passed none g = g
    passed (some pred) g = ground (arith, g)

aligned_comm : (a b : Option ℕ) → aligned a b ≡ aligned b a
aligned_comm none none = refl
aligned_comm none (some b) = refl
aligned_comm (some a) none = refl
aligned_comm (some a) (some b) = ground arith

succeeds_aligned :
    (s c : Row) (today : ℕ)
    → Candidates.staged s ≡ true
    → Candidates.follows (Candidates.effective s) today (some c) ≡ true
    → succeeds (Candidates.expiration c) s ≡ true
succeeds_aligned s c today st h = rw st (
    aligned_comm (Candidates.effective s) (Candidates.expiration c)
    ∙ second_true (Candidates.is_current_active c today) _ h)
  where
    second_true : (a b : Bool) → a && b ≡ true → b ≡ true
    second_true a b h = ground arith

followed_by :
    (s c : Row) (p : Text) (d : Dict Row) (ss : Dict (List Row)) (today : ℕ)
    → renewed_from s ≡ some p
    → get p d ≡ some c
    → (lineage_for s d ss today).follows_current_term ≡ true
    → Candidates.follows (Candidates.effective s) today (some c) ≡ true
unfolding lineage_for
followed_by s c p d ss today e held h =
    ap (Candidates.follows (Candidates.effective s) today)
      (sym (ap (Candidates.predecessor d) e ∙ held))
    ∙ h

not_as_current :
    (l : LineageContext) (p : Policy) (is_active : Bool) (year today : ℕ) (premium : Option ℤ)
    (window day : ℕ)
    → medicare p ≡ false
    → l.has_valid_successor ≡ true
    → event_in (evaluate p is_active year today premium (some l) window) ≢ some (current_term, day)
not_as_current l p false year today premium window day m h e =
    cc (e, evaluate_lem p false year today premium (some l) window)
not_as_current l p true year today premium window day m h e =
    other_branch (status p) (effective p) (expiration p)
      (sym (rw m at (evaluate_lem p true year today premium (some l) window)) ∙ e)
  where
    other_branch :
        (s : Lifecycle) (eff exp : Option ℕ)
        → either_event (current_event l today window s eff exp) (staged_event l today window s eff)
          ≢ some (current_term, day)
    other_branch s none none e = ground arith
    other_branch s none (some x) e = ground arith
    other_branch s (some a) none e = ground arith
    other_branch s (some a) (some x) e = ground (arith, h)

-- A current term that a staged row of the book follows is not a second event: if the staged row counts
-- as following the term that the book holds at its predecessor's number, and that term is not
-- Medicare's, the rule, with the lineage of the book, makes it no event of a current term on any day.
pub followed-not_event :
    (before after : List Row) (s c : Row) (p : Text) (today : ℕ) (is_active : Bool) (year : ℕ)
    (premium : Option ℤ) (window day : ℕ)
    → Candidates.staged s ≡ true
    → renewed_from s ≡ some p
    → get p (index (before ++ s ∷ after)).0 ≡ some c
    → (lineage_in (before ++ s ∷ after) s today).follows_current_term ≡ true
    → medicare c.policy ≡ false
    → event_in (
        evaluate c.policy is_active year today premium
          (some (lineage_in (before ++ s ∷ after) c today))
          window)
      ≢ some (current_term, day)
unfolding lineage_in
followed-not_event before after s c p today is_active year premium window day st e held follows m =
    not_as_current _ c.policy is_active year today premium window day m (
      has_valid_successor_lem (before ++ s ∷ after) c today
      ∙ any-renewals (succeeds (Candidates.expiration c)) (number_of c) before after s
          (e ∙ ap some (sym (index-IsKeyed (before ++ s ∷ after) p c held)))
          (succeeds_aligned s c today st
            (followed_by s c p (index (before ++ s ∷ after)).0 _ today e held follows)))
