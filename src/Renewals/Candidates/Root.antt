-- ===== src/Renewals/Candidates/Root.antt =====
-- The walk to the root of a chain of renewals, and why it ends.
use rsg_hermes.Prelude.{
  ℕ, zero, suc, ◌+◌, ◌≤◌, ◌<◌, ◌≡◌, refl, sym, ◌∙◌, ◌⊎◌, inl, inr, true, false, Option, none, some,
  List, [], ◌∷◌, arith, if◌then◌else◌, any, length, Bool-cases, Option-cases,
}
use mathlib.Core.Path.{subst}
use rsg_hermes.Prelude.Text.{Text, text_eq}
use rsg_hermes.Prelude.Dict.{Dict, get, get-set_default, text_eq→eq, text_eq_iff}
use rsg_hermes.Renewals.Candidates.{
  Row, first_of, number_of, other_than, renewed_from, walk, root_number, index_number,
  index_successor, index_from, index,
}

-- The entries whose key has not been seen.
abbrev unseen : List Text → Dict Row → ℕ
unseen seen [] = 0
unseen seen ((k, r) ∷ d) = (if any (text_eq k) seen then 0 else 1) + unseen seen d

unseen_le : (k : Text) (seen : List Text) (d : Dict Row) → unseen (k ∷ seen) d ≤ unseen seen d
unseen_le k seen [] = omega arith
unseen_le k seen ((j, r) ∷ d) = ground (arith, unseen_le k seen d)

unseen_lt :
    (k : Text) (r : Row) (seen : List Text) (d : Dict Row)
    → get k d ≡ some r
    → any (text_eq k) seen ≡ false
    → unseen (k ∷ seen) d < unseen seen d
unfolding get
unseen_lt k r seen [] e h = cc
unseen_lt k r seen ((j, q) ∷ d) e h =
    ground (arith, text_eq_iff j k, unseen_le k seen d, unseen_lt k r seen d)

unseen-length : (d : Dict Row) → unseen [] d ≡ length d
unseen-length [] = refl
unseen-length (e ∷ d) = omega (arith, unseen-length d)

-- Each row is held at its own number.
abbrev pub IsKeyed : Dict Row → Type 0
IsKeyed d = (k : Text) (r : Row) → get k d ≡ some r → number_of r ≡ k

-- What following predecessors from a row can name.
pub data Names (d : Dict Row) : Row → Text → Type 0 where
  itself : (r : Row) → Names d r (number_of r)
  predecessor_named : (r : Row) (p : Text) → renewed_from r ≡ some p → Names d r p
  by_step :
      (r next : Row) (p t : Text)
      → renewed_from r ≡ some p
      → get p d ≡ some next
      → Names d next t
      → Names d r t

other_than-some : (pn rp p : Text) → other_than pn rp ≡ some p → text_eq p pn ≡ false
other_than-some pn [] p e = cc
other_than-some pn (c ∷ rp) p e = ground arith

renewed_from-other :
    (r : Row) (p : Text) → renewed_from r ≡ some p → text_eq p (number_of r) ≡ false
unfolding renewed_from
renewed_from-other r p e = other_than-some (number_of r) _ p e

module _ (d : Dict Row) (keyed : IsKeyed d) where
  abbrev Ends : ℕ → List Text → Row → Type 0
  Ends n seen cur = (t : Text) × (walk n d seen cur ≡ some t) × Names d cur t

  -- One round of the loop, if the walk ends from each row that it may move to.
  module _ (n : ℕ) (seen : List Text) (cur : Row) (room : unseen (number_of cur ∷ seen) d < suc n)
      (ih : (next : Row)
        → unseen (number_of next ∷ number_of cur ∷ seen) d < n
        → Ends n (number_of cur ∷ seen) next) where
    moved :
        (p : Text) (next : Row)
        → renewed_from cur ≡ some p
        → any (text_eq p) seen ≡ false
        → get p d ≡ some next
        → Ends n (number_of cur ∷ seen) next
    moved p next e fresh held = ih next (
        rw (keyed p next held) (
          omega (
            arith,
            room,
            unseen_lt p next (number_of cur ∷ seen) d held
                (rw (renewed_from-other cur p e, fresh) refl),
          )))

    first_named :
        (p : Text)
        → renewed_from cur ≡ some p
        → (pn : Text) → number_of cur ≡ pn
        → Names d cur (first_of pn p)
    first_named p e [] f = predecessor_named cur p e
    first_named p e (c ∷ pn) f = subst (Names d cur) f (itself cur)

    named-Ends : (p : Text) → renewed_from cur ≡ some p → Ends (suc n) seen cur
    unfolding walk
    named-Ends p e = elim (Bool-cases (any (text_eq p) seen)) [
      | inl old ↦ (
        first_of (number_of cur) p,
        rw (e, walk) (rw old refl),
        first_named p e (number_of cur) refl,
      )
      | inr new ↦ elim (Option-cases (get p d)) [
        | inl gone ↦ (p, rw (e, walk) (rw (new, walk) (rw gone refl)), predecessor_named cur p e)
        | inr (next, held) ↦
            let (t, ends, names) = moved p next e new held in
            (t, rw (e, walk) (rw (new, walk) (rw held ends)), by_step cur next p t e held names)
      ]
    ]

    round-Ends : Ends (suc n) seen cur
    unfolding walk
    round-Ends = elim (Option-cases (renewed_from cur)) [
      | inl e ↦ (number_of cur, rw (e, walk) refl, itself cur)
      | inr (p, e) ↦ named-Ends p e
    ]

  walk-Ends :
      (n : ℕ) (seen : List Text) (cur : Row) → unseen (number_of cur ∷ seen) d < n → Ends n seen cur
  walk-Ends zero seen cur h = absurd (omega (arith, h))
  walk-Ends (suc n) seen cur h =
      round-Ends n seen cur h (λ next room. walk-Ends n (number_of cur ∷ seen) next room)

index_number-IsKeyed :
    (r : Row) (pn : Text)
    → number_of r ≡ pn
    → (d : Dict Row) → IsKeyed d
    → IsKeyed (index_number pn r d)
index_number-IsKeyed r [] e d h k q held = h k q held
index_number-IsKeyed r (c ∷ pn) e d h k q held =
    keyed_at (Bool-cases (text_eq (c ∷ pn) k)) (sym (get-set_default (c ∷ pn) k r d) ∙ held)
  where
    first_kept :
        (o : Option Row)
        → get (c ∷ pn) d ≡ o
        → elim o [ none ↦ some r | some w ↦ some w ] ≡ some q
        → number_of q ≡ c ∷ pn
    first_kept none f g = cc (e, g)
    first_kept (some w) f g = h (c ∷ pn) q (f ∙ g)

    keyed_at :
        (text_eq (c ∷ pn) k ≡ true) ⊎ (text_eq (c ∷ pn) k ≡ false)
        → (if text_eq (c ∷ pn) k
            then elim (get (c ∷ pn) d) [ none ↦ some r | some w ↦ some w ]
            else get k d)
          ≡ some q
        → number_of q ≡ k
    keyed_at (inl same) g =
        first_kept (get (c ∷ pn) d) refl (rw same at g) ∙ text_eq→eq (c ∷ pn) k same
    keyed_at (inr other) g = h k q (rw other at g)

-- What the index holds at a number is a row of that number.
index_from-IsKeyed :
    (rs : List Row) (d : Dict Row) (s : Dict (List Row)) → IsKeyed d → IsKeyed (index_from d s rs).0
unfolding index_from
index_from-IsKeyed [] d s h k q held = h k q held
index_from-IsKeyed (r ∷ rs) d s h k q held =
    index_from-IsKeyed rs (index_number (number_of r) r d) (index_successor (renewed_from r) r s)
      (index_number-IsKeyed r (number_of r) refl d h) k q held

pub index-IsKeyed : (policies : List Row) → IsKeyed (index policies).0
unfolding index get
index-IsKeyed policies = index_from-IsKeyed policies [] [] (λ k q held. cc)

-- In every book, the walk from a row to the root of its chain ends within the fuel, also where the
-- chain runs in a circle, and the root is the row's own number or one that following predecessors from
-- the row names.
pub root_number_ends :
    (policies : List Row) (r : Row)
    → (walk (suc (length (index policies).0)) (index policies).0 [] r
        ≡ some (root_number r (index policies).0))
      × Names (index policies).0 r (root_number r (index policies).0)
unfolding root_number index
root_number_ends policies r =
    let (t, ends, names) =
      walk-Ends (index policies).0 (index-IsKeyed policies) (suc (length (index policies).0)) [] r (
        omega (
          arith,
          unseen_le (number_of r) [] (index policies).0,
          unseen-length (index policies).0,
        )) in
    rw ends (refl, names)
