-- ===== src/Renewals/Corrections/Keys.antt =====
-- A key and the event that it names.
use rsg_hermes.Prelude.{
  ℕ, ◌+◌, ◌≡◌, ◌<◌, ◌≤◌, refl, sym, ap, ◌∙◌, Option, none, some, [], ◌∷◌, ◌++◌, ltb, arith, ◌==◌,
  inl, inr, Bool-cases, false, ltb→lt, ==_iff,
}
use mathlib.Core.Path.{subst}
use rsg_hermes.Prelude.Text.{Text}
use rsg_hermes.Renewals.Corrections.{
  Row, key_sep, join, insured_of, lineage_of, event_date_of, candidate_key, count, split_first,
  split_last, split_key,
}

count-append : (s t : Text) → count (s ++ t) ≡ count s + count t
count-append [] t = omega arith
count-append (c ∷ s) t = omega (arith, count-append s t)

split_first-append : (a s : Text) → count a ≡ 0 → split_first (a ++ key_sep ∷ s) ≡ some (a, s)
split_first-append [] s h = refl
split_first-append (c ∷ a) s h = ground (arith, h, split_first-append a s)

split_last-none : (d : Text) → count d ≡ 0 → split_last d ≡ none
split_last-none [] h = refl
split_last-none (c ∷ d) h = ground (arith, h, split_last-none d)

split_last-append : (l d : Text) → count d ≡ 0 → split_last (l ++ key_sep ∷ d) ≡ some (l, d)
split_last-append [] d h = rw (split_last-none d h) refl
split_last-append (c ∷ l) d h = rw (split_last-append l d h) refl

split_key-join :
    (insured lineage event_date : Text)
    → count insured ≡ 0
    → count event_date ≡ 0
    → split_key (join insured lineage event_date) ≡ some (insured, lineage, event_date)
unfolding split_key
split_key-join i l d hi hd =
    rw (two_at_least, split_key)
      (rw (split_first-append i (l ++ key_sep ∷ d) hi) (rw (split_last-append l d hd) refl))
  where
    two_at_least : ltb (count (join i l d)) 2 ≡ false
    two_at_least =
        ground (arith, count-append i (key_sep ∷ (l ++ key_sep ∷ d)), count-append l (key_sep ∷ d))

-- The key of a candidate whose insured and day have no separator in them is split into the candidate's
-- insured, lineage and day, whatever its lineage has in it.
pub split_key-candidate_key :
    (r : Row)
    → count (insured_of r) ≡ 0
    → count (event_date_of r) ≡ 0
    → split_key (candidate_key r) ≡ some (insured_of r, lineage_of r, event_date_of r)
unfolding candidate_key
split_key-candidate_key r hi hd =
    split_key-join (insured_of r) (lineage_of r) (event_date_of r) hi hd

other_counted : (c : ℕ) (a : Text) → (c == key_sep) ≡ false → count a ≡ 0 → count (c ∷ a) ≡ 0
other_counted c a e z = ground (arith, e, z)

cut_first :
    (k : Text) → 0 < count k → (a : Text) × (s : Text) × (a ++ key_sep ∷ s ≡ k) × (count a ≡ 0)
cut_first [] h = absurd (omega (arith, h))
cut_first (c ∷ k) h = elim (Bool-cases (c == key_sep)) [
  | inl e ↦ ([], k, ap (λ x. x ∷ k) (sym ((==_iff c key_sep).0 e)), refl)
  | inr e ↦
      let (a, s, f, z) = cut_first k (ground (arith, h, e)) in
      (c ∷ a, s, ap (λ x. c ∷ x) f, other_counted c a e z)
]

cut_last :
    (k : Text) → 0 < count k → (l : Text) × (d : Text) × (l ++ key_sep ∷ d ≡ k) × (count d ≡ 0)
cut_last [] h = absurd (omega (arith, h))
cut_last (c ∷ k) h = elim (Bool-cases (ltb 0 (count k))) [
  | inl e ↦ let (l, d, f, z) = cut_last k (ltb→lt 0 (count k) e) in (c ∷ l, d, ap (λ x. c ∷ x) f, z)
  | inr e ↦ (
    [],
    k,
    ap (λ x. x ∷ k) (sym ((==_iff c key_sep).0 (ground (arith, h, e)))),
    ground (arith, e),
  )
]

-- Parts that join to the key, the first and the last without a separator.
abbrev pub IsSplit : Text → Option (Text × Text × Text) → Type 0
IsSplit key none = count key < 2
IsSplit key (some (i, l, d)) = (join i l d ≡ key) × (count i ≡ 0) × (count d ≡ 0)

split_key-joined :
    (i l d key : Text) → join i l d ≡ key → count i ≡ 0 → count d ≡ 0 → IsSplit key (split_key key)
split_key-joined i l d key e hi hd =
    subst (λ k. IsSplit k (split_key k)) e
      (subst (IsSplit (join i l d)) (sym (split_key-join i l d hi hd)) (refl, hi, hd))

rest_counted : (i s key : Text) → 2 ≤ count key → i ++ key_sep ∷ s ≡ key → count i ≡ 0 → 0 < count s
rest_counted i s key h e z = ground (arith, h, z, count-append i (key_sep ∷ s), ap count e)

-- A key with fewer than two separators is refused, and any other is split: into parts that join to it,
-- the first and the last without a separator.
pub split_key-IsSplit : (key : Text) → IsSplit key (split_key key)
unfolding split_key
split_key-IsSplit key = elim (Bool-cases (ltb (count key) 2)) [
  | inl few ↦ rw (few, split_key) (ltb→lt (count key) 2 few)
  | inr more ↦
      let (i, s, e, hi) = cut_first key (ground (arith, more)) in
      let (l, d, f, hd) = cut_last s (rest_counted i s key (ground (arith, more)) e hi) in
      split_key-joined i l d key (ap (λ x. i ++ key_sep ∷ x) f ∙ e) hi hd
]
