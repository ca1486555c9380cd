-- ===== src/Commissions/Matching/Keys.antt =====
-- What normalizing a policy number forgets.
use rsg_hermes.Prelude.{ℕ, ◌↔◌, ◌≡◌, refl, ap, true, false, [], ◌∷◌, Bool-cases, inl, inr}
use rsg_hermes.Prelude.Text.{Text, to_upper}
use rsg_hermes.Commissions.Matching.{is_alnum, normalize_policy_number}

-- Two spellings of a number: they differ in characters that are no letter or digit, and in case.
pub data Spelling : Text → Text → Type 0 where
  same : Spelling [] []
  punctuated : {c : ℕ} {s t : Text} → is_alnum c ≡ false → Spelling s t → Spelling (c ∷ s) t
  omitted : {c : ℕ} {s t : Text} → is_alnum c ≡ false → Spelling s t → Spelling s (c ∷ t)
  letter :
      {c d : ℕ} {s t : Text}
      → is_alnum c ≡ true
      → is_alnum d ≡ true
      → to_upper c ≡ to_upper d
      → Spelling s t
      → Spelling (c ∷ s) (d ∷ t)

Spelling→eq : {s t : Text} → Spelling s t → normalize_policy_number s ≡ normalize_policy_number t
unfolding normalize_policy_number
Spelling→eq same = refl
Spelling→eq (punctuated n p) = rw n (Spelling→eq p)
Spelling→eq (omitted n p) = rw n (Spelling→eq p)
Spelling→eq (letter {c = c} {d = d} a b e p) =
    rw (a, b, e) (ap (λ r. to_upper d ∷ r) (Spelling→eq p))

eq→Spelling : (s t : Text) → normalize_policy_number s ≡ normalize_policy_number t → Spelling s t
unfolding normalize_policy_number
eq→Spelling [] [] e = same
eq→Spelling [] (d ∷ t) e = elim (Bool-cases (is_alnum d)) [
  | inl y ↦ cc (rw y at e)
  | inr n ↦ omitted n (eq→Spelling [] t (rw n at e))
]
eq→Spelling (c ∷ s) [] e = elim (Bool-cases (is_alnum c)) [
  | inl y ↦ cc (rw y at e)
  | inr n ↦ punctuated n (eq→Spelling s [] (rw n at e))
]
eq→Spelling (c ∷ s) (d ∷ t) e = elim (Bool-cases (is_alnum c)) [
  | inr n ↦ punctuated n (eq→Spelling s (d ∷ t) (rw n at e))
  | inl y ↦ elim (Bool-cases (is_alnum d)) [
    | inr n ↦ omitted n (eq→Spelling (c ∷ s) t (rw n at e))
    | inl z ↦ let both = rw (y, z) at e in letter y z (cc both) (eq→Spelling s t (cc both))
  ]
]

-- Two policy numbers are normalized to one key exactly if they are spellings of each other: alike but
-- for case and for characters that are no letter or digit.
pub Spelling-iff :
    (s t : Text) → Spelling s t ↔ (normalize_policy_number s ≡ normalize_policy_number t)
Spelling-iff s t = (Spelling→eq, eq→Spelling s t)
