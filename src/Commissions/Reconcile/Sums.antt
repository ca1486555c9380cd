-- ===== src/Commissions/Reconcile/Sums.antt =====
-- What `rollup` adds up: the lines of the term, each once, in any order; and how the terms of a policy
-- share the lines of its history.
use mathlib.Core.Logic.{∥∥₁_elim}
use mathlib.Core.List.{Perm, Permᴰ}
use mathlib.Core.Path.{ap₂}
use native.Mathlib.Nat.{zero-add}
use rsg_hermes.Prelude.{
  ℕ, suc, ◌+◌, ◌≤◌, ◌≡◌, refl, sym, ◌∙◌, ap, Bool, true, false, ◌&&◌, ◌||◌, Option, none, some,
  List, [], ◌∷◌, length, ◌==◌, leb, ltb, or_else, arith, inl, inr, Bool-cases, if◌then◌else◌,
}
use rsg_hermes.Prelude.Int.{ℤ, pos, ◌+ℤ◌, +ℤ_assoc, int_laws}
use rsg_hermes.Python.Date.{parse_date}
use rsg_hermes.Commissions.Reconcile.{
  Transaction, LedgerRow, Rollup, Running, nothing, amount_of, dec, first_date, in_term, dated_in,
  term_window, add_line, add_lines, rollup,
}

-- The day on which the term of a row begins: the policy's first day, or the statement's if it has none.
abbrev pub begins : LedgerRow → Option ℕ
begins row = elim (parse_date row.policy_effective_date) [
  | none ↦ parse_date row.statement_date
  | some start ↦ some start
]

abbrev pub ends : LedgerRow → Option ℕ
ends row = parse_date row.policy_expiration_date

-- A line is the term's if it has a date that is not before the first day, and before the last, where
-- these are given.
abbrev pub is_within : Option ℕ → Option ℕ → Option ℕ → Bool
is_within _ _ none = false
is_within none none (some day) = true
is_within (some start) none (some day) = leb start day
is_within none (some end) (some day) = ltb day end
is_within (some start) (some end) (some day) = leb start day && ltb day end

-- The amount of a line, if it has one.
abbrev pub amount_or_zero : Option ℤ → ℤ
amount_or_zero none = pos 0
amount_or_zero (some amount) = amount

abbrev pub lines_within : Option ℕ → Option ℕ → List Transaction → List Transaction
lines_within start end [] = []
lines_within start end (txn ∷ txns) =
    let rest = lines_within start end txns in
    if is_within start end (parse_date txn.transaction_date) then txn ∷ rest else rest

abbrev pub sum_amounts : List Transaction → ℤ
sum_amounts [] = pos 0
sum_amounts (txn ∷ txns) = amount_or_zero (dec txn.commission_amount) +ℤ sum_amounts txns

-- The lines of a row's term.
abbrev pub own_lines : LedgerRow → List Transaction → List Transaction
own_lines row txns = lines_within (begins row) (ends row) txns

-- The sum and the number of the lines of a term, by recursion on the history.
abbrev term_sum : Option ℕ → Option ℕ → List Transaction → ℤ
term_sum start end [] = pos 0
term_sum start end (txn ∷ txns) =
    if in_term txn start end
    then amount_of txn +ℤ term_sum start end txns
    else term_sum start end txns

abbrev term_count : Option ℕ → Option ℕ → List Transaction → ℕ
term_count start end [] = 0
term_count start end (txn ∷ txns) =
    if in_term txn start end then suc (term_count start end txns) else term_count start end txns

within_lem : (start end day : Option ℕ) → dated_in start end day ≡ is_within start end day
within_lem none none none = refl
within_lem none none (some d) = refl
within_lem none (some e) none = refl
within_lem none (some e) (some d) = ground arith
within_lem (some s) none none = refl
within_lem (some s) none (some d) = ground arith
within_lem (some s) (some e) none = refl
within_lem (some s) (some e) (some d) = ground arith

amount_lem : (o : Option ℤ) → or_else o (pos 0) ≡ amount_or_zero o
amount_lem none = refl
amount_lem (some a) = refl

window_lem : (row : LedgerRow) → (term_window row).0 ≡ begins row
unfolding term_window
window_lem row = first_lem (parse_date row.policy_effective_date)
  where
    first_lem :
        (o : Option ℕ)
        → first_date o (parse_date row.statement_date)
          ≡ elim o [ none ↦ parse_date row.statement_date | some start ↦ some start ]
    first_lem none = refl
    first_lem (some d) = refl

window_end : (row : LedgerRow) → (term_window row).1 ≡ ends row
unfolding term_window
window_end row = refl

term_lines :
    (start end : Option ℕ) (txns : List Transaction)
    → (term_count start end txns ≡ length (lines_within start end txns))
      × (term_sum start end txns ≡ sum_amounts (lines_within start end txns))
unfolding in_term
term_lines start end [] = (refl, refl)
term_lines start end (txn ∷ txns) =
    let (n, t) = term_lines start end txns in
    let same = within_lem start end (parse_date txn.transaction_date) in
    elim (Bool-cases (is_within start end (parse_date txn.transaction_date))) [
      | inl e ↦
          rw same (rw e (ap suc n, ap₂ (λ x y. x +ℤ y) (amount_lem (dec txn.commission_amount)) t))
      | inr e ↦ rw same (rw e (n, t))
    ]

zero_left : (a : ℤ) → pos 0 +ℤ a ≡ a
zero_left a = omega int_laws

swap_sum : (t x y : ℤ) → t +ℤ y +ℤ x ≡ t +ℤ x +ℤ y
swap_sum t x y = omega int_laws

swap_in : (x s t : ℤ) → x +ℤ (s +ℤ t) ≡ s +ℤ (x +ℤ t)
swap_in x s t = omega int_laws

zero_right : (a : ℤ) → a +ℤ pos 0 ≡ a
zero_right a = omega int_laws

module _ (start end : Option ℕ) where
  total-add_lines :
      (txns : List Transaction) (r : Running)
      → (add_lines start end txns r).total ≡ r.total +ℤ term_sum start end txns
  unfolding add_lines
  total-add_lines [] r = sym (zero_right r.total)
  total-add_lines (txn ∷ txns) r = elim (Bool-cases (in_term txn start end)) [
    | inl e ↦
        total-add_lines txns (add_line start end txn r)
        ∙ rw (e, add_line) (+ℤ_assoc r.total (amount_of txn) (term_sum start end txns))
    | inr e ↦ total-add_lines txns (add_line start end txn r) ∙ rw (e, add_line)
  ]

  count-add_lines :
      (txns : List Transaction) (r : Running)
      → (add_lines start end txns r).in_count ≡ r.in_count + term_count start end txns
  unfolding add_lines
  count-add_lines [] r = omega arith
  count-add_lines (txn ∷ txns) r = ground (arith, count-add_lines txns (add_line start end txn r))

  lines-add_lines :
      (txns : List Transaction) (r : Running)
      → (add_lines start end txns r).in_count + (add_lines start end txns r).out_count
        ≡ r.in_count + r.out_count + length txns
  unfolding add_lines
  lines-add_lines [] r = omega arith
  lines-add_lines (txn ∷ txns) r = ground (arith, lines-add_lines txns (add_line start end txn r))

  add_line_comm :
      (a b : Transaction) (r : Running)
      → add_line start end a (add_line start end b r)
        ≡ add_line start end b (add_line start end a r)
  unfolding add_line
  add_line_comm a b r = ground (arith, swap_sum r.total (amount_of a) (amount_of b))

  add_lines-perm :
      {xs ys : List Transaction}
      → Permᴰ xs ys
      → (r : Running) → add_lines start end xs r ≡ add_lines start end ys r
  unfolding add_lines
  add_lines-perm Permᴰ.nil r = refl
  add_lines-perm (Permᴰ.cons {a = a} {l₂ = ys} e p) r =
      add_lines-perm p (add_line start end a r)
      ∙ ap (λ x. add_lines start end ys (add_line start end x r)) e
  add_lines-perm (Permᴰ.swap {a = a} {b = b} {a' = c} {b' = d} {l = l} e f) r =
      ap (add_lines start end l)
        (add_line_comm b a r ∙ ap₂ (λ x y. add_line start end x (add_line start end y r)) e f)
  add_lines-perm (Permᴰ.trans p q) r = add_lines-perm p r ∙ add_lines-perm q r

windowed_sums :
    (row : LedgerRow) (txns : List Transaction)
    → ((rollup row txns).actual ≡ (
        if term_count (term_window row).0 (term_window row).1 txns == 0
        then none
        else some (term_sum (term_window row).0 (term_window row).1 txns)))
      × ((rollup row txns).in_term_count ≡ term_count (term_window row).0 (term_window row).1 txns)
      × ((rollup row txns).in_term_count + (rollup row txns).out_of_term_count ≡ length txns)
      × ((rollup row txns).transaction_count ≡ length txns)
unfolding rollup
windowed_sums row txns =
    let (start, end) = term_window row in
    let c = count-add_lines start end txns nothing in
    let t = total-add_lines start end txns nothing ∙ zero_left (term_sum start end txns) in
    (
      rw (c, t, zero-add) refl,
      omega (arith, c),
      omega (arith, lines-add_lines start end txns nothing),
      refl,
    )

own_count :
    (row : LedgerRow) (txns : List Transaction)
    → term_count (term_window row).0 (term_window row).1 txns ≡ length (own_lines row txns)
own_count row txns =
    (λ j. term_count (window_lem row j) (window_end row j) txns)
    ∙ (term_lines (begins row) (ends row) txns).0

own_sum :
    (row : LedgerRow) (txns : List Transaction)
    → term_sum (term_window row).0 (term_window row).1 txns ≡ sum_amounts (own_lines row txns)
own_sum row txns =
    (λ j. term_sum (window_lem row j) (window_end row j) txns)
    ∙ (term_lines (begins row) (ends row) txns).1

-- The actual commission is the signed sum of the lines dated inside the term, and `None` if there is
-- none; every line is counted once, as inside or outside. The term runs from the policy's first day, or
-- from the statement's if the policy has none, to before its expiration, and a line without a date is
-- outside.
pub rollup_sums :
    (row : LedgerRow) (txns : List Transaction)
    → ((rollup row txns).actual ≡ (
        if length (own_lines row txns) == 0 then none else some (sum_amounts (own_lines row txns))))
      × ((rollup row txns).in_term_count ≡ length (own_lines row txns))
      × ((rollup row txns).in_term_count + (rollup row txns).out_of_term_count ≡ length txns)
      × ((rollup row txns).transaction_count ≡ length txns)
rollup_sums row txns =
    let (actual, inside, all, total) = windowed_sums row txns in
    (
      actual ∙ (λ j. if own_count row txns j == 0 then none else some (own_sum row txns j)),
      inside ∙ own_count row txns,
      all,
      total,
    )

length-perm : {xs ys : List Transaction} → Permᴰ xs ys → length xs ≡ length ys
length-perm Permᴰ.nil = refl
length-perm (Permᴰ.cons e p) = ap suc (length-perm p)
length-perm (Permᴰ.swap e f) = refl
length-perm (Permᴰ.trans p q) = length-perm p ∙ length-perm q

Rollup-set : IsSet Rollup
Rollup-set = hlevel

-- The rollup of a ledger row is the same for any order of the statement lines.
pub rollup-perm :
    (row : LedgerRow) (xs ys : List Transaction) → Perm xs ys → rollup row xs ≡ rollup row ys
unfolding rollup
rollup-perm row xs ys p = ∥∥₁_elim p (Rollup-set _ _) λ q.
    let (start, end) = term_window row in rw (add_lines-perm start end q nothing, length-perm q)

-- One amount, counted on the side that has it.
share :
    (i j k : Bool) (x s t : ℤ)
    → k ≡ i || j
    → i && j ≡ false
    → (if k then x +ℤ (s +ℤ t) else s +ℤ t) ≡ (if i then x +ℤ s else s) +ℤ (if j then x +ℤ t else t)
share true true k x s t e f = cc
share true false k x s t e f = rw e (sym (+ℤ_assoc x s t))
share false true k x s t e f = rw e (swap_in x s t)
share false false k x s t e f = rw e

dated_split :
    (a b c : ℕ) (when : Option ℕ)
    → a ≤ b
    → b ≤ c
    → (dated_in (some a) (some c) when
        ≡ dated_in (some a) (some b) when || dated_in (some b) (some c) when)
      × (dated_in (some a) (some b) when && dated_in (some b) (some c) when ≡ false)
dated_split a b c none h k = (refl, refl)
dated_split a b c (some w) h k = (ground arith, ground arith)

-- Two consecutive terms share no line and miss none: a line is in the term that runs from the first's
-- start to the second's end exactly if it is in one of them, and a line dated on the day on which the
-- first ends is the second's.
pub terms_split :
    (txn : Transaction) (a b c : ℕ)
    → a ≤ b
    → b ≤ c
    → (in_term txn (some a) (some c)
        ≡ in_term txn (some a) (some b) || in_term txn (some b) (some c))
      × (in_term txn (some a) (some b) && in_term txn (some b) (some c) ≡ false)
unfolding in_term
terms_split txn a b c h k = dated_split a b c (parse_date txn.transaction_date) h k

-- For three days in order, the lines dated from the first to before the last add up to those before
-- the middle one and those from it on: the sums of two consecutive terms add up.
pub term_sum_split :
    (a b c : ℕ) (txns : List Transaction)
    → a ≤ b
    → b ≤ c
    → term_sum (some a) (some c) txns
      ≡ term_sum (some a) (some b) txns +ℤ term_sum (some b) (some c) txns
term_sum_split a b c [] h k = sym (zero_left (pos 0))
term_sum_split a b c (txn ∷ txns) h k =
    let (one, both) = terms_split txn a b c h k in
    rw (term_sum_split a b c txns h k) (
      share _ _ _ (amount_of txn) (term_sum (some a) (some b) txns)
        (term_sum (some b) (some c) txns) one both)
