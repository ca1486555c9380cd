-- ===== src/Overrides/Synced.antt =====
-- What is shown of a correction behind the updates that a sync has sent.
use rsg_hermes.Prelude.{
  ◌≡◌, ◌≢◌, refl, sym, ◌∙◌, ap, Bool, true, false, not, ◌&&◌, Option, none, some, List, [], ◌∷◌,
  ◌++◌, All, All-append, append_assoc, append-nil, inl, inr, Bool-cases, if◌then◌else◌, arith,
}
use mathlib.Core.Path.{subst}
use rsg_hermes.Prelude.Int.{ℤ, ◌-ℤ◌, ◌+ℤ◌, abs, leb_ℤ, pos}
use rsg_hermes.Prelude.Text.{Text, text_eq}
use rsg_hermes.Prelude.Dict.{text_eq→eq, text_eq_refl}
use rsg_hermes.Overrides.{
  Value, num, is_active, Status, active, retired, conflicted, Override, Action, keep, retire,
  conflict, as_decimal, same_value, resolve, reconcile,
}
use rsg_hermes.Overrides.Run.{
  source_of, Summary, record_action, check_source, check_overrides, empty_summary,
  reconcile_overrides,
}

-- A row of the table behind a list of updates of statuses, in order.
abbrev pub updated : List (Text × Status) → Override → Override
updated [] o = o
updated ((i, s) ∷ us) o = updated us (if text_eq o.id i then record o { status = s } else o)

differs : (a b : Text) → a ≢ b → text_eq a b ≡ false
differs a b ne = elim (Bool-cases (text_eq a b)) [
  | inl same ↦ absurd (ne (text_eq→eq a b same))
  | inr other ↦ other
]

updated-append :
    (us vs : List (Text × Status)) (o : Override) → updated (us ++ vs) o ≡ updated vs (updated us o)
updated-append [] vs o = refl
updated-append ((i, s) ∷ us) vs o =
    updated-append us vs (if text_eq o.id i then record o { status = s } else o)

foreign_kept :
    (us : List (Text × Status)) (o : Override) → All (λ u. o.id ≢ u.0) us → updated us o ≡ o
foreign_kept [] o h = refl
foreign_kept ((i, s) ∷ us) o h =
    ap (λ b. updated us (if b then record o { status = s } else o)) (differs o.id i h.0)
    ∙ foreign_kept us o h.1

-- The updates for an outcome, for an override and for a list of them.
abbrev updates_for : Text → Action → List (Text × Status)
updates_for i keep = []
updates_for i retire = (i, retired) ∷ []
updates_for i conflict = (i, conflicted) ∷ []

abbrev updates_by : Override → Option Value → List (Text × Status)
updates_by o none = []
updates_by o (some v) = updates_for o.id (reconcile v o)

abbrev Sources : Type 0
Sources = List (Text × Text × Value)

abbrev updates_of : Sources → List Override → List (Text × Status)
updates_of sources [] = []
updates_of sources (o ∷ os) =
    updates_by o (source_of o.entity_key o.field_name sources) ++ updates_of sources os

action-updates :
    (o : Override) (a : Action) (s : Summary)
    → (record_action false o a s).updates ≡ s.updates ++ updates_for o.id a
action-updates o keep s = sym (append-nil s.updates)
action-updates o retire s = refl
action-updates o conflict s = refl

source-updates :
    (o : Override) (v : Option Value) (s : Summary)
    → (check_source false o v s).updates ≡ s.updates ++ updates_by o v
source-updates o none s = sym (append-nil s.updates)
source-updates o (some v) s = action-updates o (reconcile v o) _

overrides-updates :
    (sources : Sources) (os : List Override) (s : Summary)
    → (check_overrides false sources os s).updates ≡ s.updates ++ updates_of sources os
unfolding check_overrides
overrides-updates sources [] s = sym (append-nil s.updates)
overrides-updates sources (o ∷ os) s =
    overrides-updates sources os
      (check_source false o (source_of o.entity_key o.field_name sources) s)
    ∙ (ap (λ us. us ++ updates_of sources os)
          (source-updates o (source_of o.entity_key o.field_name sources) s)
        ∙ append_assoc s.updates (updates_by o (source_of o.entity_key o.field_name sources))
            (updates_of sources os))

updates_of-append :
    (sources : Sources) (os ps : List Override)
    → updates_of sources (os ++ ps) ≡ updates_of sources os ++ updates_of sources ps
updates_of-append sources [] ps = refl
updates_of-append sources (o ∷ os) ps =
    ap (λ us. updates_by o (source_of o.entity_key o.field_name sources) ++ us)
      (updates_of-append sources os ps)
    ∙ sym (
        append_assoc (updates_by o (source_of o.entity_key o.field_name sources))
          (updates_of sources os) (updates_of sources ps))

for-foreign : (i j : Text) (a : Action) → i ≢ j → All (λ u. j ≢ u.0) (updates_for i a)
for-foreign i j keep ne = tt
for-foreign i j retire ne = ((λ e. ne (sym e)), tt)
for-foreign i j conflict ne = ((λ e. ne (sym e)), tt)

by-foreign :
    (o : Override) (j : Text) (v : Option Value) → o.id ≢ j → All (λ u. j ≢ u.0) (updates_by o v)
by-foreign o j none ne = tt
by-foreign o j (some v) ne = for-foreign o.id j (reconcile v o) ne

of-foreign :
    (sources : Sources) (j : Text) (os : List Override)
    → All (λ (o : Override). o.id ≢ j) os
    → All (λ u. j ≢ u.0) (updates_of sources os)
of-foreign sources j [] h = tt
of-foreign sources j (o ∷ os) h =
    All-append (λ u. j ≢ u.0) (updates_by o (source_of o.entity_key o.field_name sources))
      (updates_of sources os) (by-foreign o j _ h.0) (of-foreign sources j os h.1)

-- What a sync leaves of one override is what its own updates leave.
synced :
    (sources : Sources) (before after : List Override) (o : Override)
    → All (λ (p : Override). p.id ≢ o.id) before
    → All (λ (p : Override). p.id ≢ o.id) after
    → updated (reconcile_overrides false sources (before ++ o ∷ after)).updates o
      ≡ updated (updates_by o (source_of o.entity_key o.field_name sources)) o
unfolding reconcile_overrides
synced sources before after o hb ha =
    let own = updates_by o (source_of o.entity_key o.field_name sources) in
    ap (λ us. updated us o)
      (overrides-updates sources (before ++ o ∷ after) empty_summary
        ∙ updates_of-append sources before (o ∷ after))
    ∙ (updated-append (updates_of sources before) (own ++ updates_of sources after) o
        ∙ (ap (updated (own ++ updates_of sources after))
              (foreign_kept (updates_of sources before) o (of-foreign sources o.id before hb))
            ∙ (updated-append own (updates_of sources after) o
                ∙ foreign_kept (updates_of sources after) (updated own o) (
                    subst (λ i. All (λ u. i ≢ u.0) (updates_of sources after)) (sym (same_id own o))
                      (of-foreign sources o.id after ha)))))
  where
    same_id : (us : List (Text × Status)) (o : Override) → (updated us o).id ≡ o.id
    same_id [] o = refl
    same_id ((i, s) ∷ us) o = elim (Bool-cases (text_eq o.id i)) [
      | inl e ↦ rw (e, updated) (same_id us (record o { status = s }))
      | inr e ↦ rw (e, updated) (same_id us o)
    ]

-- Two amounts that are no more than a cent apart, in millionths of a dollar.
abbrev pub within_cent : ℤ → ℤ → Bool
within_cent x y = leb_ℤ x (y +ℤ pos 10000) && leb_ℤ y (x +ℤ pos 10000)

within_lem : (x y : ℤ) → leb_ℤ (abs (x -ℤ y)) (pos 10000) ≡ within_cent x y
unfolding ◌-ℤ◌ ◌+ℤ◌
within_lem x y = ground arith

same-amounts : (x y : ℤ) → same_value (num x) (num y) ≡ within_cent x y
unfolding same_value as_decimal
same-amounts x y = within_lem x y

-- The status that a source's amount calls for.
abbrev pub status_for : ℤ → ℤ → ℤ → Status
status_for source corrected original =
    if within_cent source corrected
    then retired
    else if within_cent source original
    then active
    else conflicted

own_status :
    (o : Override) (x v w : ℤ)
    → o.status ≡ active
    → o.override_value ≡ num v
    → o.original_value ≡ num w
    → updated (updates_by o (some (num x))) o ≡ record o { status = status_for x v w }
unfolding reconcile
own_status o x v w on is_v is_w = rw on (
    rw is_v (
      rw is_w (
        rw (same-amounts x v)
          (rw (same-amounts x w) (by_tests (within_cent x v) (within_cent x w))))))
  where
    by_tests :
        (a b : Bool)
        → updated
            (updates_for o.id (if a then retire else if b then keep else conflict))
            (record o { status = active; override_value = num v; original_value = num w })
          ≡ record o {
            status = if a then retired else if b then active else conflicted;
            override_value = num v;
            original_value = num w;
          }
    by_tests true b = rw (text_eq_refl o.id) refl
    by_tests false true = refl
    by_tests false false = rw (text_eq_refl o.id) refl

-- A sync settles each correction of an amount by the updates that it sends. Where the corrections of the
-- table have different ids and the source has an amount for an active one, that one is then retired if
-- the amount is within a cent of the corrected amount, else still active if it is within a cent of the
-- original, else in conflict; and what is shown is the corrected amount while it is active, and the
-- source's otherwise.
pub sync_settles :
    (sources : List (Text × Text × Value)) (before after : List Override) (o : Override) (x v w : ℤ)
    → All (λ (p : Override). p.id ≢ o.id) before
    → All (λ (p : Override). p.id ≢ o.id) after
    → o.status ≡ active
    → source_of o.entity_key o.field_name sources ≡ some (num x)
    → o.override_value ≡ num v
    → o.original_value ≡ num w
    → ((updated (reconcile_overrides false sources (before ++ o ∷ after)).updates o).status
        ≡ status_for x v w)
      × (resolve
            (num x)
            (some (updated (reconcile_overrides false sources (before ++ o ∷ after)).updates o))
          ≡ (if not (within_cent x v) && within_cent x w then num v else num x))
unfolding resolve
sync_settles sources before after o x v w hb ha on found is_v is_w =
    let left =
      synced sources before after o hb ha
      ∙ (ap (λ s. updated (updates_by o s) o) found ∙ own_status o x v w on is_v is_w) in
    (
      ap (λ (p : Override). p.status) left,
      ap (λ p. resolve (num x) (some p)) left
          ∙ (ap (λ u. if is_active (status_for x v w) then u else num x) is_v
              ∙ shown (within_cent x v) (within_cent x w)),
    )
  where
    shown :
        (a b : Bool)
        → (if is_active (if a then retired else if b then active else conflicted)
            then num v
            else num x)
          ≡ (if not a && b then num v else num x)
    shown true b = refl
    shown false true = refl
    shown false false = refl
