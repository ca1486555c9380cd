-- ===== src/Overrides/Store/Single.antt =====
-- Of the active overrides of a field, at most one stays.
use rsg_hermes.Prelude.{
  ℕ, ◌+◌, ◌≤◌, ◌≡◌, refl, Bool, true, false, ◌&&◌, Option, none, some, List, [], ◌∷◌, ◌++◌, arith,
  Bool-cases, Option-cases, inl, inr, if◌then◌else◌,
}
use rsg_hermes.Prelude.Text.{Text, text_eq, strip}
use rsg_hermes.Prelude.Dict.{text_eq_refl, text_eq→eq}
use rsg_hermes.Overrides.{Override}
use rsg_hermes.Overrides.Store.{
  LogAction, override_superseded, override_set, Store, Update, applied, refused, lost, Insert,
  inserted, Answers, retire_logged, matches, find_active, retire_row, retire_id, supersede,
  Correction, new_row, is_valid, insert_row, insert_behind, set_override,
}

-- How many active overrides a field has.
abbrev pub actives : Text → Text → Text → List Override → ℕ
actives etype key field [] = 0
actives etype key field (o ∷ os) =
    let rest = actives etype key field os in if matches etype key field o then rest + 1 else rest

module _ (e k f : Text) where
  actives-append :
      (xs ys : List Override) → actives e k f (xs ++ ys) ≡ actives e k f xs + actives e k f ys
  actives-append [] ys = omega arith
  actives-append (o ∷ os) ys = ground (arith, actives-append os ys)

  actives-retire :
      (i : Text) (os : List Override) → actives e k f (retire_id i os) ≤ actives e k f os
  unfolding retire_id
  actives-retire i [] = omega arith
  actives-retire i (o ∷ os) = ground (arith, actives-retire i os)

  none_found : (os : List Override) → find_active e k f os ≡ none → actives e k f os ≡ 0
  unfolding find_active
  none_found [] h = refl
  none_found (o ∷ os) h = ground (arith, h, none_found os)

  head_retired : (p : Override) → matches e k f (retire_row p.id p) ≡ false
  head_retired p = rw (text_eq_refl p.id) refl

  retire_found :
      (os : List Override) (o : Override)
      → find_active e k f os ≡ some o
      → actives e k f (retire_id o.id os) + 1 ≤ actives e k f os
  unfolding find_active retire_id
  retire_found [] o h = cc h
  retire_found (p ∷ os) o h = elim (Bool-cases (matches e k f p)) [
    | inl hit ↦
        let same : p ≡ o = cc (rw (hit, find_active) at h) in
        let gone : matches e k f (retire_row o.id p) ≡ false = rw (← same) (head_retired p) in
        rw (hit, gone) (omega (arith, actives-retire o.id os))
    | inr miss ↦ ground (arith, miss, retire_found os o (rw (miss, find_active) at h))
  ]

  retire_logged_le :
      (u : Update) (logs : Bool) (action : LogAction) (o : Override) (s : Store)
      → actives e k f (retire_logged u logs action o s).1.table ≤ actives e k f s.table
  retire_logged_le applied logs action o s = actives-retire o.id s.table
  retire_logged_le refused logs action o s = omega arith
  retire_logged_le lost logs action o s = actives-retire o.id s.table

  supersede_le :
      (db : Answers) (o : Option Override) (s : Store)
      → actives e k f (supersede db o s).1.table ≤ actives e k f s.table
  supersede_le db none s = omega arith
  supersede_le db (some o) s =
      retire_logged_le db.update (db.logs override_superseded) override_superseded o s

  retire_logged_clears :
      (u : Update) (logs : Bool) (action : LogAction) (o : Override) (s : Store)
      → find_active e k f s.table ≡ some o
      → actives e k f s.table ≤ 1
      → (retire_logged u logs action o s).0 ≡ true
      → actives e k f (retire_logged u logs action o s).1.table ≡ 0
  retire_logged_clears applied logs action o s found one done =
      omega (arith, one, retire_found s.table o found)
  retire_logged_clears refused logs action o s found one done = ground (arith, done)
  retire_logged_clears lost logs action o s found one done = ground (arith, done)

  supersede_clears :
      (db : Answers) (s : Store)
      → actives e k f s.table ≤ 1
      → (supersede db (find_active e k f s.table) s).0 ≡ true
      → actives e k f (supersede db (find_active e k f s.table) s).1.table ≡ 0
  supersede_clears db s one done = elim (Option-cases (find_active e k f s.table)) [
    | inl absent ↦ rw absent (none_found s.table absent)
    | inr (o, found) ↦ rw found (
        retire_logged_clears db.update (db.logs override_superseded) override_superseded o s found
          one (rw found at done))
  ]

-- No field has two active overrides.
abbrev pub IsSingle : List Override → Type 0
IsSingle t = (e k f : Text) → actives e k f t ≤ 1

append-IsSingle :
    (i : Text) (c : Correction) (t : List Override)
    → IsSingle t
    → actives c.entity_type (strip c.entity_key) c.field_name t ≡ 0
    → IsSingle (t ++ new_row i c ∷ [])
append-IsSingle i c t single free e k f = elim (Bool-cases (matches e k f (new_row i c))) [
  | inl hit ↦
      omega (
        arith,
        actives-append e k f t (new_row i c ∷ []),
        own hit,
        one (matches e k f (new_row i c)),
      )
  | inr miss ↦ rw (actives-append e k f t (new_row i c ∷ []), miss) (omega (arith, single e k f))
]
  where
    one : (b : Bool) → (if b then 0 + 1 else 0) ≤ 1
    one b = ground arith

    own : matches e k f (new_row i c) ≡ true → actives e k f t ≡ 0
    own hit =
        let et : text_eq c.entity_type e ≡ true = ground (arith, hit) in
        let kt : text_eq (strip c.entity_key) k ≡ true = ground (arith, hit) in
        let ft : text_eq c.field_name f ≡ true = ground (arith, hit) in
        rw
          (
            ← text_eq→eq c.entity_type e et,
            ← text_eq→eq (strip c.entity_key) k kt,
            ← text_eq→eq c.field_name f ft,
          )
          free

insert-IsSingle :
    (answer : Insert) (logs : Bool) (c : Correction) (s : Store)
    → IsSingle s.table
    → actives c.entity_type (strip c.entity_key) c.field_name s.table ≡ 0
    → IsSingle (insert_row answer logs c s).1.table
insert-IsSingle (inserted i) logs c s single free = append-IsSingle i c s.table single free
insert-IsSingle refused logs c s single free = single
insert-IsSingle (lost i) logs c s single free = append-IsSingle i c s.table single free

insert_behind-IsSingle :
    (db : Answers) (c : Correction) (p : Bool × Store)
    → IsSingle p.1.table
    → (p.0 ≡ true → actives c.entity_type (strip c.entity_key) c.field_name p.1.table ≡ 0)
    → IsSingle (insert_behind db c p).1.table
insert_behind-IsSingle db c (true, s) single free =
    insert-IsSingle db.insert (db.logs override_set) c s single (free refl)
insert_behind-IsSingle db c (false, s) single free = single

-- Whatever the checks and the database answer, also where a call raises, before or behind its effect,
-- setting an override leaves no field with two active overrides if there was none with two.
pub set_override-IsSingle :
    (db : Answers) (c : Correction) (s : Store)
    → IsSingle s.table
    → IsSingle (set_override db c s).1.table
unfolding set_override
set_override-IsSingle db c s single = elim (Bool-cases (is_valid c && db.selects)) [
  | inl ok ↦
      let found = find_active c.entity_type (strip c.entity_key) c.field_name s.table in
      rw (ok, set_override)
        (insert_behind-IsSingle db c (supersede db found s)
          (λ e k f. omega (arith, supersede_le e k f db found s, single e k f))
          (supersede_clears c.entity_type (strip c.entity_key) c.field_name db s
            (single c.entity_type (strip c.entity_key) c.field_name)))
  | inr bad ↦ rw (bad, set_override) single
]
