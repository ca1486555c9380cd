-- ===== src/Overrides/Apply.antt =====
-- `index_overrides` and `apply_overrides` of core.py. A record is a dict of fields; the second part of
-- the result is what the source attaches as `_overridden`.
use rsg_hermes.Prelude.{
  ◌≡◌, refl, ap, ◌∙◌, Bool, true, false, ◌&&◌, Option, none, some, List, [], ◌∷◌, map, map_option,
  arith, or_else, Bool-cases, inl, inr, if◌then◌else◌,
}
use rsg_hermes.Prelude.Text.{Text, text_eq, strip}
use rsg_hermes.Prelude.Dict.{Dict, get, assign, get-assign, text_eq_iff}
use rsg_hermes.Overrides.{Value, null, Status, active, is_active, Override}

pub record Row : Type 0 where
  pub id : Option Text
  pub entity_type : Option Text
  pub entity_key : Option Text
  pub field_name : Option Text
  pub override_value : Value
  pub original_value : Value
  pub status : Option Status

-- `Override.from_row`
abbrev pub from_row : Row → Override
from_row row = record {
  id = or_else row.id [];
  entity_type = or_else row.entity_type [];
  entity_key = or_else row.entity_key [];
  field_name = or_else row.field_name [];
  override_value = row.override_value;
  original_value = row.original_value;
  status = or_else row.status active;
}

pub record Key : Type 0 where
  pub entity_type : Text
  pub entity_key : Text
  pub field : Text

-- `_key`
abbrev pub key_of : Text → Text → Text → Key
key_of etype key field = record { entity_type = etype; entity_key = strip key; field = field }

abbrev pub key_eq : Key → Key → Bool
key_eq a b =
    text_eq a.entity_type b.entity_type
    && (text_eq a.entity_key b.entity_key && text_eq a.field b.field)

abbrev pub Index : Type 0
Index = List (Key × Override)

unfoldable pub put : Key → Override → Index → Index
put k o [] = (k, o) ∷ []
put k o ((j, p) ∷ rest) = if key_eq j k then (j, o) ∷ rest else (j, p) ∷ put k o rest

unfoldable pub find : Key → Index → Option Override
find k [] = none
find k ((j, p) ∷ rest) = if key_eq j k then some p else find k rest

abbrev nonempty : Text → Bool
nonempty [] = false
nonempty (c ∷ s) = true

abbrev pub is_indexed : Override → Bool
is_indexed o = is_active o.status && (nonempty o.entity_key && nonempty o.field_name)

abbrev index_from : Index → List Row → Index
index_from out [] = out
index_from out (row ∷ rows) =
    let o = from_row row in
    index_from
      (if is_indexed o then put (key_of o.entity_type o.entity_key o.field_name) o out else out)
      rows

unfoldable pub index_overrides : List Row → Index
unfolding put
index_overrides rows = index_from [] rows

module _ (etype key : Text) where
  abbrev pub at : Text → Key
  at field = key_of etype key field

  abbrev shown : Option Override → Value → Value
  shown none v = v
  shown (some o) v = o.override_value

  abbrev noted : Option Override → Text → Value → Dict Value → Dict Value
  noted none field v applied = applied
  noted (some o) field v applied = (field, v) ∷ applied

  -- The loop over the record's own fields.
  unfoldable pub over_fields : Index → Dict Value → Dict Value × Dict Value
  over_fields index [] = ([], [])
  over_fields index ((field, v) ∷ rest) =
      let (updated, applied) = over_fields index rest in
      let o = find (at field) index in ((field, shown o v) ∷ updated, noted o field v applied)

  abbrev adds : Key → Option Value → Bool
  adds k none = text_eq k.entity_type etype && text_eq k.entity_key key
  adds k (some v) = false

  -- The loop over the overrides, for the fields that the record lacks.
  unfoldable pub over_index : Index → Dict Value × Dict Value → Dict Value × Dict Value
  over_index [] (updated, applied) = (updated, applied)
  over_index ((k, o) ∷ rest) (updated, applied) = over_index rest (
      if adds k (get k.field updated)
      then (assign k.field o.override_value updated, assign k.field null applied)
      else (updated, applied))

  unfoldable pub apply_record : Index → Dict Value → Dict Value × Dict Value
  unfolding over_fields over_index
  apply_record index record_fields = over_index index (over_fields index record_fields)

  own_fields :
      (index : Index) (r : Dict Value) (f : Text)
      → get f (over_fields index r).0 ≡ map_option (shown (find (at f) index)) (get f r)
  unfolding over_fields get
  own_fields index [] f = refl
  own_fields index ((field, v) ∷ rest) f = elim (Bool-cases (text_eq field f)) [
    | inl same ↦ rw (same, (text_eq_iff field f).0 same) refl
    | inr other ↦ rw other (own_fields index rest f)
  ]

  abbrev else_from : Option Override → Option Value → Option Value
  else_from o (some v) = some v
  else_from none none = none
  else_from (some o) none = some o.override_value

  adding :
      (f : Text) (k : Key) (o : Override) (v w : Option Value) (p : Option Override)
      → adds k v ≡ true
      → (text_eq k.field f ≡ true → v ≡ w)
      → else_from p (if text_eq k.field f then some o.override_value else w)
        ≡ else_from
            (if text_eq k.entity_type etype && (text_eq k.entity_key key && text_eq k.field f)
              then some o
              else p)
            w
  adding f k o none w p e same = ground (arith, e, same)
  adding f k o (some v) w p e same = cc e

  skipping :
      (f : Text) (k : Key) (o : Override) (v w : Option Value) (p : Option Override)
      → adds k v ≡ false
      → (text_eq k.field f ≡ true → v ≡ w)
      → else_from p w
        ≡ else_from
            (if text_eq k.entity_type etype && (text_eq k.entity_key key && text_eq k.field f)
              then some o
              else p)
            w
  skipping f k o none w p e same = ground (arith, e)
  skipping f k o (some v) w p e same = ground (arith, same)

  same_field :
      (f : Text) (k : Key) (u : Dict Value) → text_eq k.field f ≡ true → get k.field u ≡ get f u
  same_field f k u e = rw ((text_eq_iff k.field f).0 e) refl

  abbrev here : Text → Key
  here field = record { entity_type = etype; entity_key = key; field = field }

  index_fields :
      (os : Index) (s : Dict Value × Dict Value) (f : Text)
      → get f (over_index os s).0 ≡ else_from (find (here f) os) (get f s.0)
  unfolding over_index find
  index_fields [] (u, a) f = by_value (get f u)
    where
      by_value : (v : Option Value) → v ≡ else_from none v
      by_value none = refl
      by_value (some v) = refl
  index_fields ((k, o) ∷ os) (u, a) f = elim (Bool-cases (adds k (get k.field u))) [
    | inl e ↦
        rw (e, over_index)
          (index_fields os (assign k.field o.override_value u, assign k.field null a) f
            ∙ rw get-assign
                (adding f k o (get k.field u) (get f u) (find (here f) os) e (same_field f k u)))
    | inr e ↦
        rw (e, over_index)
          (index_fields os (u, a) f
            ∙ skipping f k o (get k.field u) (get f u) (find (here f) os) e (same_field f k u))
  ]

  shown_or_added :
      (p : Option Override) (v : Option Value)
      → else_from p (map_option (shown p) v) ≡ elim p [ none ↦ v | some o ↦ some o.override_value ]
  shown_or_added none none = refl
  shown_or_added none (some v) = refl
  shown_or_added (some o) none = refl
  shown_or_added (some o) (some v) = refl

  -- In the record of an entity whose key is stripped, each field that has an indexed override holds the
  -- override's value, whether or not the source carries the field, and every other field is as in the
  -- source.
  pub apply_record_lem :
      (index : Index) (r : Dict Value) (f : Text)
      → strip key ≡ key
      → get f (apply_record index r).0
        ≡ elim (find (key_of etype key f) index) [ none ↦ get f r | some o ↦ some o.override_value ]
  unfolding apply_record
  apply_record_lem index r f h =
      let same : at f ≡ here f =
        ap (λ k. record { entity_type = etype; entity_key = k; field = f }) h in
      index_fields index (over_fields index r) f
      ∙ ap (else_from (find (here f) index)) (own_fields index r f)
      ∙ rw (← same) (shown_or_added (find (at f) index) (get f r))

abbrev untouched : Dict Value → Dict Value × Dict Value
untouched r = (r, [])

abbrev with_key : Text → Index → Dict Value → Text → Dict Value × Dict Value
with_key etype index r [] = untouched r
with_key etype index r (c ∷ key) = apply_record etype (c ∷ key) index r

-- Each record comes with the text that it holds under `key_field`.
unfoldable pub apply_overrides :
    Text → Index → List (Option Text × Dict Value) → List (Dict Value × Dict Value)
apply_overrides etype [] records = map (λ r. untouched r.1) records
apply_overrides etype (o ∷ os) records =
    map (λ r. with_key etype (o ∷ os) r.1 (strip (or_else r.0 []))) records
