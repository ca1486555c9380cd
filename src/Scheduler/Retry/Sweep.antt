-- ===== src/Scheduler/Retry/Sweep.antt =====
-- What a loop of updates by primary key does to each row.
use rsg_hermes.Prelude.{
  String, ◌≡◌, refl, ◌∙◌, ◌⊎◌, inl, inr, true, false, some, List, [], ◌∷◌, All, str_eq, str_eq_comm,
  eq_iff, eq_refl, Bool-cases, arith,
}
use rsg_hermes.Queue.{Job, Patch, QueueApi, Distinct, patched}

module _ (api : QueueApi) (patch_of : Job → Patch) where
  open api use {Db, find, update, update_returns, update_effect}

  abbrev pub touch : Job → Db → Db
  touch r d = (update r.id (patch_of r) d).0

  unfoldable pub sweep : List Job → Db → Db
  sweep [] d = d
  sweep (r ∷ rs) d = sweep rs (touch r d)

  find-touch_ne :
      (r : Job) (d : Db) (k : String) → str_eq r.id k ≡ false → find (touch r d) k ≡ find d k
  find-touch_ne r d k h = ground (arith, update_effect r.id (patch_of r) d k)

  pub sweep-ne :
      (rs : List Job) (d : Db) (k : String)
      → All (λ r. str_eq r.id k ≡ false) rs
      → find (sweep rs d) k ≡ find d k
  unfolding sweep
  sweep-ne [] d k h = refl
  sweep-ne (r ∷ rs) d k h = sweep-ne rs (touch r d) k h.1 ∙ find-touch_ne r d k h.0

  -- A row is found under its own key, and satisfies `Q`.
  abbrev pub Found : (Job → Type 0) → Db → Job → Type 0
  Found Q d r = (find d r.id ≡ some r) × Q r

  abbrev pub Effect : (Job → Type 0) → Db → Db → String → Type 0
  Effect Q d d' k =
      (find d' k ≡ find d k)
      ⊎ ((r : Job) × (find d k ≡ some r) × Q r × (find d' k ≡ some (patched (patch_of r) r)))

  module _ (Q : Job → Type 0) where
    Found-touch :
        (r : Job) (d : Db) (rs : List Job)
        → All (λ x. str_eq x.id r.id ≡ false) rs
        → All (Found Q d) rs
        → All (Found Q (touch r d)) rs
    Found-touch r d [] ne h = tt
    Found-touch r d (x ∷ rs) ne h = (
      (find-touch_ne r d x.id (str_eq_comm r.id x.id ∙ ne.0) ∙ h.0.0, h.0.1),
      Found-touch r d rs ne.1 h.1,
    )

    touch_self : (r : Job) (d : Db) → Found Q d r → Effect Q d (touch r d) r.id
    touch_self r d h = elim (update_effect r.id (patch_of r) d r.id) [
      | inl kept ↦ inl kept
      | inr written ↦ inr (r, h.0, h.1, written ∙ rw (eq_refl r.id, h.0))
    ]

    pub sweep-Effect :
        (rs : List Job) (d : Db) (k : String)
        → Distinct rs
        → All (Found Q d) rs
        → Effect Q d (sweep rs d) k
    unfolding sweep
    sweep-Effect [] d k ne h = inl refl
    sweep-Effect (r ∷ rs) d k ne h = elim (Bool-cases (str_eq r.id k)) [
      | inl same ↦
          let e : r.id ≡ k = (eq_iff r.id k).0 same in
          rw (← e) (rw (sweep-ne rs (touch r d) r.id ne.0) (touch_self r d h.0))
      | inr other ↦
          rw (find-touch_ne r d k other) at
            (sweep-Effect rs (touch r d) k ne.1 (Found-touch r d rs ne.0 h.1))
    ]

  found-touch :
      (r : Job) (d : Db) (rs : List Job)
      → All (λ x. str_eq x.id r.id ≡ false) rs
      → All (λ x. find d x.id ≡ some x) rs
      → All (λ x. find (touch r d) x.id ≡ some x) rs
  found-touch r d [] ne h = tt
  found-touch r d (x ∷ rs) ne h =
      (find-touch_ne r d x.id (str_eq_comm r.id x.id ∙ ne.0) ∙ h.0, found-touch r d rs ne.1 h.1)

  -- With no update refused, every row is written.
  pub sweep-All :
      ((i : String) (p : Patch) (d : Db) → (update i p d).1 ≡ true)
      → (rs : List Job) (d : Db) → Distinct rs
      → All (λ r. find d r.id ≡ some r) rs
      → All (λ r. find (sweep rs d) r.id ≡ some (patched (patch_of r) r)) rs
  unfolding sweep
  sweep-All ok [] d ne h = tt
  sweep-All ok (r ∷ rs) d ne h = (
    sweep-ne rs (touch r d) r.id ne.0
        ∙ (update_returns r.id (patch_of r) d r.id (ok r.id (patch_of r) d)
            ∙ rw (eq_refl r.id, h.0)),
    sweep-All ok rs (touch r d) ne.1 (found-touch r d rs ne.0 h.1),
  )
