-- ===== src/Services/Partition.antt =====
-- Split workers do not share work, and together they have the work of the unsplit scheduler.
use rsg_hermes.Prelude.{
  String, ◌≡◌, inl, inr, Bool-cases, refl, Bool, false, Option, none, some, str_eq, eq_iff,
}
use rsg_hermes.Queue.{
  ObjectType, renewal, intake, quote, case, task, opportunity_writeback, intake_ams, intake_crm,
}
use rsg_hermes.Services.{queue_object_types, drained_by}

-- The service whose worker drains a type; `none` for the types of services that have left.
abbrev pub owner : ObjectType → Option String
owner renewal = some "renewals"
owner intake = some "intake"
owner quote = some "hub"
owner case = none
owner task = none
owner opportunity_writeback = some "hub"
owner intake_ams = some "intake"
owner intake_crm = some "intake"

abbrev pub owned_by : Option String → String → Bool
owned_by none s = false
owned_by (some o) s = str_eq s o

-- By the registered names: `P` at each, and at any other text.
by_name :
    (P : String → Type 0)
    → P "finance"
    → P "intake"
    → P "renewals"
    → P "carriers"
    → P "hub"
    → ((s : String)
        → (str_eq s "finance" ≡ false)
          × (str_eq s "intake" ≡ false)
          × (str_eq s "renewals" ≡ false)
          × (str_eq s "carriers" ≡ false)
          × (str_eq s "hub" ≡ false)
        → P s)
    → (s : String) → P s
by_name P pf pi pr pc ph other s = elim (Bool-cases (str_eq s "finance")) [
  | inl e ↦ rw ((eq_iff s "finance").0 e) pf
  | inr f ↦ elim (Bool-cases (str_eq s "intake")) [
    | inl e ↦ rw ((eq_iff s "intake").0 e) pi
    | inr i ↦ elim (Bool-cases (str_eq s "renewals")) [
      | inl e ↦ rw ((eq_iff s "renewals").0 e) pr
      | inr r ↦ elim (Bool-cases (str_eq s "carriers")) [
        | inl e ↦ rw ((eq_iff s "carriers").0 e) pc
        | inr c ↦ elim (Bool-cases (str_eq s "hub")) [
          | inl e ↦ rw ((eq_iff s "hub").0 e) ph
          | inr h ↦ other s (f, i, r, c, h)
        ]
      ]
    ]
  ]
]

unregistered :
    (s : String)
    → (str_eq s "finance" ≡ false)
      × (str_eq s "intake" ≡ false)
      × (str_eq s "renewals" ≡ false)
      × (str_eq s "carriers" ≡ false)
      × (str_eq s "hub" ≡ false)
    → queue_object_types s ≡ none
unfolding queue_object_types
unregistered s (f, i, r, c, h) = rw (f, queue_object_types) (rw i (rw r (rw c (rw h))))

-- A service's worker has a type in its scope exactly if it is the type's owner: so no two services
-- share a type, and nobody has those of the services that have left.
pub drained_by_owner : (t : ObjectType) (s : String) → drained_by t s ≡ owned_by (owner t) s
unfolding queue_object_types
drained_by_owner renewal =
    by_name (λ s. drained_by renewal s ≡ owned_by (owner renewal) s) refl refl refl refl refl
      (λ s e. rw (unregistered s e) (rw e.2))
drained_by_owner intake =
    by_name (λ s. drained_by intake s ≡ owned_by (owner intake) s) refl refl refl refl refl
      (λ s e. rw (unregistered s e) (rw e.1))
drained_by_owner quote =
    by_name (λ s. drained_by quote s ≡ owned_by (owner quote) s) refl refl refl refl refl
      (λ s e. rw (unregistered s e) (rw e.4))
drained_by_owner case =
    by_name (λ s. drained_by case s ≡ owned_by (owner case) s) refl refl refl refl refl
      (λ s e. rw (unregistered s e) refl)
drained_by_owner task =
    by_name (λ s. drained_by task s ≡ owned_by (owner task) s) refl refl refl refl refl
      (λ s e. rw (unregistered s e) refl)
drained_by_owner opportunity_writeback =
    by_name (λ s. drained_by opportunity_writeback s ≡ owned_by (owner opportunity_writeback) s)
      refl refl refl refl refl (λ s e. rw (unregistered s e) (rw e.4))
drained_by_owner intake_ams =
    by_name (λ s. drained_by intake_ams s ≡ owned_by (owner intake_ams) s) refl refl refl refl refl
      (λ s e. rw (unregistered s e) (rw e.1))
drained_by_owner intake_crm =
    by_name (λ s. drained_by intake_crm s ≡ owned_by (owner intake_crm) s) refl refl refl refl refl
      (λ s e. rw (unregistered s e) (rw e.1))
