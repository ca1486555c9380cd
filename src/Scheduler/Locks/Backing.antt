-- ===== src/Scheduler/Locks/Backing.antt =====
-- When the lease's row backs the terms that replicas believe they have, and what keeps it so.
use rsg_hermes.Prelude.{
  ℕ, String, ◌+◌, ◌≤◌, ◌≡◌, refl, ◌∙◌, ◌⊎◌, inl, inr, false, Option, none, some, str_eq,
  str_eq_comm, eq_iff, Bool-cases, arith, if◌then◌else◌,
}
use rsg_hermes.Scheduler.Locks.Effect.{Taken}
use rsg_hermes.Scheduler.Locks.{Lease, LeasePatch, owned, expire_at, written}

-- What a replica may believe of itself after a call: the end of the term it last gained, if any.
abbrev pub Terms : Type 0
Terms = String → Option ℕ

abbrev pub set_term : Terms → String → Option ℕ → Terms
set_term t o v k = if str_eq o k then v else t k

-- An unexpired lease of somebody else stays.
abbrev pub Keeps : ℕ → String → Option Lease → Option Lease → Type 0
Keeps now o row row' =
    (l : Lease) → row ≡ some l → now ≤ l.expires_at → str_eq l.owner o ≡ false → row' ≡ some l

pub Keeps-same :
    (now : ℕ) (o : String) (row row' : Option Lease) → row' ≡ row → Keeps now o row row'
Keeps-same now o row row' e l was live other = e ∙ was

pub Keeps-Taken :
    (clock now until : ℕ) (o : String) (row row' : Option Lease)
    → now ≤ clock
    → Taken o now until row row'
    → Keeps clock o row row'
Keeps-Taken clock now until o row row' le t l was live other =
    ground (arith, le, live, other, t.was_free l was)

Keeps-written :
    (now : ℕ) (o : String) (p : LeasePatch) (row row' : Option Lease)
    → row' ≡ written (owned o) p row
    → Keeps now o row row'
Keeps-written now o p row row' e l was live other = ground (arith, e, was, other)

-- The row is the lease of every unexpired term, and runs no shorter than it.
abbrev pub BackedFor : ℕ → Option Lease → String → Option ℕ → Type 0
BackedFor now row o term =
    (until : ℕ)
    → term ≡ some until
    → now ≤ until
    → (l : Lease) × (row ≡ some l) × (l.owner ≡ o) × (until ≤ l.expires_at)

abbrev pub Backed : ℕ → Option Lease → Terms → Type 0
Backed now row terms = (o : String) → BackedFor now row o (terms o)

-- One call of `o`: the others are backed as before, and `o` by what the call tells it.
pub Backed-call :
    (now : ℕ) (o : String) (row row' : Option Lease) (terms : Terms) (term : Option ℕ)
    → Backed now row terms
    → Keeps now o row row'
    → BackedFor now row' o term
    → Backed now row' (set_term terms o term)
Backed-call now o row row' terms term b keep own k = elim (Bool-cases (str_eq o k)) [
  | inl same ↦ rw same (rw (← (eq_iff o k).0 same) own)
  | inr other ↦ rw other (λ until e live.
      let (l, was, mine, long) = b k until e live in
      (l, keep l was (omega arith) (rw mine (str_eq_comm k o ∙ other)), mine, long))
]

abbrev pub Timely : ℕ → ℕ → Option Lease → Type 0
Timely ttl now row = (l : Lease) → row ≡ some l → l.expires_at ≤ now + ttl

pub Timely-written :
    (ttl now until : ℕ) (o : String) (row row' : Option Lease)
    → until ≤ now + ttl
    → Timely ttl now row
    → (row' ≡ row) ⊎ (row' ≡ written (owned o) (expire_at until) row)
    → Timely ttl now row'
Timely-written ttl now until o none row' h t e l is = ground (arith, e, is)
Timely-written ttl now until o (some k) row' h t e l is = ground (arith, e, is, t k refl)

pub Keeps-effect :
    (now until : ℕ) (o : String) (row row' : Option Lease)
    → (row' ≡ row) ⊎ (row' ≡ written (owned o) (expire_at until) row)
    → Keeps now o row row'
Keeps-effect now until o row row' e = elim e [
  | inl same ↦ Keeps-same now o row row' same
  | inr wrote ↦ Keeps-written now o (expire_at until) row row' wrote
]
