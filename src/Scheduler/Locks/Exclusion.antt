-- ===== src/Scheduler/Locks/Exclusion.antt =====
-- Replicas that share one lease row: whoever has gained the lease, and whose term has not run out,
-- is the only one. Replicas call in any order, and the clock only goes forward.
use rsg_hermes.Prelude.{
  ℕ, String, ◌+◌, ◌≤◌, ◌≡◌, refl, sym, ◌∙◌, inl, inr, ◌⊎◌, str_eq, Bool, true, false, Option, none,
  some, eq_iff, Bool-cases, arith, if◌then◌else◌,
}
use rsg_hermes.Scheduler.Locks.Effect.{
  Taken, take_won, take_effect, claim_won, claim_effect, renew_won, renew_effect, release_effect,
}
use rsg_hermes.Scheduler.Locks.{
  Lease, LockApi, SchedulerLock, took, take_expired, first_claim, renew, release,
}
use rsg_hermes.Scheduler.Locks.Backing.{
  Terms, set_term, Keeps, Keeps-same, Keeps-Taken, BackedFor, Backed, Backed-call, Timely,
  Timely-written, Keeps-effect,
}

module _ (api : LockApi) (ttl : ℕ) where
  open api use {Db, lease}

  -- `pending` holds the instant of each acquire that is between its two calls.
  pub record World : Type 0 where
    pub clock : ℕ
    pub db : Db
    pub terms : Terms
    pub pending : Terms

  abbrev lock_of : String → Bool → SchedulerLock
  lock_of o h = record { owner = o; ttl = ttl; held = h }

  -- The term that a call leaves its caller: gained to `until`, or as before, or none.
  abbrev gained : Bool → ℕ → Option ℕ → Option ℕ
  gained won until before = if won then some until else before

  -- One HTTP call, which may land at any time behind the instant `now` that its caller has read. A
  -- replica makes one call after another, so it does not renew with an instant before the one that its
  -- term goes back to.
  pub data Step (w : World) : World → Type 0 where
    tick : (n : ℕ) → Step w (record w { clock = w.clock + n })
    takes :
        (o : String) (h : Bool) (now : ℕ)
        → now ≤ w.clock
        → Step w (record w {
          db = (take_expired api now (lock_of o h) w.db).0;
          terms =
              set_term w.terms o
                (gained (took (take_expired api now (lock_of o h) w.db).1) (now + ttl) none);
          pending =
              set_term w.pending o
                (if took (take_expired api now (lock_of o h) w.db).1 then none else some now);
        })
    claims :
        (o : String) (h : Bool) (now : ℕ)
        → w.pending o ≡ some now
        → Step w (record w {
          db = (first_claim api now (lock_of o h) w.db).0;
          terms =
              set_term w.terms o
                (gained (first_claim api now (lock_of o h) w.db).2 (now + ttl) none);
          pending = set_term w.pending o none;
        })
    renews :
        (o : String) (h : Bool) (now : ℕ)
        → now ≤ w.clock
        → ((until : ℕ) → w.terms o ≡ some until → until ≤ now + ttl)
        → Step w (record w {
          db = (renew api now (lock_of o h) w.db).0;
          terms =
              set_term w.terms o
                (gained (renew api now (lock_of o h) w.db).1 (now + ttl) (w.terms o));
        })
    releases :
        (o : String) (h : Bool) (now : ℕ)
        → now ≤ w.clock
        → Step w (record w {
          db = (release api now (lock_of o h) w.db).0;
          terms = set_term w.terms o none;
        })

module _ (api : LockApi) (ttl : ℕ) where
  open api use {Db, lease}

  pub record IsSafe (w : World api ttl) : Type 0 where
    pub timely : Timely ttl w.clock (lease w.db)
    pub backed : Backed w.clock (lease w.db) w.terms
    pub past : (o : String) (now : ℕ) → w.pending o ≡ some now → now ≤ w.clock

  abbrev lock_at : String → Bool → SchedulerLock
  lock_at o h = record { owner = o; ttl = ttl; held = h }

  -- What a call that may take the lease leaves its caller with.
  Taken-own :
      (clock until : ℕ) (o : String) (won : Bool) (now : ℕ) (row row' : Option Lease)
      → (won ≡ true → Taken o now until row row')
      → BackedFor clock row' o (gained api ttl won until none)
  Taken-own clock until o true now row row' t end e live =
      (record { owner = o; expires_at = until }, (t refl).lease_is, refl, ground (arith, e))
  Taken-own clock until o false now row row' t end e live = absurd (cc e)

  Timely-Taken :
      (clock now : ℕ) (o : String) (row row' : Option Lease)
      → now ≤ clock
      → Timely ttl clock row
      → (row' ≡ row) ⊎ Taken o now (now + ttl) row row'
      → Timely ttl clock row'
  Timely-Taken clock now o row row' le t e l is = elim e [
    | inl kept ↦ t l (sym kept ∙ is)
    | inr taken ↦ ground (arith, taken.lease_is, is, le)
  ]

  Keeps-call :
      (clock now until : ℕ) (o : String) (row row' : Option Lease)
      → now ≤ clock
      → (row' ≡ row) ⊎ Taken o now until row row'
      → Keeps clock o row row'
  Keeps-call clock now until o row row' le e = elim e [
    | inl kept ↦ Keeps-same clock o row row' kept
    | inr taken ↦ Keeps-Taken clock now until o row row' le taken
  ]

  renew_own :
      (clock now : ℕ) (o : String) (h : Bool) (d : Db) (term : Option ℕ)
      → ((until : ℕ) → term ≡ some until → until ≤ now + ttl)
      → BackedFor clock (lease d) o term
      → BackedFor clock
          (lease (renew api now (lock_at o h) d).0)
          o
          (gained api ttl (renew api now (lock_at o h) d).1 (now + ttl) term)
  renew_own clock now o h d term later b until e live =
      elim (Bool-cases (renew api now (lock_at o h) d).1) [
        | inl won ↦
            let (l, was, mine, is) = renew_won api now (lock_at o h) d won in
            (record { owner = o; expires_at = now + ttl }, is, refl, ground (arith, e, won))
        | inr lost ↦
            let (l, was, mine, long) = b until (rw lost at e) live in
            elim (renew_effect api now (lock_at o h) d) [
              | inl kept ↦ (l, kept ∙ was, mine, long)
              | inr wrote ↦ (
                record { owner = o; expires_at = now + ttl },
                wrote ∙ ground (arith, was, mine, (eq_iff l.owner o).1 mine),
                refl,
                later until (rw lost at e),
              )
            ]
      ]

  past_after :
      (clock : ℕ) (pending : Terms) (o : String) (term : Option ℕ)
      → ((p : String) (now : ℕ) → pending p ≡ some now → now ≤ clock)
      → ((now : ℕ) → term ≡ some now → now ≤ clock)
      → (p : String) (now : ℕ) → set_term pending o term p ≡ some now
      → now ≤ clock
  past_after clock pending o term past own p now e = elim (Bool-cases (str_eq o p)) [
    | inl same ↦ own now (rw same at e)
    | inr other ↦ past p now (rw other at e)
  ]

  Step-IsSafe : {w v : World api ttl} → Step api ttl w v → IsSafe w → IsSafe v
  Step-IsSafe {w} (tick n) s = record {
    timely = λ l e. omega (arith, s.timely l e);
    backed = λ o until e live. s.backed o until e (omega arith);
    past = λ o now e. omega (arith, s.past o now e);
  }
  Step-IsSafe {w} (takes o h now le) s =
      let effect = take_effect api now (lock_at o h) w.db in
      record {
        timely = Timely-Taken w.clock now o (lease w.db) _ le s.timely effect;
        backed =
            Backed-call w.clock o (lease w.db) _ w.terms _ s.backed
              (Keeps-call w.clock now (now + ttl) o (lease w.db) _ le effect)
              (Taken-own w.clock (now + ttl) o _ now (lease w.db) _
                (take_won api now (lock_at o h) w.db));
        past = past_after w.clock w.pending o _ s.past (λ t e. ground (arith, e, le));
      }
  Step-IsSafe {w} (claims o h now e) s =
      let effect = claim_effect api now (lock_at o h) w.db in
      let le = s.past o now e in
      record {
        timely = Timely-Taken w.clock now o (lease w.db) _ le s.timely effect;
        backed =
            Backed-call w.clock o (lease w.db) _ w.terms _ s.backed
              (Keeps-call w.clock now (now + ttl) o (lease w.db) _ le effect)
              (Taken-own w.clock (now + ttl) o _ now (lease w.db) _
                (claim_won api now (lock_at o h) w.db));
        past = past_after w.clock w.pending o none s.past (λ t f. absurd (cc f));
      }
  Step-IsSafe {w} (renews o h now le later) s = record {
    timely =
        Timely-written ttl w.clock (now + ttl) o (lease w.db) _ (omega (arith, le)) s.timely
          (renew_effect api now (lock_at o h) w.db);
    backed =
        Backed-call w.clock o (lease w.db) _ w.terms _ s.backed
          (Keeps-effect w.clock (now + ttl) o _ _ (renew_effect api now (lock_at o h) w.db))
          (renew_own w.clock now o h w.db (w.terms o) later (s.backed o));
    past = s.past;
  }
  Step-IsSafe {w} (releases o h now le) s = record {
    timely =
        Timely-written ttl w.clock now o (lease w.db) _ (omega (arith, le)) s.timely
          (release_effect api now (lock_at o h) w.db);
    backed =
        Backed-call w.clock o (lease w.db) _ w.terms none s.backed
          (Keeps-effect w.clock now o _ _ (release_effect api now (lock_at o h) w.db))
          (λ until e live. absurd (cc e));
    past = s.past;
  }

  pub data Reach (w : World api ttl) : World api ttl → Type 0 where
    here : Reach w w
    next : {v u : World api ttl} → Reach w v → Step api ttl v u → Reach w u

  Reach-IsSafe : {w v : World api ttl} → IsSafe w → Reach w v → IsSafe v
  Reach-IsSafe s here = s
  Reach-IsSafe s (next r st) = Step-IsSafe st (Reach-IsSafe s r)

  -- From a world where nobody has a term or is between the two calls of an acquire, and the row expires
  -- within a term: however the HTTP calls of the replicas interleave, also between the two calls of an
  -- acquire, however late they land behind the instants that the replicas have read from their common
  -- clock, and whichever calls raise, two replicas whose terms have not run out are one.
  pub mutual_exclusion :
      (w v : World api ttl)
      → ((o : String) → w.terms o ≡ none)
      → ((o : String) → w.pending o ≡ none)
      → ((l : Lease) → lease w.db ≡ some l → l.expires_at ≤ w.clock + ttl)
      → Reach w v
      → (o p : String) (until until' : ℕ) → v.terms o ≡ some until
      → v.terms p ≡ some until'
      → v.clock ≤ until
      → v.clock ≤ until'
      → o ≡ p
  mutual_exclusion w v fresh idle timely r o p until until' eo ep lo lp =
      let s =
        Reach-IsSafe
          (record {
            timely = timely;
            backed = λ q u e live. absurd (cc (fresh q, e));
            past = λ q now e. absurd (cc (idle q, e));
          })
          r in
      let (l, is, mine, _) = s.backed o until eo lo in
      let (k, is', yours, _) = s.backed p until' ep lp in cc (is, is', mine, yours)
