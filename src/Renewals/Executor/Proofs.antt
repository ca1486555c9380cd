-- ===== src/Renewals/Executor/Proofs.antt =====
-- What the AMS has answered when the verification of an action confirms it.
use rsg_hermes.Prelude.{
  ◌≡◌, refl, ◌∙◌, true, Option, none, some, List, [], ◌∷◌, ap, sym, inl, inr, ◌⊎◌, Bool-cases,
}
use mathlib.Core.Path.{subst}
use rsg_hermes.Prelude.Text.{Text}
use rsg_hermes.Prelude.Dict.{Dict}
use rsg_hermes.Overrides.{Value}
use rsg_hermes.Renewals.Executor.Calls.{
  History, Env, Answer, answered, client_error, raised, attempt, Reading, missing, ambiguous, found,
  find_policy_by_number, Ids, Evidence, Response, extract_created_id, note_id, task_ids, Note, Task,
  manage_notes, insert_task,
}
use rsg_hermes.Renewals.Executor.Instruction.{
  Action, request_terms, prepare_options, client_follow_up, update_ams, JobContext, Policy, shows,
  mismatched, is_noop, shows-mismatched,
}
use rsg_hermes.Renewals.Executor.Finish.{return}
use rsg_hermes.Renewals.Executor.Pipeline.{
  execute, execute_contact, Executed, done, refused, is_note, note_body, build_task_payload,
}
use rsg_hermes.Renewals.Executor.Process.{
  verify, confirmed, check_update, compare_fields, check_created,
}
use rsg_hermes.Renewals.Executor.Steps.{only, is_ams}
use rsg_hermes.Renewals.Executor.Filing.{>>=-returned, returned_value}

module _ (env : Env) where
  -- The latest write has been answered with `r`: it is a note or a task.
  abbrev pub IsAnswered : Response → History → Type 0
  IsAnswered r writes =
      (g : History) × (((n : Note) × (writes ≡ manage_notes n ∷ only is_ams g)
          × (env.notes g ≡ answered r))
        ⊎ ((t : Task) × (writes ≡ insert_task t ∷ only is_ams g) × (env.tasks g ≡ answered r)))

  -- Where `writes` are the calls that have changed the AMS by the end: behind all of them the AMS has
  -- shown the approved values, or the last of them has been answered with an id.
  abbrev pub IsProven : JobContext → Option Action → History → Type 0
  IsProven ctx (some prepare_options) writes = Unit {0}
  IsProven ctx (some update_ams) writes =
      (g : History) × (p : Policy) × (only is_ams g ≡ writes)
      × ((find_policy_by_number env ctx.policy_number g).0 ≡ some (found p))
      × (shows p ctx.fields ≡ true)
  IsProven ctx _ writes =
      (r : Response) × (i : Text) × IsAnswered r writes × (extract_created_id r ≡ some i)

  module _ (ctx : JobContext) (before : Policy) where
    -- A create that has been answered.
    abbrev Answers : Executed → History → Type 0
    Answers refused writes = Unit {0}
    Answers (done r ids) writes = IsAnswered r writes

    -- The call of a create, whatever it is answered.
    abbrev Made : Answer Response → History → Type 0
    Made answer writes =
        (g : History) × (((n : Note) × (writes ≡ manage_notes n ∷ only is_ams g)
            × (env.notes g ≡ answer))
          ⊎ ((t : Task) × (writes ≡ insert_task t ∷ only is_ams g) × (env.tasks g ≡ answer)))

    create-Answers :
        (answer : Answer Response) (ids : Response → Ids) (g : History) (x : Executed)
        → Made answer (only is_ams g)
        → (attempt answer (λ r. return (done r (ids r))) (return refused) g).0 ≡ some x
        → Answers x
            (only is_ams (attempt answer (λ r. return (done r (ids r))) (return refused) g).1)
    unfolding return
    create-Answers (answered r) ids g x from e =
        let same : done r (ids r) ≡ x = cc in subst (λ y. Answers y (only is_ams g)) same from
    create-Answers client_error ids g x from e =
        let same : refused ≡ x = cc in subst (λ y. Answers y (only is_ams g)) same tt
    create-Answers raised ids g x from e = cc

    contact-Answers :
        (h : History) (x : Executed)
        → (execute_contact env ctx before h).0 ≡ some x
        → Answers x (only is_ams (execute_contact env ctx before h).1)
    unfolding execute_contact
    contact-Answers h x e = elim (Bool-cases (is_note ctx)) [
      | inl yes_note ↦
          let step : execute_contact env ctx before h
              ≡ attempt (env.notes h) (λ r. return (done r (note_id (extract_created_id r))))
                  (return refused) (manage_notes (note_body ctx before) ∷ h) =
            rw (yes_note, execute_contact) refl in
          subst (λ s. Answers x (only is_ams s.1)) (sym step)
            (create-Answers (env.notes h) _ _ x (h, inl (_, refl, refl))
              (ap (λ s. s.0) (sym step) ∙ e))
      | inr no_note ↦
          let step : execute_contact env ctx before h
              ≡ attempt (env.tasks h)
                  (λ r. return (
                    done r (
                      task_ids (extract_created_id r)
                        (build_task_payload env.today ctx before).insured_database_id)))
                  (return refused) (insert_task (build_task_payload env.today ctx before) ∷ h) =
            rw (no_note, execute_contact) refl in
          subst (λ s. Answers x (only is_ams s.1)) (sym step)
            (create-Answers (env.tasks h) _ _ x (h, inr (_, refl, refl))
              (ap (λ s. s.0) (sym step) ∙ e))
    ]

    created_proven :
        (r : Response) (i : Option Text) (c : Evidence)
        → check_created r i ≡ confirmed c
        → (j : Text) × (i ≡ some j)
    created_proven r (some i) c e = (i, refl)
    created_proven r none c e = cc

    update_proven :
        (x : Reading) (c : Evidence)
        → check_update ctx x ≡ confirmed c
        → (p : Policy) × (x ≡ found p) × (shows p ctx.fields ≡ true)
    unfolding check_update
    update_proven missing c e = cc
    update_proven (ambiguous n) c e = cc
    update_proven (found []) c e = cc
    update_proven (found (f ∷ p)) c e =
        (f ∷ p, refl, all_shown (mismatched (f ∷ p) ctx.fields) refl e)
      where
        all_shown :
            (ks : List Text)
            → mismatched (f ∷ p) ctx.fields ≡ ks
            → compare_fields (f ∷ p) ks ≡ confirmed c
            → shows (f ∷ p) ctx.fields ≡ true
        all_shown [] same e = shows-mismatched (f ∷ p) ctx.fields same
        all_shown (k ∷ ks) same e = cc

    pub noop_shows :
        (fields : Dict Value) → is_noop before fields ≡ true → shows before fields ≡ true
    unfolding is_noop
    noop_shows [] e = cc
    noop_shows (f ∷ fields) e = e

    contact_proven :
        (r : Response) (ids : Ids) (g : History) (c : Evidence)
        → (execute_contact env ctx before g).0 ≡ some (done r ids)
        → check_created r (extract_created_id r) ≡ confirmed c
        → (s : Response) × (i : Text) × IsAnswered s
            (only is_ams (execute_contact env ctx before g).1)
          × (extract_created_id s ≡ some i)
    contact_proven r ids g c e f =
        let (i, named) = created_proven r (extract_created_id r) c f in
        (r, i, contact-Answers g (done r ids) e, named)

    pub verify-IsProven :
        (a : Option Action) (r : Response) (ids : Ids) (g : History) (c : Evidence)
        → (execute env ctx a before g).0 ≡ some (done r ids)
        → (verify env ctx a r before (execute env ctx a before g).1).0 ≡ some (confirmed c)
        → IsProven ctx a (only is_ams (execute env ctx a before g).1)
    unfolding verify execute
    verify-IsProven none r ids g c e f = contact_proven r ids g c e (cc)
    verify-IsProven (some request_terms) r ids g c e f = contact_proven r ids g c e (cc)
    verify-IsProven (some prepare_options) r ids g c e f = tt
    verify-IsProven (some client_follow_up) r ids g c e f = contact_proven r ids g c e (cc)
    verify-IsProven (some update_ams) r ids g c e f =
        let h = (execute env ctx (some update_ams) before g).1 in
        let (x, read, last) =
          >>=-returned (find_policy_by_number env ctx.policy_number)
            (λ after. return (check_update ctx after)) h _ _
            (ap (λ o. (o, (verify env ctx (some update_ams) r before h).1)) f) in
        let (p, same, all) = update_proven x c (sym (returned_value _ _ _ _ last)) in
        (h, p, refl, read ∙ ap some same, all)
