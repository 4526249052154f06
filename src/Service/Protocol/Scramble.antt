-- ===== src/Service/Protocol/Scramble.antt =====
-- `ScrambleView::process` and `inquiryView::process` of src/server_service/view.cpp keep to the protocol.
use proxy_for_distribution_s.Base.{
  ◌==◌, Text, codes, text_eq, Bool, true, false, if◌then◌else◌, List, [], Option, none, some,
  length, ◌≡◌, refl, inl, inr,
}
use proxy_for_distribution_s.Service.Numbers.{ℤ, pos, stoi, ◌+ℤ◌, ◌-ℤ◌}
use proxy_for_distribution_s.Service.Statements.{
  begin, commit, rollback, verify, tickets, start_time, lock_task, take_one, give_ticket,
}
use proxy_for_distribution_s.Service.Session.{
  Row, Db, go, ◌>>=◌, format, answer, update, roll_back, bad_number, overflow, did, answered,
}
use proxy_for_distribution_s.Service.Views.{
  need, column, Request, authenticate, inquiry_process, before,
}
use proxy_for_distribution_s.Service.Scramble.{
  is_zero, check_time, check_tickets, lock, give, scramble_process,
}
use proxy_for_distribution_s.Service.Protocol.{
  Phase, idle, opened, spoiled, undone, served, told, Told, Tried, is_success, within, next_phase,
  phase, Ends,
}
use proxy_for_distribution_s.Service.Protocol.Proofs.{
  Leads, Leads->>=, Leads-go, Leads-fail, Leads-need, Leads-if, Leads-answer_and_return,
  Leads-format, Leads-answer, Leads-column, Leads-query, Leads-update, Leads-query_or_error,
  Leads-update_or_error, Leads-roll_back,
}

abbrev at_idle {ℓ} : {A : Type ℓ} → A → Phase
at_idle a = idle

-- What comes before a transaction.
module _ {D : Type 0} (db : Db D) {R : Phase → Type 0} (tell : R told) where
  pub Leads-authenticate :
      (name password : Text) → Leads R idle (authenticate db name password) (λ _. idle)
  unfolding authenticate next_phase is_success text_eq
  Leads-authenticate name password =
      Leads->>= (λ _. idle) (Leads-format (verify name password))
        (λ _.
          Leads->>= (λ _. idle) (Leads-query_or_error db (verify name password) refl tell)
            (λ rows.
              Leads-if (length rows == 0) (λ _. idle)
                (λ _. Leads-answer_and_return _ (λ _. idle) tell)
                (λ _. Leads-go tt (λ _. idle) refl)))

  inquiry-Leads : (r : Request) → Leads R idle (inquiry_process db r) (λ _. told)
  unfolding inquiry_process next_phase is_success text_eq
  inquiry-Leads r =
      Leads->>= (λ _. idle) (Leads-authenticate r.name r.password)
        (λ _.
          Leads->>= (λ _. idle) (Leads-format (tickets r.task r.name))
            (λ _.
              Leads->>= (λ _. idle) (Leads-query_or_error db (tickets r.task r.name) refl tell)
                (λ rows.
                  Leads-if (length rows == 0) (λ _. told) (λ _. Leads-answer _)
                    (λ _.
                      Leads->>= (λ _. idle) (Leads-column 1 rows)
                        (λ number.
                          Leads-if (length number == 0) (λ _. told) (λ _. Leads-answer _)
                            (λ _. Leads-fail overflow (λ _. told)))))))

  check_time-Leads : (now task : Text) → Leads R idle (check_time db now task) (λ _. idle)
  unfolding check_time next_phase is_success text_eq
  check_time-Leads now task =
      Leads->>= (λ _. idle) (Leads-format (start_time task))
        (λ _.
          Leads->>= (λ _. idle) (Leads-query_or_error db (start_time task) refl tell)
            (λ rows.
              Leads->>= (λ _. idle) (Leads-column 0 rows)
                (λ start.
                  Leads-if (before now start) (λ _. idle)
                    (λ _. Leads-answer_and_return _ (λ _. idle) tell)
                    (λ _. Leads-go tt (λ _. idle) refl))))

module _ {D : Type 0} (db : Db D) where
  undo :
      {A : Type 0} (p : Phase) (m : Text) (Q : A → Phase)
      → ((b : Bool) → next_phase p (did rollback b) ≡ undone b)
      → is_success m ≡ false
      → Leads Tried p (roll_back db m) Q
  unfolding next_phase undone
  undo p m Q e no_success = Leads-roll_back db m Q after
    where
      after : (b : Bool) → Tried (next_phase (next_phase p (did rollback b)) (answered m))
      after true = rw (e true, no_success) (inl refl)
      after false = rw (e false, no_success) (inr refl)

  check_tickets-Leads :
      (task name : Text) → Leads Tried (opened 0) (check_tickets db task name) (λ _. opened 0)
  unfolding check_tickets next_phase is_success text_eq within
  check_tickets-Leads task name =
      Leads->>= (λ _. opened 0) (Leads-format (tickets task name))
        (λ _. Leads->>= (λ _. opened 0) (Leads-query db (tickets task name) refl) rest)
    where
      rest :
          (response2 : Option (List Row))
          → Leads {D = D} {A = Unit} Tried
              (opened 0)
              (elim response2 [
                | none ↦ roll_back db (codes "error")
                | some rows ↦
                    if length rows == 1
                    then roll_back db (codes "You have get a ticket, Please don't try again")
                    else (λ s. go tt s)
              ])
              (λ _. opened 0)
      rest none = undo (opened 0) _ (λ _. opened 0) (λ b. refl) refl
      rest (some rows) =
          Leads-if (length rows == 1) (λ _. opened 0)
            (λ _. undo (opened 0) _ (λ _. opened 0) (λ b. refl) refl)
            (λ _. Leads-go tt (λ _. opened 0) refl)

  lock-Leads : (task : Text) → Leads Tried (opened 0) (lock db task) (λ _. opened 0)
  unfolding lock next_phase is_success text_eq within
  lock-Leads task =
      Leads->>= (λ _. opened 0) (Leads-format (lock_task task))
        (λ _. Leads->>= (λ _. opened 0) (Leads-query db (lock_task task) refl) rest)
    where
      rest :
          (response4 : Option (List Row))
          → Leads {D = D} {A = ℤ × ℤ} Tried
              (opened 0)
              (elim response4 [
                | none ↦ roll_back db (codes "error")
                | some rows ↦ do
                  data2 ← column 2 rows
                  total_number ← need bad_number (stoi data2)
                  data3 ← column 3 rows
                  remain_number ← need bad_number (stoi data3)
                  λ s. go (total_number, remain_number) s
              ])
              (λ _. opened 0)
      rest none = undo (opened 0) _ (λ _. opened 0) (λ b. refl) refl
      rest (some rows) =
          Leads->>= (λ _. opened 0) (Leads-column 2 rows)
            (λ data2.
              Leads->>= (λ _. opened 0) (Leads-need bad_number (stoi data2))
                (λ total.
                  Leads->>= (λ _. opened 0) (Leads-column 3 rows)
                    (λ data3.
                      Leads->>= (λ _. opened 0) (Leads-need bad_number (stoi data3))
                        (λ remain. Leads-go (total, remain) (λ _. opened 0) refl))))

  give-Leads :
      (task name : Text) (number : ℤ)
      → Leads Tried (opened 0) (give db task name number) (λ _. served 2)
  unfolding give next_phase is_success text_eq within
  give-Leads task name number =
      Leads->>= (λ _. opened 0) (Leads-format (take_one task))
        (λ _. Leads->>= _ (Leads-update db (take_one task)) taken)
    where
      done :
          (b : Bool)
          → Leads {D = D} {A = Unit} Tried
              (within 2 commit b)
              (if b then answer (codes "success") else roll_back db (codes "error"))
              (λ _. served 2)
      done true = Leads-answer (codes "success")
      done false = undo spoiled _ (λ _. served 2) (λ b. refl) refl

      given :
          (b : Bool)
          → Leads {D = D} {A = Unit} Tried
              (within 1 (give_ticket task name number) b)
              (if b
                then (do
                  c ← update db commit
                  if c then answer (codes "success") else roll_back db (codes "error"))
                else roll_back db (codes "error"))
              (λ _. served 2)
      given true = Leads->>= _ (Leads-update db commit) done
      given false = undo spoiled _ (λ _. served 2) (λ b. refl) refl

      taken :
          (b : Bool)
          → Leads {D = D} {A = Unit} Tried
              (within 0 (take_one task) b)
              (if b
                then (do
                  _ ← format (give_ticket task name number)
                  g ← update db (give_ticket task name number)
                  if g
                      then (do
                        c ← update db commit
                        if c then answer (codes "success") else roll_back db (codes "error"))
                      else roll_back db (codes "error"))
                else roll_back db (codes "error"))
              (λ _. served 2)
      taken true =
          Leads->>= _ (Leads-format (give_ticket task name number))
            (λ _. Leads->>= _ (Leads-update db (give_ticket task name number)) given)
      taken false = undo spoiled _ (λ _. served 2) (λ b. refl) refl

  scramble-Leads :
      (now : Text) (r : Request) → Leads Tried idle (scramble_process db now r) (λ _. served 2)
  unfolding scramble_process next_phase is_success text_eq within
  scramble-Leads now r =
      Leads->>= (λ _. idle) (Leads-authenticate db (inl refl) r.name r.password)
        (λ _.
          Leads->>= (λ _. idle) (check_time-Leads db (inl refl) now r.task)
            (λ _.
              Leads->>= (λ _. opened 0) (Leads-update_or_error db begin (opened 0) refl (inl refl))
                (λ _.
                  Leads->>= (λ _. opened 0) (check_tickets-Leads r.task r.name)
                    (λ _.
                      Leads->>= (λ _. opened 0) (lock-Leads r.task)
                        (λ (total, remain).
                          Leads-if (is_zero remain) (λ _. served 2)
                            (λ _. undo (opened 0) _ (λ _. served 2) (λ b. refl) refl)
                            (λ _. give-Leads r.task r.name (total -ℤ remain +ℤ pos 1)))))))

  -- Whatever the database answers, a run of ScrambleView::process that goes on to the end has begun a
  -- transaction, run two statements in it and committed it, all with success, and then told the
  -- client success, once; one that returns has told the client something else, once, and has left no
  -- transaction: it began none or a rollback of it succeeded; or the last thing before was a rollback
  -- that the database refused.
  pub scramble_process-Ends :
      (now : Text) (r : Request) (d : D)
      → Ends Tried (λ _. served 2) (scramble_process db now r (record { db = d; log = [] }))
  unfolding phase
  scramble_process-Ends now r d = (scramble-Leads now r).ends _ refl

  -- An inquiry begins no transaction and answers once, not by "success", or fails.
  pub inquiry_process-Ends :
      (r : Request) (d : D)
      → Ends Told (λ _. told) (inquiry_process db r (record { db = d; log = [] }))
  unfolding phase
  inquiry_process-Ends r d = (inquiry-Leads db refl r).ends _ refl
