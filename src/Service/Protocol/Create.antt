-- ===== src/Service/Protocol/Create.antt =====
-- `CreatetaskView::process` of src/server_service/view.cpp keeps to the protocol.
use proxy_for_distribution_s.Base.{
  ℕ, zero, suc, codes, text_eq, Bool, true, false, if◌then◌else◌, [], ◌≡◌, refl, sym,
}
use proxy_for_distribution_s.Service.Numbers.{stoi}
use proxy_for_distribution_s.Service.Statements.{
  Sql, begin, commit, rollback, count_rights, new_task, new_table,
}
use proxy_for_distribution_s.Service.Session.{
  Db, go, ◌>>=◌, answer_and_return, roll_back_until, bad_number, unending, did,
}
use proxy_for_distribution_s.Service.Views.{Request}
use proxy_for_distribution_s.Service.Scramble.{is_zero}
use proxy_for_distribution_s.Service.Create.{update_or_undo, create_process}
use proxy_for_distribution_s.Service.Protocol.{
  Phase, idle, opened, spoiled, rolled, stuck, undone, Told, committed, served, is_success, within,
  next_phase, phase, Ends,
}
use proxy_for_distribution_s.Service.Protocol.Proofs.{
  Leads, Leads->>=, Leads-go, Leads-fail, Leads-need, Leads-if, Leads-answer_and_return,
  Leads-format, Leads-answer, Leads-column, Leads-update, Leads-query_or_error,
  Leads-update_or_error,
}
use proxy_for_distribution_s.Service.Protocol.Scramble.{Leads-authenticate}

module _ {D : Type 0} (db : Db D) where
  -- After a rollback: the loop ends where it succeeded, and goes on where it was refused.
  again-Leads :
      (fuel : ℕ) (b : Bool)
      → Leads Told stuck (roll_back_until db fuel) (λ _. rolled)
      → Leads {D = D} {A = Unit} Told
          (undone b)
          (if b then (λ s. go tt s) else roll_back_until db fuel)
          (λ _. rolled)
  unfolding undone
  again-Leads fuel true more = Leads-go tt (λ _. rolled) refl
  again-Leads fuel false more = more

  -- From a phase in which a rollback is due, the loop goes on until one has succeeded.
  roll_back_until-Leads :
      (fuel : ℕ) (p : Phase)
      → ((b : Bool) → next_phase p (did rollback b) ≡ undone b)
      → Leads Told p (roll_back_until db fuel) (λ _. rolled)
  unfolding roll_back_until next_phase
  roll_back_until-Leads zero p due = Leads-fail unending (λ _. rolled)
  roll_back_until-Leads (suc fuel) p due =
      Leads->>= _ (Leads-update db rollback)
        (λ b. rw (due b) (again-Leads fuel b (roll_back_until-Leads fuel stuck (λ b'. refl))))

  update_or_undo-Leads :
      (fuel n : ℕ) (q : Sql) (r : Phase)
      → within n q true ≡ r
      → within n q false ≡ spoiled
      → Leads Told (opened n) (update_or_undo db fuel q) (λ _. r)
  unfolding update_or_undo next_phase is_success text_eq
  update_or_undo-Leads fuel n q r well badly = Leads->>= _ (Leads-update db q) rest
    where
      rest :
          (b : Bool)
          → Leads {D = D} {A = Unit} Told
              (within n q b)
              (if b
                then (λ s. go tt s)
                else (do _ ← roll_back_until db fuel; answer_and_return (codes "error")))
              (λ _. r)
      rest true = Leads-go tt (λ _. r) (sym well)
      rest false = rw badly (
          Leads->>= (λ _. rolled) (roll_back_until-Leads fuel spoiled (λ b. refl))
            (λ _. Leads-answer_and_return (codes "error") (λ _. r) refl))

  create-Leads :
      (fuel : ℕ) (r : Request) → Leads Told idle (create_process db fuel r) (λ _. served 2)
  unfolding create_process next_phase is_success text_eq within
  create-Leads fuel r =
      let task = new_task r.task_name r.start_time r.total_number in
      let table = new_table r.task_name in
      Leads->>= (λ _. idle) (Leads-authenticate db refl r.name r.password)
        (λ _.
          Leads->>= (λ _. idle) (Leads-query_or_error db (count_rights r.name) refl refl)
            (λ rows.
              Leads->>= (λ _. idle) (Leads-column 0 rows)
                (λ data0.
                  Leads->>= (λ _. idle) (Leads-need bad_number (stoi data0))
                    (λ count.
                      Leads-if (is_zero count) (λ _. served 2)
                        (λ _. Leads-answer_and_return _ (λ _. served 2) refl)
                        (λ _.
                          Leads->>= (λ _. opened 0)
                            (Leads-update_or_error db begin (opened 0) refl refl)
                            (λ _.
                              Leads->>= (λ _. opened 0) (Leads-format task)
                                (λ _.
                                  Leads->>= (λ _. opened 1)
                                    (update_or_undo-Leads fuel 0 task (opened 1) refl refl)
                                    (λ _.
                                      Leads->>= (λ _. opened 1) (Leads-format table)
                                        (λ _.
                                          Leads->>= (λ _. opened 2)
                                            (update_or_undo-Leads fuel 1 table (opened 2) refl refl)
                                            (λ _.
                                              Leads->>= (λ _. committed 2)
                                                (update_or_undo-Leads fuel 2 commit (committed 2)
                                                  refl refl)
                                                (λ _. Leads-answer (codes "success"))))))))))))

  -- Whatever the database answers, and however often it refuses a rollback, a run of
  -- CreatetaskView::process that goes on to the end has begun a transaction, run two statements in it
  -- and committed it, all with success, and then told the client success, once; one that returns has
  -- told the client something else, once, and has begun no transaction or has tried to roll it back
  -- until a rollback succeeded, and no longer. The other runs fail, one that still tries among them.
  pub create_process-Ends :
      (fuel : ℕ) (r : Request) (d : D)
      → Ends Told (λ _. served 2) (create_process db fuel r (record { db = d; log = [] }))
  unfolding phase
  create_process-Ends fuel r d = (create-Leads fuel r).ends _ refl
