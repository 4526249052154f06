-- ===== src/Service/Tickets/Opening.antt =====
-- The steps of `ScrambleView::process` of src/server_service/view.cpp up to its transaction.
use proxy_for_distribution_s.Base.{
  ℕ, ◌==◌, Text, codes, Bool, true, false, if◌then◌else◌, List, [], ◌∷◌, Option, none, some, length,
  get_elem?, ◌≡◌, ◌∙◌, Bool-cases, inl, inr,
}
use proxy_for_distribution_s.Service.Statements.{Sql, print, begin, verify, start_time}
use proxy_for_distribution_s.Service.Session.{
  Row, Db, go, answer_and_return, query_or_error, update_or_error, roll_back, null_pointer, fail,
}
use proxy_for_distribution_s.Service.Views.{need, column, authenticate, before}
use proxy_for_distribution_s.Service.Scramble.{check_time}
use proxy_for_distribution_s.Service.Tickets.{Store, Stores, Obeys}
use proxy_for_distribution_s.Service.Tickets.Runs.{
  Out, Runs, Runs->>=, Runs-go, Runs-if, Runs-answer_and_return, Runs-format, Runs-query,
  Runs-update, Runs-roll_back,
}

module _ {D : Type 0} {db : Db D} {task name : Text} {saved working : D → Store}
    (laws : Stores db task name saved working) (st : Store) where
  -- No statement is pending, or those that were begun with are.
  abbrev pub Idle : D → Type 0
  Idle d = (saved d ≡ st) × (working d ≡ st)

  abbrev pub Open : D → Type 0
  Open = Idle

  -- Nothing was committed; and nothing is pending, unless a rollback may be refused.
  abbrev pub Left : D → Type 0
  Left d = (saved d ≡ st) × (Obeys db → working d ≡ st)

  idle-Left : (d : D) → Idle d → Left d
  idle-Left d (at, sees) = (at, λ obeys. sees)

  -- What a query leaves.
  pub still-Open : (q : Sql) (d : D) → Open d → Open (db.query (print q) d).1
  still-Open q d (at, sees) = let (kept, kept') = laws.query_keeps q d in (kept ∙ at, kept' ∙ sees)

  query_or_error-Runs : (q : Sql) → Runs Idle (query_or_error db q) (λ _. Idle) Left
  unfolding query_or_error
  query_or_error-Runs q = Runs->>= (λ _. Idle) (Runs-query db q (λ _. Idle) (still-Open q)) rest
    where
      rest :
          (res : Option (List Row))
          → Runs {D = D} {A = List Row} Idle
              (elim res [ none ↦ answer_and_return (codes "error") | some rows ↦ λ s. go rows s ])
              (λ _. Idle)
              Left
      rest none = Runs-answer_and_return (codes "error") (λ _. Idle) idle-Left
      rest (some rows) = Runs-go rows (λ _. Idle) (λ d at. at)

  pub authenticate-Runs :
      (user password : Text) → Runs Idle (authenticate db user password) (λ _. Idle) Left
  unfolding authenticate
  authenticate-Runs user password =
      Runs->>= (λ _. Idle) (Runs-format (verify user password))
        (λ _.
          Runs->>= (λ _. Idle) (query_or_error-Runs (verify user password))
            (λ rows.
              Runs-if (length rows == 0) (λ _. Idle)
                (λ _. Runs-answer_and_return _ (λ _. Idle) idle-Left)
                (λ _. Runs-go tt (λ _. Idle) (λ d at. at))))

  column-Runs : (i : ℕ) (rows : List Row) → Runs Idle (column i rows) (λ _. Idle) Left
  unfolding column need fail Out
  column-Runs i [] = record { on = λ s at. tt }
  column-Runs i (row ∷ rows) =
      elim (get_elem? row i) as (λ o. Runs Idle (need null_pointer o) (λ _. Idle) Left) [
        | none ↦ record { on = λ s at. tt }
        | some t ↦ record { on = λ s at. at }
      ]

  pub check_time-Runs : (now : Text) → Runs Idle (check_time db now task) (λ _. Idle) Left
  unfolding check_time
  check_time-Runs now =
      Runs->>= (λ _. Idle) (Runs-format (start_time task))
        (λ _.
          Runs->>= (λ _. Idle) (query_or_error-Runs (start_time task))
            (λ rows.
              Runs->>= (λ _. Idle) (column-Runs 0 rows)
                (λ start.
                  Runs-if (before now start) (λ _. Idle)
                    (λ _. Runs-answer_and_return _ (λ _. Idle) idle-Left)
                    (λ _. Runs-go tt (λ _. Idle) (λ d at. at)))))

  pub begin-Runs : Runs Idle (update_or_error db begin) (λ _. Open) Left
  unfolding update_or_error
  begin-Runs = Runs->>= (λ _. Open) (Runs-update db begin (λ _. Open) begins) rest
    where
      begins : (d : D) → Idle d → Open (db.update (print begin) d).1
      begins d (at, sees) = elim (Bool-cases (db.update (print begin) d).0) [
        | inl well ↦ let (saves, keeps) = laws.begin_commits d well in (saves ∙ sees, keeps ∙ sees)
        | inr badly ↦
            let (which, keeps) = laws.begin_refused d badly in
            elim which [
              | inl kept ↦ (kept ∙ at, keeps ∙ sees)
              | inr saves ↦ (saves ∙ sees, keeps ∙ sees)
            ]
      ]

      rest :
          (b : Bool)
          → Runs {D = D} {A = Unit} Open
              (if b then (λ s. go tt s) else answer_and_return (codes "error"))
              (λ _. Open)
              Left
      rest true = Runs-go tt (λ _. Open) (λ d at. at)
      rest false = Runs-answer_and_return (codes "error") (λ _. Open) idle-Left

  pub undo-Runs :
      {A : Type 0} (P : D → Type 0) (m : Text) (Q : A → D → Type 0)
      → ((d : D) → P d → saved d ≡ st)
      → Runs P (roll_back db m) Q Left
  undo-Runs P m Q h =
      Runs-roll_back db m Q (λ d at.
        (laws.rollback_keeps d ∙ h d at, λ obeys. laws.rollback_undoes d (obeys d) ∙ h d at))
