-- ===== src/Service/Tickets/Sale.antt =====
-- Runs of `ScrambleView::process` of src/server_service/view.cpp in the transaction: the sale of a ticket.
use mathlib.Core.List.{append_assoc}
use proxy_for_distribution_s.Base.{
  ◌<◌, ◌^◌, ◌==◌, Text, codes, if◌then◌else◌, List, [], ◌∷◌, Option, none, some, length, get_elem?,
  ◌++◌, ◌≡◌, ◌≢◌, refl, arith, ap, sym, ◌∙◌, subst,
}
use proxy_for_distribution_s.Service.Numbers.{ℤ, pos, stoi, print_int, stoi-print_int}
use proxy_for_distribution_s.Service.Statements.{print, quoted, tickets, lock_task}
use proxy_for_distribution_s.Service.Session.{Row, Db, go, ◌>>=◌, roll_back, bad_number}
use proxy_for_distribution_s.Service.Views.{need, column}
use proxy_for_distribution_s.Service.Scramble.{check_tickets, lock}
use proxy_for_distribution_s.Service.Tickets.{Store, Stores, count, IsFair}
use proxy_for_distribution_s.Service.Tickets.Runs.{
  Out, Runs, Runs->>=, Runs-go, Runs-if, Runs-format, Runs-query,
}
use proxy_for_distribution_s.Service.Tickets.Opening.{Left, Open, undo-Runs, still-Open}

abbrev lock_before : Text → Text
lock_before task = codes "select * from task where task_name=" ++ quoted task

lock_text : (task : Text) → print (lock_task task) ≡ lock_before task ++ codes " for update;"
unfolding print
lock_text task = sym (
    append_assoc (codes "select * from task where task_name=") (quoted task) (codes " for update;"))

module _ {D : Type 0} {db : Db D} {task name : Text} {saved working : D → Store}
    (laws : Stores db task name saved working) (st : Store) where
  pub check_tickets-Runs :
      Runs
        (Open laws st)
        (check_tickets db task name)
        (λ _ d. Open laws st d × (count name st.owners ≢ 1))
        (Left laws st)
  unfolding check_tickets
  check_tickets-Runs =
      Runs->>= (λ _. Open laws st) (Runs-format (tickets task name))
        (λ _. Runs->>= read (Runs-query db (tickets task name) read reads) rest)
    where
      read : Option (List Row) → D → Type 0
      read res d =
          Open laws st d
          × ((rows : List Row) → res ≡ some rows → length rows ≡ count name st.owners)

      reads :
          (d : D)
          → Open laws st d
          → read
              (db.query (print (tickets task name)) d).0
              (db.query (print (tickets task name)) d).1
      reads d (at, sees) = (
        still-Open laws st (tickets task name) d (at, sees),
        λ rows e. laws.tickets_reads rows d e ∙ ap (λ w. count name w.owners) sees,
      )

      rest :
          (response2 : Option (List Row))
          → Runs {D = D} {A = Unit}
              (read response2)
              (elim response2 [
                | none ↦ roll_back db (codes "error")
                | some rows ↦
                    if length rows == 1
                    then roll_back db (codes "You have get a ticket, Please don't try again")
                    else (λ s. go tt s)
              ])
              (λ _ d. Open laws st d × (count name st.owners ≢ 1))
              (Left laws st)
      rest none = undo-Runs laws st (read none) _ _ (λ d h. h.0.0)
      rest (some rows) =
          Runs-if (length rows == 1) _
            (λ _. undo-Runs laws st (read (some rows)) _ _ (λ d h. h.0.0))
            (λ several.
              Runs-go tt _ (λ d h. (h.0, λ one. absurd (ground (arith, several, h.1 rows refl)))))

  -- The two numbers that are read are those of the task.
  abbrev pub Locked : ℤ × ℤ → D → Type 0
  Locked (t, r) d = Open laws st d × (t ≡ pos st.total) × (r ≡ pos st.remain)

  pub lock-Runs : IsFair st → Runs (Open laws st) (lock db task) Locked (Left laws st)
  unfolding lock Out ◌>>=◌
  lock-Runs fair =
      Runs->>= (λ _. Open laws st) (Runs-format (lock_task task))
        (λ _. Runs->>= read (Runs-query db (lock_task task) read reads) rest)
    where
      Has : List Row → Type 0
      Has rows =
          (row : Row) × (rows ≡ row ∷ [])
          × (get_elem? row 2 ≡ some (print_int (pos st.total)))
          × (get_elem? row 3 ≡ some (print_int (pos st.remain)))

      read : Option (List Row) → D → Type 0
      read res d = Open laws st d × ((rows : List Row) → res ≡ some rows → Has rows)

      reads :
          (d : D)
          → Open laws st d
          → read (db.query (print (lock_task task)) d).0 (db.query (print (lock_task task)) d).1
      reads d (at, sees) = (
        still-Open laws st (lock_task task) d (at, sees),
        λ rows e.
            subst
              (λ w.
                (row : Row) × (rows ≡ row ∷ [])
                × (get_elem? row 2 ≡ some (print_int (pos w.total)))
                × (get_elem? row 3 ≡ some (print_int (pos w.remain))))
              sees (laws.lock_reads rows d (lock_before task) (lock_text task) e),
      )

      total_Fits : st.total < 2 ^ 31
      total_Fits = fair.small

      remain_Fits : st.remain < 2 ^ 31
      remain_Fits = omega (arith, fair.sold, fair.small)

      numbers :
          (rows : List Row)
          → Has rows
          → Runs {D = D} {A = ℤ × ℤ}
              (Open laws st)
              (do
                data2 ← column 2 rows
                total_number ← need bad_number (stoi data2)
                data3 ← column 3 rows
                remain_number ← need bad_number (stoi data3)
                λ s. go (total_number, remain_number) s)
              Locked
              (Left laws st)
      numbers rows (row, one, total_at, remain_at) = record {
        on = λ s at.
            rw
              (
                one,
                total_at,
                stoi-print_int (pos st.total) total_Fits,
                remain_at,
                stoi-print_int (pos st.remain) remain_Fits,
              )
              (at, refl, refl);
      }

      rest :
          (response4 : Option (List Row))
          → Runs {D = D} {A = ℤ × ℤ}
              (read response4)
              (elim response4 [
                | none ↦ roll_back db (codes "error")
                | some rows ↦ do
                  data2 ← column 2 rows
                  total_number ← need bad_number (stoi data2)
                  data3 ← column 3 rows
                  remain_number ← need bad_number (stoi data3)
                  λ s. go (total_number, remain_number) s
              ])
              Locked
              (Left laws st)
      rest none = undo-Runs laws st (read none) _ _ (λ d h. h.0.0)
      rest (some rows) = record { on = λ s h. (numbers rows (h.1 rows refl)).on s h.0 }
