-- ===== src/Service/Tickets.antt =====
-- What `ScrambleView::process` of src/server_service/view.cpp promises about a task: the database's
-- documented behaviour on its row and its table, as far as the view relies on it.
pub mod Runs
pub mod Opening
pub mod Sale
pub mod Fair
pub mod Small
mod Tests
use proxy_for_distribution_s.Base.{
  ℕ, zero, suc, ◌+◌, ◌-◌, ◌<◌, ◌≤◌, ◌^◌, Text, codes, text_eq, Bool, true, false, if◌then◌else◌,
  List, [], ◌∷◌, ◌++◌, Option, none, some, length, get_elem?, ◌≡◌, ◌⊎◌,
}
use proxy_for_distribution_s.Service.Numbers.{ℤ, pos, print_int, Fits}
use proxy_for_distribution_s.Service.Statements.{
  Sql, print, begin, commit, rollback, tickets, lock_task, take_one, give_ticket,
}
use proxy_for_distribution_s.Service.Session.{Row, Db}

-- The row of a task, its columns Totoal_number and remain_number, and the rows of its table.
pub record Store : Type 0 where
  pub total : ℕ
  pub remain : ℕ
  pub owners : List (Text × ℤ)

-- How many tickets a user has.
unfoldable pub count : Text → List (Text × ℤ) → ℕ
count name [] = 0
count name ((n, z) ∷ ts) = (if text_eq n name then 1 else 0) + count name ts

-- What a transaction leaves on success.
abbrev pub taken : Store → Store
taken st = record st { remain = st.remain - 1 }

abbrev pub given : Text → ℤ → Store → Store
given name z st = record st { owners = st.owners ++ (name, z) ∷ [] }

-- The documented behaviour on a task, for a user and a session that has the database to itself: `saved`
-- is what was committed, `working` what the session sees. A statement may be refused; a BEGIN commits
-- what is pending first, also where it is refused then, or it does nothing.
pub record Stores {D : Type 0} (db : Db D) (task name : Text) (saved working : D → Store)
    : Type 0 where
  pub query_keeps :
      (q : Sql) (d : D)
      → (saved (db.query (print q) d).1 ≡ saved d) × (working (db.query (print q) d).1 ≡ working d)
  pub tickets_reads :
      (rows : List Row) (d : D)
      → (db.query (print (tickets task name)) d).0 ≡ some rows
      → length rows ≡ count name (working d).owners
  -- Only a row that is read for an update is the session's own.
  pub lock_reads :
      (rows : List Row) (d : D) (before : Text)
      → print (lock_task task) ≡ before ++ codes " for update;"
      → (db.query (print (lock_task task)) d).0 ≡ some rows
      → (row : Row) × (rows ≡ row ∷ [])
        × (get_elem? row 2 ≡ some (print_int (pos (working d).total)))
        × (get_elem? row 3 ≡ some (print_int (pos (working d).remain)))
  pub begin_commits :
      (d : D)
      → (db.update (print begin) d).0 ≡ true
      → (saved (db.update (print begin) d).1 ≡ working d)
        × (working (db.update (print begin) d).1 ≡ working d)
  pub begin_refused :
      (d : D)
      → (db.update (print begin) d).0 ≡ false
      → ((saved (db.update (print begin) d).1 ≡ saved d)
          ⊎ (saved (db.update (print begin) d).1 ≡ working d))
        × (working (db.update (print begin) d).1 ≡ working d)
  pub take_takes :
      (d : D)
      → (db.update (print (take_one task)) d).0 ≡ true
      → working (db.update (print (take_one task)) d).1 ≡ taken (working d)
  pub give_gives :
      (z : ℤ) (d : D)
      → Fits z
      → (db.update (print (give_ticket task name z)) d).0 ≡ true
      → working (db.update (print (give_ticket task name z)) d).1 ≡ given name z (working d)
  pub commit_saves :
      (d : D)
      → (db.update (print commit) d).0 ≡ true
      → (saved (db.update (print commit) d).1 ≡ working d)
        × (working (db.update (print commit) d).1 ≡ working d)
  pub commit_fails :
      (d : D)
      → (db.update (print commit) d).0 ≡ false
      → saved (db.update (print commit) d).1 ≡ saved d
  pub rollback_undoes :
      (d : D)
      → (db.update (print rollback) d).0 ≡ true
      → working (db.update (print rollback) d).1 ≡ saved d
  pub rollback_keeps : (d : D) → saved (db.update (print rollback) d).1 ≡ saved d
  pub take_keeps : (d : D) → saved (db.update (print (take_one task)) d).1 ≡ saved d
  pub give_keeps :
      (z : ℤ) (d : D) → saved (db.update (print (give_ticket task name z)) d).1 ≡ saved d

-- A database that never refuses a rollback.
abbrev pub Obeys : {D : Type 0} → Db D → Type 0
Obeys {D} db = (d : D) → (db.update (print rollback) d).0 ≡ true

-- The tickets bear the numbers from `k` on.
unfoldable pub IsNumbered : ℕ → List (Text × ℤ) → Type 0
IsNumbered k [] = Unit
IsNumbered k ((n, z) ∷ ts) = (z ≡ pos k) × IsNumbered (k + 1) ts

-- A fair sale: as many tickets as were taken off, numbered from 1, no user with two.
pub record IsFair (st : Store) : Type 0 where
  pub sold : length st.owners + st.remain ≡ st.total
  pub small : st.total < 2 ^ 31
  pub numbered : IsNumbered 1 st.owners
  pub once : (name : Text) → count name st.owners ≤ 1

-- The sale of one ticket.
abbrev pub sale : Text → Store → Store
sale name st = given name (pos (length st.owners + 1)) (taken st)
