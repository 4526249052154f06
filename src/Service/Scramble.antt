-- ===== src/Service/Scramble.antt =====
-- `ScrambleView::process` of src/server_service/view.cpp: a user takes a ticket.
use proxy_for_distribution_s.Base.{
  ◌==◌, Text, codes, Bool, false, if◌then◌else◌, ◌++◌, none, some, length,
}
use proxy_for_distribution_s.Service.Numbers.{ℤ, pos, negsuc, stoi, ◌+ℤ◌, ◌-ℤ◌}
use proxy_for_distribution_s.Service.Statements.{
  begin, commit, tickets, start_time, lock_task, take_one, give_ticket,
}
use proxy_for_distribution_s.Service.Session.{
  Db, go, bad_number, View, ◌>>=◌, format, answer, answer_and_return, query, update, query_or_error,
  update_or_error, roll_back,
}
use proxy_for_distribution_s.Service.Views.{Request, before, need, column, authenticate}

abbrev pub is_zero : ℤ → Bool
is_zero (pos n) = n == 0
is_zero (negsuc n) = false

module _ {D : Type 0} (db : Db D) where
  -- Nobody takes a ticket before the task's start; `now` is the formatted time.
  unfoldable pub check_time : Text → Text → View D Unit
  unfolding format query_or_error column before answer_and_return
  check_time now task = do
    _ ← format (start_time task)
    rows ← query_or_error db (start_time task)
    task_s_time ← column 0 rows
    if before now task_s_time
        then answer_and_return (codes "The start of the scramble for tickets is " ++ task_s_time)
        else (λ s. go tt s)

  -- A user who has a ticket gets no other.
  unfoldable pub check_tickets : Text → Text → View D Unit
  unfolding format query roll_back
  check_tickets task name = do
    _ ← format (tickets task name)
    response2 ← query db (tickets task name)
    elim response2 [
      | none ↦ roll_back db (codes "error")
      | some rows ↦
          if length rows == 1
          then roll_back db (codes "You have get a ticket, Please don't try again")
          else (λ s. go tt s)
    ]

  -- Lock the task's row and read its two numbers.
  unfoldable pub lock : Text → View D (ℤ × ℤ)
  unfolding format query roll_back column need
  lock task = do
    _ ← format (lock_task task)
    response4 ← query db (lock_task task)
    elim response4 [
      | none ↦ roll_back db (codes "error")
      | some rows ↦ do
        data2 ← column 2 rows
        total_number ← need bad_number (stoi data2)
        data3 ← column 3 rows
        remain_number ← need bad_number (stoi data3)
        λ s. go (total_number, remain_number) s
    ]

  -- Take a ticket off, give it to the user and commit.
  unfoldable pub give : Text → Text → ℤ → View D Unit
  unfolding format update roll_back answer
  give task name number = do
    _ ← format (take_one task)
    taken ← update db (take_one task)
    if taken
        then (do
          _ ← format (give_ticket task name number)
          given ← update db (give_ticket task name number)
          if given
              then (do
                done ← update db commit
                if done then answer (codes "success") else roll_back db (codes "error"))
              else roll_back db (codes "error"))
        else roll_back db (codes "error")

  unfoldable pub scramble_process : Text → Request → View D Unit
  unfolding authenticate check_time update_or_error check_tickets lock roll_back give
  scramble_process now r = do
    _ ← authenticate db r.name r.password
    _ ← check_time now r.task
    _ ← update_or_error db begin
    _ ← check_tickets r.task r.name
    (total_number, remain_number) ← lock r.task
    if is_zero remain_number
        then roll_back db (codes "no ticket")
        else give r.task r.name (total_number -ℤ remain_number +ℤ pos 1)
