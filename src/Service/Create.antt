-- ===== src/Service/Create.antt =====
-- `CreatetaskView::process` of src/server_service/view.cpp, and `Controller::process` of controller.cpp.
use proxy_for_distribution_s.Base.{ℕ, ◌==◌, Text, codes, if◌then◌else◌, Option, none, some}
use proxy_for_distribution_s.Service.Numbers.{stoi}
use proxy_for_distribution_s.Service.Statements.{
  Sql, begin, commit, verify, count_rights, new_task, new_table,
}
use proxy_for_distribution_s.Service.Session.{
  Db, go, bad_number, null_pointer, View, ◌>>=◌, fail, format, answer, answer_and_return, update,
  query_or_error, update_or_error, roll_back_until,
}
use proxy_for_distribution_s.Service.Views.{Request, need, column, authenticate, inquiry_process}
use proxy_for_distribution_s.Service.Scramble.{is_zero, scramble_process}

module _ {D : Type 0} where
  module _ (db : Db D) (fuel : ℕ) where
    -- A statement of the transaction, which is rolled back until that succeeds where it fails.
    unfoldable pub update_or_undo : Sql → View D Unit
    unfolding update roll_back_until answer_and_return
    update_or_undo q = do
      done ← update db q
      if done
          then (λ s. go tt s)
          else (do _ ← roll_back_until db fuel; answer_and_return (codes "error"))

    unfoldable pub create_process : Request → View D Unit
    unfolding authenticate query_or_error column need answer_and_return update_or_error format
        update_or_undo answer
    create_process r = do
      _ ← authenticate db r.name r.password
      rows ← query_or_error db (count_rights r.name)
      data0 ← column 0 rows
      count ← need bad_number (stoi data0)
      if is_zero count then answer_and_return (codes "Your degree is too low to operate") else (do
        _ ← update_or_error db begin
        _ ← format (new_task r.task_name r.start_time r.total_number)
        _ ← update_or_undo (new_task r.task_name r.start_time r.total_number)
        _ ← format (new_table r.task_name)
        _ ← update_or_undo (new_table r.task_name)
        _ ← update_or_undo commit
        answer (codes "success"))

  -- Each view has formatted its first statement by the time it uses the connection; `none` is a
  -- connection that `getConnection` did not give in time.
  unfoldable pub with_connection : Option (Db D) → Request → (Db D → View D Unit) → View D Unit
  unfolding format fail
  with_connection none r process = do _ ← format (verify r.name r.password); fail null_pointer
  with_connection (some db) r process = process db

  -- A kind that no view has gives a null pointer.
  unfoldable pub controller_process : Option (Db D) → ℕ → Text → Request → View D Unit
  unfolding inquiry_process scramble_process create_process with_connection fail
  controller_process connection fuel now r =
      if r.kind == 4
      then with_connection connection r (λ db. inquiry_process db r)
      else if r.kind == 5
      then with_connection connection r (λ db. scramble_process db now r)
      else if r.kind == 6
      then with_connection connection r (λ db. create_process db fuel r)
      else fail null_pointer
