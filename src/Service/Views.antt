-- ===== src/Service/Views.antt =====
-- The three views of src/server_service/view.cpp, and `Controller::process` of controller.cpp,
-- which chooses one.
use proxy_for_distribution_s.Base.{
  ℕ, ltb, ◌==◌, Text, codes, Bool, true, false, if◌then◌else◌, List, [], ◌∷◌, Option, none, some,
  length, get_elem?,
}
use proxy_for_distribution_s.Service.Numbers.{ℤ}
use proxy_for_distribution_s.Service.Statements.{verify, tickets}
use proxy_for_distribution_s.Service.Session.{
  Row, Db, go, Fault, overflow, null_pointer, View, ◌>>=◌, fail, format, answer, answer_and_return,
  query_or_error,
}

-- The members of a request.
pub record Request : Type 0 where
  pub kind : ℕ
  pub name : Text
  pub password : Text
  pub task : Text
  pub task_name : Text
  pub start_time : Text
  pub total_number : ℤ

-- `<` on `std::string`
unfoldable pub before : Text → Text → Bool
before s [] = false
before [] (d ∷ ds) = true
before (c ∷ cs) (d ∷ ds) = if ltb c d then true else if ltb d c then false else before cs ds

module _ {D : Type 0} where
  -- A pointer or an exception: go on with what is there.
  unfoldable pub need : {A : Type 0} → Fault → Option A → View D A
  unfolding fail
  need e none = fail e
  need e (some a) = λ s. go a s

  -- A column of the row that `mysql_fetch_row` gives.
  unfoldable pub column : ℕ → List Row → View D Text
  unfolding need fail
  column i [] = fail null_pointer
  column i (row ∷ rows) = need null_pointer (get_elem? row i)

  module _ (db : Db D) where
    unfoldable pub authenticate : Text → Text → View D Unit
    unfolding format query_or_error answer_and_return
    authenticate name password = do
      _ ← format (verify name password)
      rows ← query_or_error db (verify name password)
      if length rows == 0
          then answer_and_return (codes "Incorrect user name or password")
          else (λ s. go tt s)

    -- `strcat` onto an array that its own text fills.
    unfoldable pub inquiry_process : Request → View D Unit
    unfolding authenticate format query_or_error column fail answer
    inquiry_process r = do
      _ ← authenticate r.name r.password
      _ ← format (tickets r.task r.name)
      rows ← query_or_error db (tickets r.task r.name)
      if length rows == 0 then answer (codes "You haven't get a ticket") else (do
        number ← column 1 rows
        if length number == 0 then answer (codes "Your Ticket Number is ") else fail overflow)
