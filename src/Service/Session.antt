-- ===== src/Service/Session.antt =====
-- What a view of src/server_service/view.cpp does: it runs statements and answers, and may end early
-- or run into something undefined or an exception.
use proxy_for_distribution_s.Base.{
  ℕ, zero, suc, leb, Text, codes, Bool, if◌then◌else◌, List, [], ◌∷◌, ◌++◌, Option, none, some,
  length,
}
use proxy_for_distribution_s.Service.Statements.{Sql, print, rollback}

-- A row as `mysql_fetch_row` gives it, and a result as `mysql_store_result` does.
abbrev pub Row : Type 0
Row = List Text

-- MySQL behind `Connection::query` and `Connection::update`; `none` is `nullptr`.
pub record Db (D : Type 0) : Type 0 where
  pub query : Text → D → Option (List Row) × D
  pub update : Text → D → Bool × D

-- What the view has done. An answer is the member "message" of what is written to the gateway.
pub data Event : Type 0 where
  asked : Sql → Event
  did : Sql → Bool → Event
  answered : Text → Event

pub record Session (D : Type 0) : Type 0 where
  pub db : D
  pub log : List Event

-- A buffer that is too small, a null pointer, an exception that nothing catches, or a loop that
-- used up the fuel.
pub data Fault : Type 0 where
  overflow null_pointer bad_number unending : Fault

-- Go on, return, or fail.
pub data Flow (D A : Type 0) : Type 0 where
  go : A → Session D → Flow D A
  ret : Session D → Flow D A
  fails : Fault → Flow D A

abbrev pub View : Type 0 → Type 0 → Type 0
View D A = Session D → Flow D A

infixl 5 ◌>>=◌
unfoldable pub ◌>>=◌ : {D A B : Type 0} → View D A → (A → View D B) → View D B
◌>>=◌ m f s = elim (m s) [ go a s' ↦ f a s' | ret s' ↦ ret s' | fails e ↦ fails e ]

-- SQL_LEN
abbrev pub sql_len : ℕ
sql_len = 1024

module _ {D : Type 0} where
  unfoldable pub note : Event → D → Session D → Session D
  note e d s = record { db = d; log = s.log ++ e ∷ [] }

  unfoldable pub fail : {A : Type 0} → Fault → View D A
  fail e s = fails e

  -- `sprintf` into an array of SQL_LEN characters.
  unfoldable pub format : Sql → View D Unit
  unfolding print
  format q s = if leb sql_len (length (print q)) then fails overflow else go tt s

  -- The assignment of "message" and the two writes.
  unfoldable pub answer : Text → View D Unit
  unfolding note
  answer message s = go tt (note (answered message) s.db s)

  unfoldable pub answer_and_return : {A : Type 0} → Text → View D A
  unfolding note
  answer_and_return message s = ret (note (answered message) s.db s)

  module _ (db : Db D) where
    unfoldable pub query : Sql → View D (Option (List Row))
    unfolding print note
    query q s = let (res, d) = db.query (print q) s.db in go res (note (asked q) d s)

    unfoldable pub update : Sql → View D Bool
    unfolding print note
    update q s = let (done, d) = db.update (print q) s.db in go done (note (did q done) d s)

    -- A query whose failure is answered by "error".
    unfoldable pub query_or_error : Sql → View D (List Row)
    unfolding query answer_and_return
    query_or_error q = do
      res ← query q
      elim res [ none ↦ answer_and_return (codes "error") | some rows ↦ λ s. go rows s ]

    unfoldable pub update_or_error : Sql → View D Unit
    unfolding update answer_and_return
    update_or_error q = do
      done ← update q
      if done then (λ s. go tt s) else answer_and_return (codes "error")

    -- End the transaction, answer and return.
    unfoldable pub roll_back : {A : Type 0} → Text → View D A
    unfolding update answer_and_return
    roll_back message = do done ← update rollback; answer_and_return message

    -- `while (!update(roll_back))`
    unfoldable pub roll_back_until : ℕ → View D Unit
    unfolding update fail
    roll_back_until zero = fail unending
    roll_back_until (suc fuel) = do
      done ← update rollback
      let again = roll_back_until fuel
      if done then (λ s. go tt s) else again
