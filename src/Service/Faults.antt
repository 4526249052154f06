-- ===== src/Service/Faults.antt =====
-- Requests that bring the service down, src/server_service/view.cpp.
use proxy_for_distribution_s.Base.{
  ℕ, ◌==◌, leb, Text, false, List, [], ◌∷◌, some, length, get_elem?, ◌≡◌, ◌≢◌, refl, arith, sym,
  subst,
}
use proxy_for_distribution_s.Service.Statements.{Sql, print, verify, tickets, start_time}
use proxy_for_distribution_s.Service.Session.{
  Row, Db, Session, Flow, go, ret, fails, Fault, overflow, null_pointer, View, ◌>>=◌, format, query,
  query_or_error, fail, note, sql_len, asked,
}
use proxy_for_distribution_s.Service.Views.{Request, need, column, authenticate, inquiry_process}
use proxy_for_distribution_s.Service.Scramble.{check_time, scramble_process}

-- What the database answers to the first two queries of a view.
pub record Answers {D : Type 0} (db : Db D) (r : Request) (q : Sql) (rows : List Row) (d : D)
    : Type 0 where
  pub user : Row
  pub verified : (db.query (print (verify r.name r.password)) d).0 ≡ some (user ∷ [])
  pub found : (db.query (print q) (db.query (print (verify r.name r.password)) d).1).0 ≡ some rows
  pub verify_short : leb sql_len (length (print (verify r.name r.password))) ≡ false
  pub query_short : leb sql_len (length (print q)) ≡ false

module _ {D : Type 0} where
  >>=-go :
      {A B : Type 0} (m : View D A) (f : A → View D B) {a : A} {s s' : Session D} {r : Flow D B}
      → m s ≡ go a s'
      → f a s' ≡ r
      → (m >>= f) s ≡ r
  unfolding ◌>>=◌
  >>=-go {A} {B} m f {r = r} e e' =
      subst
        (λ x.
          elim x as (λ _. Flow D B) [ go a s' ↦ f a s' | ret s' ↦ ret s' | fails e ↦ fails e ] ≡ r)
        (sym e) e'

  >>=-fails :
      {A B : Type 0} (m : View D A) (f : A → View D B) {s : Session D} {e : Fault}
      → m s ≡ fails e
      → (m >>= f) s ≡ fails e
  unfolding ◌>>=◌
  >>=-fails {A} {B} m f {e = e} h =
      subst
        (λ x.
          elim x as (λ _. Flow D B) [ go a s' ↦ f a s' | ret s' ↦ ret s' | fails e' ↦ fails e' ]
          ≡ fails e)
        (sym h) refl

  format-go :
      (q : Sql) (s : Session D) → leb sql_len (length (print q)) ≡ false → format q s ≡ go tt s
  unfolding format
  format-go q s e = rw e refl

  query_or_error-go :
      (db : Db D) (q : Sql) (rows : List Row) (s : Session D)
      → (db.query (print q) s.db).0 ≡ some rows
      → query_or_error db q s ≡ go rows (note (asked q) (db.query (print q) s.db).1 s)
  unfolding query_or_error query note
  query_or_error-go db q rows s e = >>=-go (query db q) _ refl (rw e refl)

module _ {D : Type 0} (db : Db D) (r : Request) where
  -- The session after the check of the password.
  verified_by : Session D → Session D
  verified_by s = let q = verify r.name r.password in note (asked q) (db.query (print q) s.db).1 s

  authenticate-go :
      (q : Sql) (rows : List Row) (s : Session D)
      → Answers db r q rows s.db
      → authenticate db r.name r.password s ≡ go tt (verified_by s)
  unfolding authenticate verified_by
  authenticate-go q rows s a =
      >>=-go _ _ (format-go (verify r.name r.password) s a.verify_short) (
        >>=-go _ _ (query_or_error-go db (verify r.name r.password) (a.user ∷ []) s a.verified)
          refl)

  read :
      {s : Session D} (i : ℕ) (row : Row) (rows : List Row) (t : Text)
      → get_elem? row i ≡ some t
      → column i (row ∷ rows) s ≡ go t s
  unfolding column need
  read i row rows t e = rw e refl

  -- An inquiry of a user who has a ticket runs past the end of the array.
  inquiry_process_overflows :
      (row : Row) (rows : List Row) (number : Text) (s : Session D)
      → Answers db r (tickets r.task r.name) (row ∷ rows) s.db
      → get_elem? row 1 ≡ some number
      → number ≢ []
      → inquiry_process db r s ≡ fails overflow
  unfolding inquiry_process fail verified_by note
  inquiry_process_overflows row rows [] s a at some_digit = absurd (some_digit refl)
  inquiry_process_overflows row rows (c ∷ cs) s a at some_digit =
      let q = tickets r.task r.name in
      let nonempty : (length (row ∷ rows) == 0) ≡ false = ground arith in
      let digits : (length (c ∷ cs) == 0) ≡ false = ground arith in
      >>=-go _ _ (authenticate-go q (row ∷ rows) s a) (
        >>=-go _ _ (format-go q (verified_by s) a.query_short) (
          >>=-go _ _ (query_or_error-go db q (row ∷ rows) (verified_by s) a.found)
            (rw nonempty (>>=-go _ _ (read 1 row rows (c ∷ cs) at) (rw digits refl)))))

  -- A scramble for a ticket of a task that the database does not have uses a null pointer.
  scramble_process_crashes :
      (now : Text) (s : Session D)
      → Answers db r (start_time r.task) [] s.db
      → scramble_process db now r s ≡ fails null_pointer
  unfolding scramble_process check_time column fail verified_by note
  scramble_process_crashes now s a =
      let q = start_time r.task in
      let no_task : check_time db now r.task (verified_by s) ≡ fails null_pointer =
        >>=-go _ _ (format-go q (verified_by s) a.query_short)
          (>>=-go _ _ (query_or_error-go db q [] (verified_by s) a.found) (>>=-fails _ _ refl)) in
      >>=-go _ _ (authenticate-go q [] s a) (>>=-fails _ _ no_task)
