-- ===== src/Service/Tickets/Runs.antt =====
-- Rules for what a view of src/server_service/view.cpp makes of the database.
use proxy_for_distribution_s.Base.{
  leb, Text, Bool, true, false, if◌then◌else◌, List, Option, none, some, length, ◌≡◌, refl,
  Bool-cases, inl, inr,
}
use proxy_for_distribution_s.Service.Statements.{Sql, print, rollback}
use proxy_for_distribution_s.Service.Session.{
  Row, Db, Session, Flow, go, ret, fails, View, ◌>>=◌, format, answer, answer_and_return, query,
  update, roll_back, fail, Fault, note, sql_len,
}
use proxy_for_distribution_s.Service.Views.{need}

-- Where a view goes on, with its result and the database; where it returns.
unfoldable pub Out : {D A : Type 0} → (A → D → Type 0) → (D → Type 0) → Flow D A → Type 0
Out Q R (go a s) = Q a s.db
Out Q R (ret s) = R s.db
Out Q R (fails e) = Unit

-- From a database with `P`, a view goes on with `Q` or returns with `R`.
pub record Runs {D A : Type 0} (P : D → Type 0) (m : View D A) (Q : A → D → Type 0) (R : D → Type 0)
    : Type 0 where
  pub on : (s : Session D) → P s.db → Out Q R (m s)

module _ {D : Type 0} {R : D → Type 0} where
  module _ {A : Type 0} {P : D → Type 0} where
    pub Runs->>= :
        {B : Type 0} {m : View D A} {f : A → View D B} (Q : A → D → Type 0) {Q' : B → D → Type 0}
        → Runs P m Q R
        → ((a : A) → Runs (Q a) (f a) Q' R)
        → Runs P (m >>= f) Q' R
    unfolding ◌>>=◌ Out
    Runs->>= {B} {m} {f} Q {Q'} first next = record { on = λ s at. rest (m s) (first.on s at) }
      where
        rest :
            (r : Flow D A)
            → Out Q R r
            → Out Q' R (elim r [ go a s' ↦ f a s' | ret s' ↦ ret s' | fails e ↦ fails e ])
        rest (go a s') h = (next a).on s' h
        rest (ret s') h = h
        rest (fails e) h = h

    pub Runs-go : (a : A) (Q : A → D → Type 0) → ((d : D) → P d → Q a d) → Runs P (λ s. go a s) Q R
    unfolding Out
    Runs-go a Q h = record { on = λ s at. h s.db at }

    pub Runs-fail : (e : Fault) (Q : A → D → Type 0) → Runs P (fail e) Q R
    unfolding fail Out
    Runs-fail e Q = record { on = λ s at. tt }

    pub Runs-weaken :
        {m : View D A} {Q Q' : A → D → Type 0}
        → Runs P m Q R
        → ((a : A) (d : D) → Q a d → Q' a d)
        → Runs P m Q' R
    unfolding Out
    Runs-weaken {m} {Q} {Q'} r h = record { on = λ s at. weaker (m s) (r.on s at) }
      where
        weaker : (f : Flow D A) → Out Q R f → Out Q' R f
        weaker (go a s) q = h a s.db q
        weaker (ret s) q = q
        weaker (fails e) q = q

    pub Runs-need : (e : Fault) (a : Option A) → Runs P (need e a) (λ x d. P d × (a ≡ some x)) R
    unfolding need Out fail
    Runs-need e none = record { on = λ s at. tt }
    Runs-need e (some a) = record { on = λ s at. (at, refl) }

    pub Runs-if :
        (b : Bool) {m n : View D A} (Q : A → D → Type 0)
        → (b ≡ true → Runs P m Q R)
        → (b ≡ false → Runs P n Q R)
        → Runs P (if b then m else n) Q R
    Runs-if true Q h k = h refl
    Runs-if false Q h k = k refl

    pub Runs-answer_and_return :
        (m : Text) (Q : A → D → Type 0) → ((d : D) → P d → R d) → Runs P (answer_and_return m) Q R
    unfolding answer_and_return Out note
    Runs-answer_and_return m Q h = record { on = λ s at. h s.db at }

  module _ {P : D → Type 0} where
    pub Runs-format : (q : Sql) → Runs P (format q) (λ _. P) R
    unfolding format Out
    Runs-format q = record {
      on = λ s at. elim (Bool-cases (leb sql_len (length (print q)))) [
        | inl long ↦ rw (long, Out) tt
        | inr fits ↦ rw (fits, Out) at
      ];
    }

    pub Runs-answer : (m : Text) → Runs P (answer m) (λ _. P) R
    unfolding answer Out note
    Runs-answer m = record { on = λ s at. at }

    module _ (db : Db D) where
      pub Runs-query :
          (q : Sql) (Q : Option (List Row) → D → Type 0)
          → ((d : D) → P d → Q (db.query (print q) d).0 (db.query (print q) d).1)
          → Runs P (query db q) Q R
      unfolding query Out note
      Runs-query q Q h = record { on = λ s at. h s.db at }

      pub Runs-update :
          (q : Sql) (Q : Bool → D → Type 0)
          → ((d : D) → P d → Q (db.update (print q) d).0 (db.update (print q) d).1)
          → Runs P (update db q) Q R
      unfolding update Out note
      Runs-update q Q h = record { on = λ s at. h s.db at }

      pub Runs-roll_back :
          {A : Type 0} (m : Text) (Q : A → D → Type 0)
          → ((d : D) → P d → R (db.update (print rollback) d).1)
          → Runs P (roll_back db m) Q R
      unfolding roll_back
      Runs-roll_back m Q h =
          Runs->>= (λ _. R) (Runs-update rollback (λ _. R) h)
            (λ _. Runs-answer_and_return m Q (λ d at. at))
