-- ===== src/Service/Protocol/Proofs.antt =====
-- The views of src/server_service/view.cpp keep to the protocol.
use proxy_for_distribution_s.Base.{
  ℕ, leb, Text, codes, Bool, true, false, if◌then◌else◌, List, [], ◌∷◌, ◌++◌, Option, none, some,
  length, get_elem?, ◌≡◌, refl, ap, sym, subst, ◌∙◌, Bool-cases, inl, inr,
}
use proxy_for_distribution_s.Service.Statements.{Sql, print, rollback}
use proxy_for_distribution_s.Service.Session.{
  Row, Db, Event, asked, did, answered, Session, Flow, go, ret, fails, View, ◌>>=◌, format, answer,
  answer_and_return, query, update, query_or_error, update_or_error, roll_back, fail, Fault, note,
  sql_len,
}
use proxy_for_distribution_s.Service.Views.{need, column}
use proxy_for_distribution_s.Service.Protocol.{Phase, idle, next_phase, phase, Ends}

phase-append :
    (p : Phase) (es : List Event) (e : Event) → phase p (es ++ e ∷ []) ≡ next_phase (phase p es) e
unfolding phase
phase-append p [] e = refl
phase-append p (x ∷ es) e = phase-append (next_phase p x) es e

-- From a phase on, a view ends as `Q` and `R` say.
pub record Leads {D A : Type 0} (R : Phase → Type 0) (p : Phase) (m : View D A) (Q : A → Phase)
    : Type 0 where
  pub ends : (s : Session D) → phase idle s.log ≡ p → Ends R Q (m s)

module _ {D A : Type 0} {R : Phase → Type 0} {p : Phase} where
  pub Leads->>= :
      {B : Type 0} {m : View D A} {f : A → View D B} (Q : A → Phase) {Q' : B → Phase}
      → Leads R p m Q
      → ((a : A) → Leads R (Q a) (f a) Q')
      → Leads R p (m >>= f) Q'
  unfolding ◌>>=◌ Ends
  Leads->>= {B} {m} {f} Q {Q'} first next = record { ends = λ s at. after (m s) (first.ends s at) }
    where
      after :
          (r : Flow D A)
          → Ends R Q r
          → Ends R Q' (elim r [ go a s' ↦ f a s' | ret s' ↦ ret s' | fails e ↦ fails e ])
      after (go a s') h = (next a).ends s' h
      after (ret s') h = h
      after (fails e) h = h

  pub Leads-go : (a : A) (Q : A → Phase) → Q a ≡ p → Leads {D = D} R p (λ s. go a s) Q
  unfolding Ends
  Leads-go a Q e = record { ends = λ s at. at ∙ sym e }

  pub Leads-fail : (e : Fault) (Q : A → Phase) → Leads {D = D} R p (fail e) Q
  unfolding fail Ends
  Leads-fail e Q = record { ends = λ s at. tt }

  pub Leads-need : (e : Fault) (a : Option A) → Leads {D = D} R p (need e a) (λ _. p)
  unfolding need
  Leads-need e none = Leads-fail e (λ _. p)
  Leads-need e (some a) = Leads-go a (λ _. p) refl

  pub Leads-if :
      (b : Bool) {m n : View D A} (Q : A → Phase)
      → (b ≡ true → Leads R p m Q)
      → (b ≡ false → Leads R p n Q)
      → Leads R p (if b then m else n) Q
  Leads-if true Q h k = h refl
  Leads-if false Q h k = k refl

  pub Leads-answer_and_return :
      (m : Text) (Q : A → Phase)
      → R (next_phase p (answered m))
      → Leads R p (answer_and_return {D = D} m) Q
  unfolding answer_and_return Ends note
  Leads-answer_and_return m Q e = record {
    ends = λ s at.
        subst R
          (sym (phase-append idle s.log (answered m) ∙ ap (λ x. next_phase x (answered m)) at)) e;
  }

module _ {D : Type 0} {R : Phase → Type 0} {p : Phase} where
  pub Leads-format : (q : Sql) → Leads {D = D} R p (format q) (λ _. p)
  unfolding format Ends
  Leads-format q = record {
    ends = λ s at. elim (Bool-cases (leb sql_len (length (print q)))) [
      | inl long ↦ rw (long, Ends) tt
      | inr fits ↦ rw (fits, Ends) at
    ];
  }

  pub Leads-answer : (m : Text) → Leads {D = D} R p (answer m) (λ _. next_phase p (answered m))
  unfolding answer Ends note
  Leads-answer m = record {
    ends = λ s at. phase-append idle s.log (answered m) ∙ ap (λ x. next_phase x (answered m)) at;
  }

  pub Leads-column : (i : ℕ) (rows : List Row) → Leads {D = D} R p (column i rows) (λ _. p)
  unfolding column
  Leads-column i [] = Leads-fail _ _
  Leads-column i (row ∷ rows) = Leads-need _ (get_elem? row i)

module _ {D : Type 0} (db : Db D) {R : Phase → Type 0} {p : Phase} where
  pub Leads-query : (q : Sql) → next_phase p (asked q) ≡ p → Leads R p (query db q) (λ _. p)
  unfolding query Ends note
  Leads-query q e = record {
    ends = λ s at. phase-append idle s.log (asked q) ∙ ap (λ x. next_phase x (asked q)) at ∙ e;
  }

  pub Leads-update : (q : Sql) → Leads R p (update db q) (λ b. next_phase p (did q b))
  unfolding update Ends note
  Leads-update q = record {
    ends = λ s at.
        phase-append idle s.log _ ∙ ap (λ x. next_phase x (did q (db.update (print q) s.db).0)) at;
  }

  pub Leads-query_or_error :
      (q : Sql)
      → next_phase p (asked q) ≡ p
      → R (next_phase p (answered (codes "error")))
      → Leads R p (query_or_error db q) (λ _. p)
  unfolding query_or_error
  Leads-query_or_error q e e' = Leads->>= (λ _. p) (Leads-query q e) rest
    where
      rest :
          (res : Option (List Row))
          → Leads {D = D} {A = List Row} R p
              (elim res [ none ↦ answer_and_return (codes "error") | some rows ↦ λ s. go rows s ])
              (λ _. p)
      rest none = Leads-answer_and_return (codes "error") (λ _. p) e'
      rest (some rows) = Leads-go rows (λ _. p) refl

  pub Leads-update_or_error :
      (q : Sql) (r : Phase)
      → next_phase p (did q true) ≡ r
      → R (next_phase (next_phase p (did q false)) (answered (codes "error")))
      → Leads R p (update_or_error db q) (λ _. r)
  unfolding update_or_error
  Leads-update_or_error q r e e' = Leads->>= _ (Leads-update q) rest
    where
      rest :
          (b : Bool)
          → Leads {D = D} {A = Unit} R
              (next_phase p (did q b))
              (if b then (λ s. go tt s) else answer_and_return (codes "error"))
              (λ _. r)
      rest true = Leads-go tt (λ _. r) (sym e)
      rest false = Leads-answer_and_return (codes "error") (λ _. r) e'

  pub Leads-roll_back :
      {A : Type 0} (m : Text) (Q : A → Phase)
      → ((b : Bool) → R (next_phase (next_phase p (did rollback b)) (answered m)))
      → Leads R p (roll_back db m) Q
  unfolding roll_back
  Leads-roll_back m Q e =
      Leads->>= _ (Leads-update rollback) (λ b. Leads-answer_and_return m Q (e b))
