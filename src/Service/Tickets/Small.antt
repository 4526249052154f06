-- ===== src/Service/Tickets/Small.antt =====
-- A small database for the tests: one task, "x", and one user, "u", whose first ticket can be given.
use proxy_for_distribution_s.Base.{
  Text, codes, text_eq, text_eq_iff, Bool, true, false, if◌then◌else◌, List, [], ◌∷◌, ◌++◌, Option,
  some, length, length-append, ◌≡◌, refl, arith, ap, sym, ◌∙◌, Bool-cases, inl, inr, replicate,
  length-replicate,
}
use proxy_for_distribution_s.Service.Numbers.{
  ℤ, pos, Fits, print_int, stoi, stoi-print_int, print_digits,
}
use proxy_for_distribution_s.Service.Statements.{
  print, begin, commit, rollback, tickets, lock_task, take_one, give_ticket,
}
use proxy_for_distribution_s.Service.Session.{Row, Db}
use proxy_for_distribution_s.Service.Tickets.{Store, Stores, Obeys, count, taken, given}

pub record Memory : Type 0 where
  pub saved : Store
  pub working : Store

abbrev pub x : Text
x = codes "x"

abbrev pub u : Text
u = codes "u"

abbrev row_of : Store → Row
row_of st = x ∷ [] ∷ print_int (pos st.total) ∷ print_int (pos st.remain) ∷ []

abbrev some_row : Row
some_row = codes "2021" ∷ []

unfoldable pub small_query : Text → Memory → Option (List Row) × Memory
unfolding count
small_query t m =
    if text_eq t (print (tickets x u))
    then (some (replicate (count u m.working.owners) some_row), m)
    else if text_eq t (print (lock_task x))
    then (some (row_of m.working ∷ []), m)
    else (some (some_row ∷ []), m)

unfoldable pub small_update : Text → Memory → Bool × Memory
small_update t m =
    if text_eq t (print begin)
    then (true, record m { saved = m.working })
    else if text_eq t (print commit)
    then (true, record m { saved = m.working })
    else if text_eq t (print rollback)
    then (true, record m { working = m.saved })
    else if text_eq t (print (take_one x))
    then (true, record m { working = taken m.working })
    else if text_eq t (print (give_ticket x u (pos 1)))
    then (true, record m { working = given u (pos 1) m.working })
    else (false, m)

abbrev pub small : Db Memory
small = record { query = small_query; update = small_update }

one_byte : (t : Text) → t ++ 41 ∷ 59 ∷ [] ≡ 49 ∷ 41 ∷ 59 ∷ [] → t ≡ 49 ∷ []
one_byte [] e = absurd (cc)
one_byte (c ∷ []) e = cc
one_byte (c ∷ d ∷ cs) e = absurd (omega (arith, ap length e, length-append cs (41 ∷ 59 ∷ [])))

first_ticket :
    (z : ℤ)
    → Fits z
    → text_eq (print (give_ticket x u z)) (print (give_ticket x u (pos 1))) ≡ true
    → z ≡ pos 1
unfolding print text_eq print_int print_digits
first_ticket z small e =
    let same : print_int z ≡ print_int (pos 1) =
      one_byte (print_int z)
        ((text_eq_iff (print_int z ++ 41 ∷ 59 ∷ []) (49 ∷ 41 ∷ 59 ∷ [])).0 e) in
    let both : some z ≡ some (pos 1) =
      sym (stoi-print_int z small) ∙ ap stoi same ∙ stoi-print_int (pos 1) (omega arith) in
    cc

some_inj_length : (ys xs : List Row) → some xs ≡ some ys → length ys ≡ length xs
some_inj_length ys xs e = let same : xs ≡ ys = cc in sym (ap length same)

pub small-Stores : Stores small x u (λ m. m.saved) (λ m. m.working)
unfolding small_query small_update print text_eq
small-Stores = record {
  query_keeps = λ q m. ground arith;
  tickets_reads =
      λ rows m e. some_inj_length rows _ e ∙ length-replicate (count u m.working.owners) some_row;
  lock_reads = λ rows m before locks e. (row_of m.working, ground arith, refl, refl);
  begin_commits = λ m e. (refl, refl);
  begin_refused = λ m e. absurd (cc);
  take_takes = λ m e. refl;
  give_gives = λ z m fits e.
      elim (Bool-cases (text_eq (print (give_ticket x u z)) (print (give_ticket x u (pos 1))))) [
        | inl first ↦ rw (first_ticket z fits first) refl
        | inr other ↦ absurd (ground arith)
      ];
  commit_saves = λ m e. (refl, refl);
  commit_fails = λ m e. absurd (cc);
  rollback_undoes = λ m e. refl;
  rollback_keeps = λ m. refl;
  take_keeps = λ m. refl;
  give_keeps = λ z m. ground arith;
}

pub small-Obeys : Obeys small
unfolding small_update print text_eq
small-Obeys m = refl
