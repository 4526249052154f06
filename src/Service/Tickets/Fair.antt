-- ===== src/Service/Tickets/Fair.antt =====
-- Runs of `ScrambleView::process` of src/server_service/view.cpp keep a sale fair.
use proxy_for_distribution_s.Base.{
  ℕ, zero, suc, ◌+◌, ◌-◌, ◌==◌, leb, Text, codes, text_eq, text_eq_iff, Bool, true, false,
  if◌then◌else◌, List, [], ◌∷◌, ◌++◌, length, ◌≡◌, ◌≢◌, refl, arith, sym, ap, ◌∙◌, subst, inl, inr,
  length-append, Bool-cases,
}
use proxy_for_distribution_s.Service.Numbers.{ℤ, pos, Fits, ◌+ℤ◌, ◌-ℤ◌}
use proxy_for_distribution_s.Service.Statements.{print, commit, take_one, give_ticket}
use proxy_for_distribution_s.Service.Session.{Db, ◌>>=◌, format, answer, update, roll_back}
use proxy_for_distribution_s.Service.Views.{Request}
use proxy_for_distribution_s.Service.Scramble.{is_zero, give, scramble_process}
use proxy_for_distribution_s.Service.Tickets.{
  Store, Stores, count, taken, given, IsNumbered, IsFair, sale,
}
use proxy_for_distribution_s.Service.Tickets.Runs.{
  Runs, Runs->>=, Runs-if, Runs-format, Runs-answer, Runs-update, Runs-weaken,
}
use proxy_for_distribution_s.Service.Tickets.Opening.{
  Idle, Left, Open, undo-Runs, authenticate-Runs, check_time-Runs, begin-Runs,
}
use proxy_for_distribution_s.Service.Tickets.Sale.{Locked, check_tickets-Runs, lock-Runs}

count-append :
    (name : Text) (ts us : List (Text × ℤ)) → count name (ts ++ us) ≡ count name ts + count name us
unfolding count
count-append name [] us = ground arith
count-append name ((n, z) ∷ ts) us = ground (arith, count-append name ts us)

IsNumbered-snoc :
    (k : ℕ) (ts : List (Text × ℤ)) (name : Text)
    → IsNumbered k ts
    → IsNumbered k (ts ++ (name, pos (k + length ts)) ∷ [])
unfolding IsNumbered
IsNumbered-snoc k [] name h = (ap pos (omega arith), tt)
IsNumbered-snoc k ((n, z) ∷ ts) name (first, others) = (
  first,
  subst (λ i. IsNumbered (k + 1) (ts ++ (name, pos i) ∷ [])) (omega arith)
      (IsNumbered-snoc (k + 1) ts name others),
)

-- The number that the view computes is the next one.
next_number :
    (total remain sold : ℕ)
    → remain ≢ 0
    → sold + remain ≡ total
    → pos total -ℤ pos remain +ℤ pos 1 ≡ pos (sold + 1)
next_number total zero sold some_left e = absurd (some_left refl)
next_number total (suc r) sold some_left e =
    let less : leb (r + 1) total ≡ true = ground arith in
    let same : total - (r + 1) + 1 ≡ sold + 1 = omega arith in rw less (ap pos same)

sale-IsFair :
    (name : Text) (st : Store)
    → IsFair st
    → st.remain ≢ 0
    → count name st.owners ≢ 1
    → IsFair (sale name st)
unfolding count
sale-IsFair name st fair some_left no_ticket = record {
  sold =
      ground (arith, fair.sold, length-append st.owners ((name, pos (length st.owners + 1)) ∷ []));
  small = fair.small;
  numbered =
      subst (λ i. IsNumbered 1 (st.owners ++ (name, pos i) ∷ [])) (omega arith)
        (IsNumbered-snoc 1 st.owners name fair.numbered);
  once = λ other.
      let more = count-append other st.owners ((name, pos (length st.owners + 1)) ∷ []) in
      elim (Bool-cases (text_eq name other)) [
        | inl own ↦
            let its : name ≡ other = (text_eq_iff name other).0 own in
            let none_yet : count other st.owners ≡ 0 =
              subst (λ n. count n st.owners ≡ 0) its (omega (arith, fair.once name)) in
            ground arith
        | inr apart ↦ ground (arith, fair.once other)
      ];
}

module _ {D : Type 0} {db : Db D} {task name : Text} {saved working : D → Store}
    (laws : Stores db task name saved working) (st : Store) where
  -- The ticket is committed, and nothing is pending.
  abbrev SoldAs : ℤ → Text → D → Type 0
  SoldAs z name d = (saved d ≡ given name z (taken st)) × (working d ≡ saved d)

  give-Runs :
      (z : ℤ)
      → Fits z
      → Runs (Open laws st) (give db task name z) (λ _. SoldAs z name) (Left laws st)
  unfolding give
  give-Runs z small =
      Runs->>= (λ _. Open laws st) (Runs-format (take_one task))
        (λ _.
          Runs->>= (Within (taken st))
            (Runs-update db (take_one task) (Within (taken st)) (λ d (at, sees).
              (laws.take_keeps d ∙ at, λ well. laws.take_takes d well ∙ ap taken sees)))
            one_less)
    where
      Within : Store → Bool → D → Type 0
      Within w b d = (saved d ≡ st) × (b ≡ true → working d ≡ w)

      Saved : Bool → D → Type 0
      Saved true d = SoldAs z name d
      Saved false d = saved d ≡ st

      commits :
          (d : D)
          → Within (given name z (taken st)) true d
          → Saved (db.update (print commit) d).0 (db.update (print commit) d).1
      commits d (at, sees) = elim (Bool-cases (db.update (print commit) d).0) [
        | inl well ↦
            let (saves, keeps) = laws.commit_saves d well in
            rw well (saves ∙ sees refl, keeps ∙ sym saves)
        | inr badly ↦ rw badly (laws.commit_fails d badly ∙ at)
      ]

      done :
          (b : Bool)
          → Runs {D = D} {A = Unit}
              (Saved b)
              (if b then answer (codes "success") else roll_back db (codes "error"))
              (λ _. SoldAs z name)
              (Left laws st)
      done true = Runs-answer (codes "success")
      done false = undo-Runs laws st (Saved false) _ _ (λ d at. at)

      ticket :
          (b : Bool)
          → Runs {D = D} {A = Unit}
              (Within (given name z (taken st)) b)
              (if b
                then (do
                  c ← update db commit
                  if c then answer (codes "success") else roll_back db (codes "error"))
                else roll_back db (codes "error"))
              (λ _. SoldAs z name)
              (Left laws st)
      ticket true = Runs->>= Saved (Runs-update db commit Saved commits) done
      ticket false = undo-Runs laws st (Within (given name z (taken st)) false) _ _ (λ d h. h.0)

      one_less :
          (b : Bool)
          → Runs {D = D} {A = Unit}
              (Within (taken st) b)
              (if b
                then (do
                  _ ← format (give_ticket task name z)
                  g ← update db (give_ticket task name z)
                  if g
                      then (do
                        c ← update db commit
                        if c then answer (codes "success") else roll_back db (codes "error"))
                      else roll_back db (codes "error"))
                else roll_back db (codes "error"))
              (λ _. SoldAs z name)
              (Left laws st)
      one_less true =
          Runs->>= (λ _. Within (taken st) true) (Runs-format (give_ticket task name z))
            (λ _.
              Runs->>= (Within (given name z (taken st)))
                (Runs-update db (give_ticket task name z) (Within (given name z (taken st)))
                  (λ d (at, sees). (
                    laws.give_keeps z d ∙ at,
                    λ well. laws.give_gives z d small well ∙ ap (given name z) (sees refl),
                  )))
                ticket)
      one_less false = undo-Runs laws st (Within (taken st) false) _ _ (λ d h. h.0)

module _ {D : Type 0} {db : Db D} {saved working : D → Store} (r : Request)
    (laws : Stores db r.task r.name saved working) where
  unfoldable pub Sold : Store → D → Type 0
  Sold st d = (saved d ≡ sale r.name st) × (working d ≡ saved d) × IsFair (saved d)

  pub scramble-Runs :
      (now : Text) (st : Store)
      → IsFair st
      → Runs (Idle laws st) (scramble_process db now r) (λ _. Sold st) (Left laws st)
  unfolding scramble_process Sold
  scramble-Runs now st fair =
      Runs->>= (λ _. Idle laws st) (authenticate-Runs laws st r.name r.password)
        (λ _.
          Runs->>= (λ _. Idle laws st) (check_time-Runs laws st now)
            (λ _.
              Runs->>= (λ _. Open laws st) (begin-Runs laws st)
                (λ _. Runs->>= _ (check_tickets-Runs laws st) (λ _. record {
                  on = λ s (at, none_yet).
                      (Runs->>= (Locked laws st) (lock-Runs laws st fair)
                          (λ (total, remain). sells none_yet total remain)).on
                        s at;
                }))))
    where
      sold_now :
          count r.name st.owners ≢ 1
          → (total remain : ℤ) → total ≡ pos st.total
          → remain ≡ pos st.remain
          → is_zero remain ≡ false
          → Runs {D = D} {A = Unit}
              (Open laws st)
              (give db r.task r.name (total -ℤ remain +ℤ pos 1))
              (λ _. Sold st)
              (Left laws st)
      sold_now none_yet total remain t m some_left =
          let left : st.remain ≢ 0 =
            let some_left' : (st.remain == 0) ≡ false =
              subst (λ z. is_zero z ≡ false) m some_left in
            ground arith in
          let next : total -ℤ remain +ℤ pos 1 ≡ pos (length st.owners + 1) =
            rw (t, m) (next_number st.total st.remain (length st.owners) left fair.sold) in
          let after = sale-IsFair r.name st fair left none_yet in
          rw next (
            Runs-weaken
              (give-Runs laws st (pos (length st.owners + 1))
                (omega (arith, fair.sold, fair.small)))
              (λ _ d (e, same). (e, same, subst IsFair (sym e) after)))

      sells :
          count r.name st.owners ≢ 1
          → (total remain : ℤ)
          → Runs {D = D} {A = Unit}
              (Locked laws st (total, remain))
              (if is_zero remain
                then roll_back db (codes "no ticket")
                else give db r.task r.name (total -ℤ remain +ℤ pos 1))
              (λ _. Sold st)
              (Left laws st)
      sells none_yet total remain =
          Runs-if (is_zero remain) _
            (λ _. undo-Runs laws st (Locked laws st (total, remain)) _ _ (λ d h. h.0.0))
            (λ some_left. record {
              on = λ s (at, t, m). (sold_now none_yet total remain t m some_left).on s at;
            })
