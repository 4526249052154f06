-- ===== src/Log/Queue/Order.antt =====
-- The lines that threads put into a queue come out in their order, src/log/blocking_queue.cc.
mod Tests
use proxy_for_distribution_s.Base.{
  ℕ, ◌+◌, ◌≤◌, ltb, Text, Bool, true, false, if◌then◌else◌, List, [], ◌∷◌, ◌++◌, Option, none, some,
  length, length-append, append_assoc, ◌≡◌, refl, arith, ap, sym, ◌∙◌, subst, Bool-cases, inl, inr,
  ◌⊎◌,
}
use proxy_for_distribution_s.Log.Queue.{
  BlockingQueue, new_queue, emplace, Popped, waits, closed, popped, pop,
}

-- From a queue with nothing in it: the queue that is reached, what was put in and what was taken out.
pub data Run (n : ℕ) : BlockingQueue → List Text → List Text → Type 0 where
  starts : Run n (new_queue n) [] []
  puts :
      {q q' : BlockingQueue} {put got : List Text} (item : Text)
      → Run n q put got
      → emplace item q ≡ some q'
      → Run n q' (put ++ item ∷ []) got
  takes :
      {q q' : BlockingQueue} {put got : List Text} (item : Text) (woken : Bool)
      → Run n q put got
      → pop woken q ≡ popped item q'
      → Run n q' put (got ++ item ∷ [])

pub record InOrder (n : ℕ) (q : BlockingQueue) (put got : List Text) : Type 0 where
  pub order : put ≡ got ++ q.m_deq_
  pub limit : q.m_capacity_ ≡ n
  pub room : length q.m_deq_ ≤ n

text_assoc : (xs ys zs : List Text) → xs ++ ys ++ zs ≡ xs ++ (ys ++ zs)
text_assoc [] ys zs = refl
text_assoc (x ∷ xs) ys zs = ap (λ ts. x ∷ ts) (text_assoc xs ys zs)

emplace-InOrder :
    (n : ℕ) (q q' : BlockingQueue) (put got : List Text) (item : Text)
    → InOrder n q put got
    → emplace item q ≡ some q'
    → InOrder n q' (put ++ item ∷ []) got
unfolding emplace
emplace-InOrder n q q' put got item o e = elim (Bool-cases (ltb (length q.m_deq_) q.m_capacity_)) [
  | inr full ↦ absurd (ground arith)
  | inl fits ↦
      let after : BlockingQueue = record q { m_deq_ = q.m_deq_ ++ item ∷ [] } in
      let same : after ≡ q' = ground arith in
      subst (λ x. InOrder n x (put ++ item ∷ []) got) same
        (record {
          order = ap (λ ts. ts ++ item ∷ []) o.order ∙ text_assoc got q.m_deq_ (item ∷ []);
          limit = o.limit;
          room = ground (arith, length-append q.m_deq_ (item ∷ []), o.limit);
        })
]

deq_cases : (ts : List Text) → (ts ≡ []) ⊎ ((t : Text) × (us : List Text) × (ts ≡ t ∷ us))
deq_cases [] = inl refl
deq_cases (t ∷ us) = inr (t, us, refl)

pop-InOrder :
    (n : ℕ) (q q' : BlockingQueue) (put got : List Text) (item : Text) (woken : Bool)
    → InOrder n q put got
    → pop woken q ≡ popped item q'
    → InOrder n q' put (got ++ item ∷ [])
unfolding pop
pop-InOrder n q q' put got item woken o e = elim (deq_cases q.m_deq_) [
  | inl empty ↦ absurd (ground arith)
  | inr (t, rest, front) ↦
      let after : BlockingQueue = record q { m_deq_ = rest } in
      let both : (t ≡ item) × (after ≡ q') = ground arith in
      subst (λ x. InOrder n x put (got ++ item ∷ [])) both.1
        (subst (λ x. InOrder n after put (got ++ x ∷ [])) both.0
          (record {
            order = o.order ∙ ap (λ ts. got ++ ts) front ∙ sym (text_assoc got (t ∷ []) rest);
            limit = o.limit;
            room = omega (arith, o.room, ap length front);
          }))
]

-- As long as nobody clears it, what was put into a queue is what was taken out, in that order, with
-- what is still in it behind; and it never holds more than its capacity.
pub Run-InOrder :
    {n : ℕ} {q : BlockingQueue} {put got : List Text} → Run n q put got → InOrder n q put got
Run-InOrder starts = record { order = refl; limit = refl; room = omega arith }
Run-InOrder {n} {q = q'} (puts {q} {put = put} {got} item run e) =
    emplace-InOrder n q q' put got item (Run-InOrder run) e
Run-InOrder {n} {q = q'} (takes {q} {put = put} {got} item woken run e) =
    pop-InOrder n q q' put got item woken (Run-InOrder run) e
