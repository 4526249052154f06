-- ===== src/Worker/Safety/TimeOut.antt =====
-- `check_time_out_cb`, include/pool.h, as a whole: both loops end and keep the invariant on events.
use proxy_for_distribution_s.Base.{
  ℕ, zero, suc, ◌≤◌, true, false, List, [], ◌∷◌, ◌++◌, some, length, among, among-append, ◌≡◌, refl,
  arith, subst, sym, ap, ◌∙◌, Bool-cases, inl, inr, ◌⊎◌,
}
use proxy_for_distribution_s.EventQueue.{Ring, is_empty, oldest, advance}
use proxy_for_distribution_s.EventQueue.Fifo.{
  IsValid, contents, advance_lem, is_empty_lem, length-contents,
}
use proxy_for_distribution_s.Worker.State.{Worker, ok, died, Death}
use proxy_for_distribution_s.Worker.Timeouts.{retry_front, retry, check_time_out}
use proxy_for_distribution_s.Worker.Invariant.{Inv}
use proxy_for_distribution_s.Worker.Safety.Expiry.{contents_cases, nothing_left, expire_lem}
use proxy_for_distribution_s.Worker.Safety.Retry.{Recent, exits, front_live, retry_turn}

-- How the second loop ends: the queue of requests is empty, or its front was sent recently.
abbrev pub Retried : ℕ → Worker → Type 0
Retried now w =
    (contents w.fin_queue ≡ []) ⊎ ((p : ℕ) × (oldest w.fin_queue ≡ some p) × Recent now w p)

-- The second loop returns in such a state, or the process exits.
abbrev RetryEnds : ℕ → ℕ → Worker → Type 0
RetryEnds fuel now w =
    ((w' : Worker) × (retry fuel now w ≡ ok w') × Inv w' × Retried now w')
    ⊎ ((e : Death) × (retry fuel now w ≡ died e) × (exits e ≡ true))

append_nil : (xs : List ℕ) → xs ++ [] ≡ xs
append_nil [] = refl
append_nil (x ∷ xs) = ap (λ ps. x ∷ ps) (append_nil xs)

append_assoc : (xs ys zs : List ℕ) → xs ++ ys ++ zs ≡ xs ++ (ys ++ zs)
append_assoc [] ys zs = refl
append_assoc (x ∷ xs) ys zs = ap (λ ps. x ∷ ps) (append_assoc xs ys zs)

Recent-stops :
    (now : ℕ) (w : Worker) (p : ℕ)
    → w.live p ≡ true
    → Recent now w p
    → retry_front now p w ≡ ok (w, false)
unfolding retry_front
Recent-stops now w p used r = ground (arith, r.owned_by, r.in_time)

-- Where all that is queued was sent recently, the loop has ended.
all-Recent :
    (now : ℕ) (w : Worker) (ps : List ℕ)
    → Inv w
    → contents w.fin_queue ≡ ps
    → ((q : ℕ) → among q ps ≡ true → Recent now w q)
    → Retried now w
unfolding among
all-Recent now w [] v here recent = inl here
all-Recent now w (p ∷ ps) v here recent =
    let (p', at, front, _, _) = advance_lem w.fin_queue v.fin_valid (λ e. ground arith) in
    inr (p', at, recent p' (ground arith))

-- A turn with `p` at the front; `next` is what the loop does after it.
retry_step :
    (fuel now p : ℕ) (todo sent : List ℕ) (w : Worker)
    → Inv w
    → is_empty w.fin_queue ≡ false
    → oldest w.fin_queue ≡ some p
    → contents w.fin_queue ≡ p ∷ contents (advance w.fin_queue)
    → IsValid (advance w.fin_queue)
    → contents w.fin_queue ≡ todo ++ sent
    → ((q : ℕ) → among q sent ≡ true → Recent now w q)
    → length todo ≤ suc fuel
    → ((todo' sent' : List ℕ) (w' : Worker)
        → Inv w'
        → contents w'.fin_queue ≡ todo' ++ sent'
        → ((q : ℕ) → among q sent' ≡ true → Recent now w' q)
        → length todo' ≤ fuel
        → RetryEnds fuel now w')
    → RetryEnds (suc fuel) now w
unfolding retry among
retry_step fuel now p [] sent w v busy at front valid here recent enough next =
    let r : Recent now w p = recent p (ground arith) in
    let stop = Recent-stops now w p (front_live w p _ v front) r in
    inl (w, ground arith, v, inr (p, at, r))
retry_step fuel now p (t ∷ todo) sent w v busy at front valid here recent enough next =
    let own : t ≡ p = ground arith in
    let rest : todo ++ sent ≡ contents (advance w.fin_queue) = ground arith in
    let front' : contents w.fin_queue ≡ p ∷ todo ++ sent = ground arith in
    elim (retry_turn now w p (todo ++ sent) v front' rest valid) [
      | inr (inl (stop, r)) ↦ inl (w, ground arith, v, inr (p, at, r))
      | inr (inr (e, went, how)) ↦ inr (e, ground arith, how)
      | inl (w', went, t') ↦
          let after : RetryEnds fuel now w' = elim t'.queue [
            | inl gone ↦
                next todo sent w' t'.inv gone (λ q h. t'.recent q (recent q h)) (ground arith)
            | inr (turned, r) ↦
                next todo (sent ++ p ∷ []) w' t'.inv (turned ∙ append_assoc todo sent (p ∷ []))
                  (λ q h. elim (Bool-cases (among q sent)) [
                    | inl before ↦ t'.recent q (recent q before)
                    | inr not_before ↦
                        subst (Recent now w') (ground (arith, among-append q sent (p ∷ []))) r
                  ])
                  (ground arith)
          ] in
          elim after [
            | inl (w'', e, v'', ends) ↦ inl (w'', ground arith, v'', ends)
            | inr (e, died_so, how) ↦ inr (e, ground arith, how)
          ]
    ]

-- What the loop does with fuel for the requests that it has not seen, `todo`, ahead of those that it
-- has sent again, `sent`.
retry_loop :
    (fuel now : ℕ) (todo sent : List ℕ) (w : Worker)
    → Inv w
    → contents w.fin_queue ≡ todo ++ sent
    → ((q : ℕ) → among q sent ≡ true → Recent now w q)
    → length todo ≤ fuel
    → RetryEnds fuel now w
unfolding retry
retry_loop zero now todo sent w v here recent enough = inl (
  w,
  refl,
  v,
  all-Recent now w sent v (here ∙ ap (λ ps. ps ++ sent) (nothing_left todo (omega arith))) recent,
)
retry_loop (suc fuel) now todo sent w v here recent enough =
    elim (contents_cases (contents w.fin_queue)) [
      | inl none_left ↦ inl (w, ground (arith, is_empty_lem v.fin_valid), v, inl none_left)
      | inr some_left ↦
          let (p, at, front, valid, _) = advance_lem w.fin_queue v.fin_valid some_left in
          retry_step fuel now p todo sent w v (ground (arith, is_empty_lem v.fin_valid)) at front
            valid here recent enough (λ todo' sent' w'. retry_loop fuel now todo' sent' w')
    ]

-- The number of queued events is less than the length of the array.
length-slots : (q : Ring) → IsValid q → length (contents q) ≤ length q.slots
length-slots q v = ground (arith, length-contents q)

-- `check_time_out_cb` either returns, with the invariant kept and a queue of requests that is empty or whose front
-- was sent recently, or ends the process because a queue is full or no server is left. It never
-- goes on for ever and never touches a freed event.
pub check_time_out_lem :
    (now : ℕ) (w : Worker)
    → Inv w
    → ((w' : Worker) × (check_time_out now w ≡ ok w') × Inv w' × Retried now w')
      ⊎ ((e : Death) × (check_time_out now w ≡ died e) × (exits e ≡ true))
unfolding check_time_out among
check_time_out_lem now w v =
    let (w', e, v', _, _) =
      expire_lem (length w.msg_queue.slots) now w v (length-slots w.msg_queue v.msg_valid) in
    elim (retry_loop (length w'.fin_queue.slots) now (contents w'.fin_queue) [] w' v'
      (sym (append_nil (contents w'.fin_queue))) (λ q h. absurd (ground arith))
      (length-slots w'.fin_queue v'.fin_valid)) [
        | inl (w'', e', v'', ends) ↦ inl (w'', ground arith, v'', ends)
        | inr (how, e', is_exit) ↦ inr (how, ground arith, is_exit)
      ]
