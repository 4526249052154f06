-- ===== src/Worker/Safety/Expiry.antt =====
-- The first loop of `check_time_out_cb`, include/pool.h: it ends, and keeps the invariant on events.
use proxy_for_distribution_s.Base.{
  ℕ, zero, suc, ◌-◌, ◌≤◌, ltb, true, false, List, [], ◌∷◌, ◌++◌, some, length, find, erase,
  find-erase, among, ◌≡◌, ◌≢◌, refl, arith, subst, sym, ◌∙◌, Bool-cases, Option-cases, inl, inr,
  ◌⊎◌,
}
use proxy_for_distribution_s.EventQueue.{is_empty, oldest, advance}
use proxy_for_distribution_s.EventQueue.Fifo.{IsValid, contents, advance_lem, is_empty_lem}
use proxy_for_distribution_s.Worker.State.{Client, Worker, Effect, close_bev, set_at, ok}
use proxy_for_distribution_s.Worker.Timeouts.{expire_front, expire, msg_timeout}
use proxy_for_distribution_s.Worker.Invariant.{Owned, Inv, Held-frame, free_msg}

-- The worker once the event at the front of the queue of time limits was freed.
dropped : Worker → ℕ → List (ℕ × Client) → List Effect → Worker
dropped w p m es = record w {
  client_map = m;
  live = set_at w.live p false;
  msg_queue = advance w.msg_queue;
  effects = es;
}

-- The front of the queue can be freed, if its client is no longer in the map or has sent a packet.
dropped-Inv :
    (w : Worker) (p : ℕ) (m : List (ℕ × Client)) (es : List Effect)
    → Inv w
    → contents w.msg_queue ≡ p ∷ contents (advance w.msg_queue)
    → IsValid (advance w.msg_queue)
    → ((c : ℕ) (cl : Client)
        → find c m ≡ some cl
        → (find c w.client_map ≡ some cl)
          × (((w.heap p).usr_uuid ≡ c) → (w.heap p).msg_flag ≡ true))
    → Inv (dropped w p m es)
unfolding dropped among
dropped-Inv w p m es v front valid others = record {
  msg_valid = valid;
  fin_valid = v.fin_valid;
  owned = free_msg p (subst (λ ps. Owned w.live ps (contents w.fin_queue)) front v.owned);
  clients = λ c cl at.
      let (was, used) = others c cl at in
      Held-frame {heap = w.heap} {msgs = contents w.msg_queue} {fins = contents w.fin_queue} _ _ _ _
        (omega arith)
        (λ q in_msgs usr unused.
          let split : among q (p ∷ contents (advance w.msg_queue)) ≡ true =
            subst (λ ps. among q ps ≡ true) front in_msgs in
          let apart : q ≢ p = λ same. ground (arith, used) in (ground arith, refl))
        (λ q in_fins _ _. (in_fins, refl)) (v.clients c cl was);
}

-- Why a turn stops the loop: the front belongs to a client and is young enough.
pub record Young (now : ℕ) (w : Worker) (p : ℕ) : Type 0 where
  pub owner : Client
  pub owned_by : find (w.heap p).usr_uuid w.client_map ≡ some owner
  pub in_time : now - (w.heap p).arr_time ≤ msg_timeout

front_live :
    (w : Worker) (p : ℕ) (ps : List ℕ) → Inv w → contents w.msg_queue ≡ p ∷ ps → w.live p ≡ true
unfolding among
front_live w p ps v front =
    let there : among p (contents w.msg_queue) ≡ true =
      subst (λ qs. among p qs ≡ true) (sym front) (ground arith) in
    ground (arith, v.owned.exact p)

-- A turn frees the front, or stops the loop.
expire_turn :
    (now : ℕ) (w : Worker) (p : ℕ)
    → Inv w
    → contents w.msg_queue ≡ p ∷ contents (advance w.msg_queue)
    → IsValid (advance w.msg_queue)
    → ((w' : Worker) × (expire_front now p w ≡ ok (w', true))
        × Inv w'
        × (w'.msg_queue ≡ advance w.msg_queue)
        × (w'.fin_queue ≡ w.fin_queue))
      ⊎ ((expire_front now p w ≡ ok (w, false)) × Young now w p)
unfolding expire_front dropped
expire_turn now w p v front valid =
    let e = w.heap p in
    let used = front_live w p _ v front in
    elim (Option-cases (find e.usr_uuid w.client_map)) [
      | inl gone ↦ inl (
        dropped w p w.client_map w.effects,
        ground arith,
        dropped-Inv w p w.client_map w.effects v front valid
            (λ c cl at. (at, λ own. absurd (ground arith))),
        refl,
        refl,
      )
      | inr (cl, at) ↦ elim (Bool-cases (ltb msg_timeout (now - e.arr_time))) [
        | inr young ↦
            inr (ground arith, record { owner = cl; owned_by = at; in_time = ground arith })
        | inl late ↦ elim (Bool-cases e.msg_flag) [
          | inl active ↦ inl (
            dropped w p w.client_map w.effects,
            ground arith,
            dropped-Inv w p w.client_map w.effects v front valid
                (λ c cl' at'. (at', λ own. active)),
            refl,
            refl,
          )
          | inr idle ↦ inl (
            dropped w p (erase e.usr_uuid w.client_map) (w.effects ++ close_bev e.bev ∷ []),
            ground arith,
            dropped-Inv w p (erase e.usr_uuid w.client_map) (w.effects ++ close_bev e.bev ∷ []) v
                front valid (λ c cl' at'. ground (arith, find-erase c e.usr_uuid w.client_map)),
            refl,
            refl,
          )
        ]
      ]
    ]

pub nothing_left : (ps : List ℕ) → length ps ≡ 0 → ps ≡ []
nothing_left [] e = refl
nothing_left (p ∷ ps) e = absurd (omega arith)

pub contents_cases : (ps : List ℕ) → (ps ≡ []) ⊎ (ps ≢ [])
contents_cases [] = inl refl
contents_cases (p ∷ ps) = inr (λ e. ground arith)

-- How the first loop ends: the queue of time limits is empty, or its front is young.
abbrev pub Expired : ℕ → Worker → Type 0
Expired now w =
    (contents w.msg_queue ≡ []) ⊎ ((p : ℕ) × (oldest w.msg_queue ≡ some p) × Young now w p)

-- With as much fuel as the queue of time limits is long, the first loop returns, keeps the invariant and leaves the
-- queue of requests alone, and what it leaves is empty or has a young front.
pub expire_lem :
    (fuel now : ℕ) (w : Worker)
    → Inv w
    → length (contents w.msg_queue) ≤ fuel
    → (w' : Worker) × (expire fuel now w ≡ ok w')
      × Inv w'
      × Expired now w'
      × (w'.fin_queue ≡ w.fin_queue)
unfolding expire
expire_lem zero now w v enough = (w, refl, v, inl (nothing_left _ (omega arith)), refl)
expire_lem (suc fuel) now w v enough = elim (contents_cases (contents w.msg_queue)) [
  | inl none_left ↦ (w, ground (arith, is_empty_lem v.msg_valid), v, inl none_left, refl)
  | inr some_left ↦
      let (p, at, front, valid, _) = advance_lem w.msg_queue v.msg_valid some_left in
      let busy : is_empty w.msg_queue ≡ false = ground (arith, is_empty_lem v.msg_valid) in
      elim (expire_turn now w p v front valid) [
        | inr (e, young) ↦ (w, ground arith, v, inr (p, at, young), refl)
        | inl (w', e, v', left, fins) ↦
            let fewer : length (contents w'.msg_queue) ≤ fuel = ground arith in
            let (w'', e', v'', ends, fins') = expire_lem fuel now w' v' fewer in
            (w'', ground arith, v'', ends, fins' ∙ fins)
      ]
]
