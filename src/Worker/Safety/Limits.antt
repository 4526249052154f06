-- ===== src/Worker/Safety/Limits.antt =====
-- The limit on requests, and clients that leave, include/pool.h, keep the invariant on events.
use mathlib.Core.Option
use proxy_for_distribution_s.Base.{
  ℕ, ◌+◌, ◌≤◌, Bool, true, false, ◌||◌, List, [], ◌∷◌, some, find, erase, find-erase, ◌≡◌, refl,
  arith, subst, ◌⊎◌, ltb, Bool-cases, Option-cases, inl, inr,
}
use proxy_for_distribution_s.Worker.State.{
  Client, Worker, ok, died, emit, Effect, accuse, close_bev, stale_iterator,
}
use proxy_for_distribution_s.Worker.Clients.{
  client_event, current_limit, with_client, empty_count, reset_counts,
}
use proxy_for_distribution_s.Worker.Invariant.{HeldIn, Inv, put_all, Safe}

-- A client that is written back keeps the invariant, if its pointers do.
pub with_client-Inv :
    (w : Worker) (c : ℕ) (cl : Client) → Inv w → HeldIn w c cl → Inv (with_client c cl w)
with_client-Inv w c cl v h = record {
  msg_valid = v.msg_valid;
  fin_valid = v.fin_valid;
  owned = v.owned;
  clients = put_all (HeldIn w) c cl w.client_map h (λ b cl' _ e. v.clients b cl' e);
}

-- Counters and flags are no pointers.
pub same_pointers :
    (w : Worker) {c : ℕ} {cl : Client} (cl' : Client)
    → cl'.cli_event_map ≡ cl.cli_event_map
    → cl.pack_id ≤ cl'.pack_id
    → HeldIn w c cl
    → HeldIn w c cl'
same_pointers w cl' same le h = record {
  known = h.known;
  slot = h.slot;
  slot_at = rw same h.slot_at;
  slot_in = h.slot_in;
  slot_usr = h.slot_usr;
  slot_open = h.slot_open;
  asked = λ k p e.
      let (here, usr, unanswered, low) = h.asked k p (ground arith) in
      (here, usr, unanswered, omega arith);
  apart = λ i k p e e'. h.apart i k p (ground arith) (ground arith);
}

pub erase-Inv : (w : Worker) (c : ℕ) → Inv w → Inv (record w { client_map = erase c w.client_map })
erase-Inv w c v = record {
  msg_valid = v.msg_valid;
  fin_valid = v.fin_valid;
  owned = v.owned;
  clients = λ b cl e. v.clients b cl (ground (arith, find-erase b c w.client_map));
}

pub emit-Inv : (w : Worker) (e : Effect) → Inv w → Inv (emit e w)
emit-Inv w e v = record {
  msg_valid = v.msg_valid;
  fin_valid = v.fin_valid;
  owned = v.owned;
  clients = v.clients;
}

-- A client that leaves keeps the invariant: its events stay in the queues until their turn comes.
pub client_event-Inv : (w : Worker) (bev c : ℕ) → Inv w → Inv (client_event bev c w)
unfolding client_event
client_event-Inv w bev c v = emit-Inv _ (close_bev bev) (erase-Inv w c v)

-- The limit lets a request pass, or closes the client to further ones.
pub current_limit_cases :
    (w : Worker) (c : ℕ) (cl : Client)
    → find c w.client_map ≡ some cl
    → ((cl' : Client) × (w' : Worker) × (passed : Bool) × (current_limit c w ≡ ok (w', passed))
        × (cl'.cli_event_map ≡ cl.cli_event_map)
        × (cl'.pack_id ≡ cl.pack_id)
        × ((w' ≡ with_client c cl' w)
            ⊎ ((passed ≡ false) × (w' ≡ emit (accuse cl.ip) (with_client c cl' w)))))
unfolding current_limit
current_limit_cases w c cl e =
    let counted : Client = record cl { count = cl.count + 1 } in
    elim (Bool-cases (ltb cl.count 10)) [
      | inl few ↦ (counted, with_client c counted w, true, ground arith, refl, refl, inl refl)
      | inr many ↦
          let shut : Client = record counted { close_flag = true } in
          (
            shut,
            emit (accuse cl.ip) (with_client c shut w),
            false,
            ground arith,
            refl,
            refl,
            inr (refl, refl),
          )
    ]

pub current_limit-Inv :
    (w w' : Worker) (c : ℕ) (cl cl' : Client)
    → Inv w
    → find c w.client_map ≡ some cl
    → cl'.cli_event_map ≡ cl.cli_event_map
    → cl'.pack_id ≡ cl.pack_id
    → (w' ≡ with_client c cl' w) ⊎ (w' ≡ emit (accuse cl.ip) (with_client c cl' w))
    → Inv w'
current_limit-Inv w w' c cl cl' v e same packs h =
    let kept =
      with_client-Inv w c cl' v (same_pointers w cl' same (omega arith) (v.clients c cl e)) in
    elim h [
      | inl now ↦ rw now kept
      | inr now ↦ rw now (emit-Inv (with_client c cl' w) (accuse cl.ip) kept)
    ]

-- Whether some client is to be closed.
abbrev pub some_closing : List (ℕ × Client) → Bool
some_closing [] = false
some_closing ((c, cl) ∷ m) = cl.close_flag || some_closing m

abbrev pub zero_count : Client → Client
zero_count cl = record cl { count = 0 }

-- The loop of `empty_count_cb` steps an iterator that is no longer valid as soon as a client is
-- to be closed; if none is, it sets the counters to 0 and changes nothing else.
pub reset_counts_lem :
    (m : List (ℕ × Client))
    → ((some_closing m ≡ true) × (reset_counts m ≡ died stale_iterator))
      ⊎ ((m' : List (ℕ × Client)) × (some_closing m ≡ false)
          × (reset_counts m ≡ ok m')
          × ((c : ℕ) → find c m' ≡ Option.map zero_count (find c m)))
unfolding reset_counts find
reset_counts_lem [] = inr ([], refl, refl, λ c. refl)
reset_counts_lem ((i, cl) ∷ m) = elim (Bool-cases cl.close_flag) [
  | inl shut ↦ inl (ground arith, ground arith)
  | inr stays ↦ elim (reset_counts_lem m) [
    | inl (some_one, e) ↦ inl (ground arith, ground arith)
    | inr (m', no_one, e, finds) ↦
        inr ((i, zero_count cl) ∷ m', ground arith, ground arith, λ c. ground (arith, finds c))
  ]
]

-- The reset of the counters keeps the invariant, or runs into the stale iterator.
pub empty_count-Safe : (w : Worker) → Inv w → Safe Inv (empty_count w)
unfolding empty_count
empty_count-Safe w v = elim (reset_counts_lem w.client_map) [
  | inl (_, e) ↦ rw (e, Safe, empty_count) tt
  | inr (m', _, e, finds) ↦
      rw (e, Safe, empty_count)
        (record {
          msg_valid = v.msg_valid;
          fin_valid = v.fin_valid;
          owned = v.owned;
          clients = λ c cl' at. elim (Option-cases (find c w.client_map)) [
            | inl gone ↦ absurd (ground (arith, finds c))
            | inr (cl, was) ↦
                subst (HeldIn w c) (ground (arith, finds c))
                  (same_pointers w (zero_count cl) refl (omega arith) (v.clients c cl was))
          ];
        })
]
