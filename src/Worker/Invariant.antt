-- ===== src/Worker/Invariant.antt =====
-- What holds of a worker's events between two callbacks, include/pool.h: every block that is
-- allocated is in exactly one of the two queues, once, and the pointers of every client lead
-- to blocks in the queues.
use proxy_for_distribution_s.Base.{
  ℕ, suc, ◌≤◌, ◌<◌, ◌==◌, Bool, true, false, ◌&&◌, ◌||◌, List, [], ◌∷◌, ◌++◌, some, find, put,
  find-put, among, among-append, IsUnique, ◌≡◌, ◌≢◌, arith, subst, Bool-cases, inl, inr,
}
use proxy_for_distribution_s.EventQueue.Fifo.{IsValid, contents}
use proxy_for_distribution_s.Worker.State.{
  CliEvent, Client, Worker, set_at, Result, ok, died, queue_full, no_server, overflow,
  stale_iterator, uncaught,
}

-- The pointers of client `c`: entry 0 is an event in the queue of time limits that was not used up,
-- and an entry for a packet is an unanswered event in the queue of requests.
pub record Held (heap : ℕ → CliEvent) (msgs fins : List ℕ) (next c : ℕ) (cl : Client) : Type 0 where
  pub known : c < next
  pub slot : ℕ
  pub slot_at : find 0 cl.cli_event_map ≡ some slot
  pub slot_in : among slot msgs ≡ true
  pub slot_usr : (heap slot).usr_uuid ≡ c
  pub slot_open : (heap slot).msg_flag ≡ false
  pub asked :
      (k p : ℕ)
      → find (suc k) cl.cli_event_map ≡ some p
      → (among p fins ≡ true)
        × ((heap p).usr_uuid ≡ c)
        × ((heap p).finish_flag ≡ false)
        × (suc k ≤ cl.pack_id)
  pub apart :
      (i k p : ℕ)
      → find (suc i) cl.cli_event_map ≡ some p
      → find (suc k) cl.cli_event_map ≡ some p
      → i ≡ k

-- Which blocks are allocated: those in the queues, each of which is there once.
pub record Owned (live : ℕ → Bool) (msgs fins : List ℕ) : Type 0 where
  pub exact : (p : ℕ) → live p ≡ (among p msgs || among p fins)
  pub msgs_unique : IsUnique msgs
  pub fins_unique : IsUnique fins
  pub disjoint : (p : ℕ) → (among p msgs && among p fins) ≡ false

abbrev pub HeldIn : Worker → ℕ → Client → Type 0
HeldIn w c cl = Held w.heap (contents w.msg_queue) (contents w.fin_queue) w.client_id c cl

pub record Inv (w : Worker) : Type 0 where
  pub msg_valid : IsValid w.msg_queue
  pub fin_valid : IsValid w.fin_queue
  pub owned : Owned w.live (contents w.msg_queue) (contents w.fin_queue)
  pub clients : (c : ℕ) (cl : Client) → find c w.client_map ≡ some cl → HeldIn w c cl

-- A callback keeps the invariant, or the process ends in a way that has nothing to do with memory
-- that was freed or was never allocated.
abbrev pub Safe {ℓ} : {A : Type ℓ} → (A → Type 0) → Result A → Type 0
Safe P (ok a) = P a
Safe P (died queue_full) = Unit
Safe P (died no_server) = Unit
Safe P (died overflow) = Unit
Safe P (died stale_iterator) = Unit
Safe P (died uncaught) = Unit
Safe P (died _) = ⊥

-- There is a result, and `P` holds of it.
abbrev pub Kept {ℓ} : {A : Type ℓ} → (A → Type 0) → Result A → Type 0
Kept P (ok a) = P a
Kept P (died e) = ⊥

pub Kept-Safe {ℓ} : {A : Type ℓ} (P : A → Type 0) (r : Result A) → Kept P r → Safe P r
Kept-Safe P (ok a) h = h
Kept-Safe P (died e) h = absurd h

-- A client keeps its pointers where the events that they may lead to stay queued and as they were.
pub Held-frame :
    {heap : ℕ → CliEvent} {msgs fins : List ℕ} {next c : ℕ} {cl : Client} (heap' : ℕ → CliEvent)
    (msgs' fins' : List ℕ) (next' : ℕ)
    → next ≤ next'
    → ((q : ℕ)
        → among q msgs ≡ true
        → (heap q).usr_uuid ≡ c
        → (heap q).msg_flag ≡ false
        → (among q msgs' ≡ true) × (heap' q ≡ heap q))
    → ((q : ℕ)
        → among q fins ≡ true
        → (heap q).usr_uuid ≡ c
        → (heap q).finish_flag ≡ false
        → (among q fins' ≡ true) × (heap' q ≡ heap q))
    → Held heap msgs fins next c cl
    → Held heap' msgs' fins' next' c cl
Held-frame heap' msgs' fins' next' le mk fk h =
    let (stays, same) = mk h.slot h.slot_in h.slot_usr h.slot_open in
    record {
      known = omega (arith, h.known);
      slot = h.slot;
      slot_at = h.slot_at;
      slot_in = stays;
      slot_usr = rw same h.slot_usr;
      slot_open = rw same h.slot_open;
      asked = λ k p e.
          let (there, usr, unanswered, low) = h.asked k p e in
          let (stays', same') = fk p there usr unanswered in
          (stays', rw same' usr, rw same' unanswered, low);
      apart = h.apart;
    }

pub IsUnique-snoc :
    (p : ℕ) (ps : List ℕ) → IsUnique ps → among p ps ≡ false → IsUnique (ps ++ p ∷ [])
unfolding among
IsUnique-snoc p [] u h = ground arith
IsUnique-snoc p (x ∷ xs) u h = ground (arith, IsUnique-snoc p xs, among-append x xs (p ∷ []))

module _ {live : ℕ → Bool} {msgs fins : List ℕ} (o : Owned live msgs fins) where
  -- A block that is not allocated is in no queue.
  pub free_lem : (p : ℕ) → live p ≡ false → (among p msgs ≡ false) × (among p fins ≡ false)
  free_lem p h = ground (arith, o.exact p)

  pub claim_msg : (p : ℕ) → live p ≡ false → Owned (set_at live p true) (msgs ++ p ∷ []) fins
  unfolding among
  claim_msg p h =
      let (no_msg, no_fin) = free_lem p h in
      record {
        exact = λ q. ground (arith, o.exact q, among-append q msgs (p ∷ []));
        msgs_unique = IsUnique-snoc p msgs o.msgs_unique no_msg;
        fins_unique = o.fins_unique;
        disjoint = λ q. ground (arith, o.disjoint q, among-append q msgs (p ∷ []));
      }

  pub claim_fin : (p : ℕ) → live p ≡ false → Owned (set_at live p true) msgs (fins ++ p ∷ [])
  unfolding among
  claim_fin p h =
      let (no_msg, no_fin) = free_lem p h in
      record {
        exact = λ q. ground (arith, o.exact q, among-append q fins (p ∷ []));
        msgs_unique = o.msgs_unique;
        fins_unique = IsUnique-snoc p fins o.fins_unique no_fin;
        disjoint = λ q. ground (arith, o.disjoint q, among-append q fins (p ∷ []));
      }

pub free_msg :
    {live : ℕ → Bool} {msgs fins : List ℕ} (p : ℕ)
    → Owned live (p ∷ msgs) fins
    → Owned (set_at live p false) msgs fins
unfolding among
free_msg p o = record {
  exact = λ q. ground (arith, o.exact q, o.disjoint q, o.msgs_unique);
  msgs_unique = o.msgs_unique.1;
  fins_unique = o.fins_unique;
  disjoint = λ q. ground (arith, o.disjoint q);
}

pub free_fin :
    {live : ℕ → Bool} {msgs fins : List ℕ} (p : ℕ)
    → Owned live msgs (p ∷ fins)
    → Owned (set_at live p false) msgs fins
unfolding among
free_fin p o = record {
  exact = λ q. ground (arith, o.exact q, o.disjoint q, o.fins_unique);
  msgs_unique = o.msgs_unique;
  fins_unique = o.fins_unique.1;
  disjoint = λ q. ground (arith, o.disjoint q);
}

-- The event at the front of the requests goes to their back.
pub requeue_fin :
    {live : ℕ → Bool} {msgs fins : List ℕ} (p : ℕ)
    → Owned live msgs (p ∷ fins)
    → Owned live msgs (fins ++ p ∷ [])
unfolding among
requeue_fin {fins = fins} p o = record {
  exact = λ q. ground (arith, o.exact q, among-append q fins (p ∷ []));
  msgs_unique = o.msgs_unique;
  fins_unique = IsUnique-snoc p fins o.fins_unique.1 o.fins_unique.0;
  disjoint = λ q. ground (arith, o.disjoint q, among-append q fins (p ∷ []));
}

-- What holds of every client of a map holds of every client after one entry was written.
pub put_all :
    (P : ℕ → Client → Type 0) (c : ℕ) (cl : Client) (m : List (ℕ × Client))
    → P c cl
    → ((b : ℕ) (cl' : Client) → c ≢ b → find b m ≡ some cl' → P b cl')
    → (b : ℕ) (cl' : Client) → find b (put c cl m) ≡ some cl'
    → P b cl'
put_all P c cl m own others b cl' e = elim (Bool-cases (c == b)) [
  | inl same ↦
      let at : c ≡ b = ground arith in
      let its : cl ≡ cl' = ground (arith, find-put b c cl m) in
      subst (P b) its (subst (λ x. P x cl) at own)
  | inr apart ↦ others b cl' (ground arith) (ground (arith, find-put b c cl m))
]
