-- ===== src/Worker/Reading/Known.antt =====
-- A client whose packet is handled stays known, include/pool.h.
use proxy_for_distribution_s.Base.{
  ℕ, ◌==◌, leb, ltb, if◌then◌else◌, true, false, not, Bool, Option, some, Text, length, get_elem?,
  find, insert, find-put, ◌≡◌, arith, Option-cases, inl, inr,
}
use proxy_for_distribution_s.EventQueue.{push}
use proxy_for_distribution_s.Worker.State.{
  Client, Worker, Result, ok, died, null_pointer, overflow, ◌>>=◌, or_die, store, claim,
}
use proxy_for_distribution_s.Worker.Clients.{with_client, current_limit}
use proxy_for_distribution_s.Worker.Requests.{
  Codec, c_info_size, push_fin, renew_limit, keep_request, client_packet,
}

-- What holds of a result, if there is one.
abbrev pub Done {ℓ} : {A : Type ℓ} → (A → Type 0) → Result A → Type 0
Done P (ok a) = P a
Done P (died e) = Unit

pub >>=-Done :
    {A B : Type 0} (P : A → Type 0) (Q : B → Type 0) (r : Result A) (f : A → Result B)
    → Done P r
    → ((a : A) → P a → Done Q (f a))
    → Done Q (r >>= f)
>>=-Done P Q (ok a) f h k = k a h
>>=-Done P Q (died e) f h k = tt

-- Whatever comes before.
pub after-Done :
    {A B : Type 0} (Q : B → Type 0) (r : Result A) (f : A → Result B)
    → ((a : A) → Done Q (f a))
    → Done Q (r >>= f)
after-Done Q (ok a) f k = k a
after-Done Q (died e) f k = tt

pub if-Done :
    {A : Type 0} (P : A → Type 0) (b : Bool) (x y : Result A)
    → Done P x
    → Done P y
    → Done P (if b then x else y)
if-Done P true x y h k = h
if-Done P false x y h k = k

abbrev pub IsKnown : ℕ → Worker → Type 0
IsKnown c w = (cl : Client) × (find c w.client_map ≡ some cl)

put-IsKnown : (c : ℕ) (cl : Client) (w : Worker) → IsKnown c (with_client c cl w)
put-IsKnown c cl w = (cl, ground (arith, find-put c c cl w.client_map))

current_limit-IsKnown : (c : ℕ) (w : Worker) → Done (λ r. IsKnown c r.0) (current_limit c w)
unfolding current_limit
current_limit-IsKnown c w =
    after-Done (λ (r : Worker × Bool). IsKnown c r.0) (or_die (find c w.client_map) null_pointer) _
      λ cl.
        if-Done (λ (r : Worker × Bool). IsKnown c r.0) (ltb cl.count 10) _ _ (put-IsKnown c _ w)
          (put-IsKnown c _ w)

push_fin-IsKnown : (c p : ℕ) (w : Worker) → IsKnown c w → Done (IsKnown c) (push_fin p w)
push_fin-IsKnown c p w known = elim (Option-cases (push w.fin_queue p)) [
  | inl e ↦ rw e tt
  | inr (q, e) ↦ rw e known
]

keep_request-IsKnown :
    (c k head : ℕ) (body : Text) (block : Option ℕ) (now : ℕ) (w : Worker)
    → Done (IsKnown c) (keep_request c k head body block now w)
unfolding keep_request
keep_request-IsKnown c k head body block now w =
    after-Done (IsKnown c) (or_die (find c w.client_map) null_pointer) _ λ cl.
      after-Done (IsKnown c) (or_die block null_pointer) _ λ p.
        let event = record (w.heap p) {
          head = head;
          usr_uuid = c;
          c_info = body;
          arr_time = now;
        } in
        let asked = record cl { cli_event_map = insert k p cl.cli_event_map } in
        let w' = with_client c asked (store p event (claim p w)) in
        if-Done (IsKnown c) (leb c_info_size (length body)) (died overflow) (push_fin p w') tt
          (push_fin-IsKnown c p w' (put-IsKnown c asked (store p event (claim p w))))

-- A client stays known whatever becomes of its packet.
pub client_packet-IsKnown :
    (codec : Codec) (c : ℕ) (msg : Text) (block1 block2 : Option ℕ) (now : ℕ) (w : Worker)
    → IsKnown c w
    → Done (λ r. IsKnown c r.0) (client_packet codec c msg block1 block2 now w)
unfolding client_packet
client_packet-IsKnown codec c msg block1 block2 now w known =
    let P = λ (r : Worker × Bool). IsKnown c r.0 in
    if-Done P (not (codec.parses msg)) _ _ known (
      if-Done P (length w.servers == 0) _ _ tt (
        >>=-Done P P (current_limit c _) _ (current_limit-IsKnown c _) (λ (w1, allowed) known1.
          if-Done P (not allowed) _ _ known1 (
            after-Done P (or_die (find c w1.client_map) null_pointer) _ λ cl.
              after-Done P (or_die (codec.forward c _ msg) _) _ λ body.
                after-Done P (or_die (get_elem? w1.servers _) _) _ λ server.
                  after-Done P (renew_limit c block1 now _) _ λ w4.
                    >>=-Done (IsKnown c) P (keep_request c _ _ _ block2 now w4) _
                      (keep_request-IsKnown c _ _ _ block2 now w4) (λ w5 known5. known5)))))
