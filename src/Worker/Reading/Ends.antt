-- ===== src/Worker/Reading/Ends.antt =====
-- How `client_socket_read_cb` of include/pool.h can end a worker process: not by a stale iterator.
use proxy_for_distribution_s.Base.{
  ℕ, ◌==◌, leb, ltb, not, Bool, true, false, if◌then◌else◌, Text, Option, none, some, length,
  get_elem?, find,
}
use proxy_for_distribution_s.EventQueue.{push}
use proxy_for_distribution_s.Worker.State.{
  Worker, Result, ok, died, Death, queue_full, no_server, overflow, stale_iterator, null_pointer,
  dangling, double_free, uncaught, ◌>>=◌, or_die, deref,
}
use proxy_for_distribution_s.Worker.Clients.{current_limit}
use proxy_for_distribution_s.Worker.Requests.{Codec, renew_limit, keep_request, client_packet}

-- Every way to end but a stale iterator.
abbrev pub IsSteady : Death → Type 0
IsSteady queue_full = Unit
IsSteady no_server = Unit
IsSteady null_pointer = Unit
IsSteady dangling = Unit
IsSteady double_free = Unit
IsSteady overflow = Unit
IsSteady stale_iterator = ⊥
IsSteady uncaught = Unit

abbrev pub Steady : {A : Type 0} → Result A → Type 0
Steady (ok a) = Unit
Steady (died e) = IsSteady e

>>=-Steady :
    {A B : Type 0} (r : Result A) (f : A → Result B)
    → Steady r
    → ((a : A) → Steady (f a))
    → Steady (r >>= f)
>>=-Steady (ok a) f h k = k a
>>=-Steady (died e) f h k = h

or_die-Steady : {A : Type 0} (o : Option A) (e : Death) → IsSteady e → Steady (or_die o e)
or_die-Steady none e h = h
or_die-Steady (some a) e h = tt

if-Steady :
    {A : Type 0} (b : Bool) (x y : Result A) → Steady x → Steady y → Steady (if b then x else y)
if-Steady true x y h k = h
if-Steady false x y h k = k

current_limit-Steady : (c : ℕ) (w : Worker) → Steady (current_limit c w)
unfolding current_limit
current_limit-Steady c w =
    >>=-Steady (or_die (find c w.client_map) null_pointer) _ (or_die-Steady _ _ tt)
      λ cl. if-Steady (ltb cl.count 10) _ _ tt tt

renew_limit-Steady :
    (c : ℕ) (block : Option ℕ) (now : ℕ) (w : Worker) → Steady (renew_limit c block now w)
unfolding renew_limit
renew_limit-Steady c block now w =
    >>=-Steady (or_die (find c w.client_map) null_pointer) _ (or_die-Steady _ _ tt) λ cl.
      >>=-Steady (or_die (find 0 cl.cli_event_map) null_pointer) _ (or_die-Steady _ _ tt) λ p0.
        >>=-Steady (deref w p0) _ (if-Steady (w.live p0) _ _ tt tt) λ event.
          >>=-Steady (or_die block null_pointer) _ (or_die-Steady _ _ tt) λ p.
            >>=-Steady (or_die (push w.msg_queue p) queue_full) _ (or_die-Steady _ _ tt) λ q. tt

keep_request-Steady :
    (c k head : ℕ) (body : Text) (block : Option ℕ) (now : ℕ) (w : Worker)
    → Steady (keep_request c k head body block now w)
unfolding keep_request
keep_request-Steady c k head body block now w =
    >>=-Steady (or_die (find c w.client_map) null_pointer) _ (or_die-Steady _ _ tt) λ cl.
      >>=-Steady (or_die block null_pointer) _ (or_die-Steady _ _ tt) λ p.
        if-Steady (leb _ (length body)) _ _ tt
          (>>=-Steady (or_die (push w.fin_queue p) queue_full) _ (or_die-Steady _ _ tt) λ q. tt)

pub client_packet-Steady :
    (codec : Codec) (c : ℕ) (msg : Text) (block1 block2 : Option ℕ) (now : ℕ) (w : Worker)
    → Steady (client_packet codec c msg block1 block2 now w)
unfolding client_packet
client_packet-Steady codec c msg block1 block2 now w = if-Steady (not (codec.parses msg)) _ _ tt (
    if-Steady (length w.servers == 0) _ _ tt (
      >>=-Steady (current_limit c _) _ (current_limit-Steady c _) λ (w1, allowed).
        if-Steady (not allowed) _ _ tt (
          >>=-Steady (or_die (find c w1.client_map) null_pointer) _ (or_die-Steady _ _ tt) λ cl.
            >>=-Steady (or_die (codec.forward c _ msg) uncaught) _ (or_die-Steady _ _ tt) λ body.
              >>=-Steady (or_die (get_elem? w1.servers _) no_server) _ (or_die-Steady _ _ tt)
                λ server.
                  >>=-Steady (renew_limit c block1 now _) _ (renew_limit-Steady c block1 now _)
                    λ w4.
                      >>=-Steady (keep_request c _ _ _ block2 now w4) _
                        (keep_request-Steady c _ _ _ block2 now w4) λ w5. tt)))
