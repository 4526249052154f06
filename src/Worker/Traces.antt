-- ===== src/Worker/Traces.antt =====
-- What a worker process does in any order of its callbacks, include/pool.h.
pub mod Memory
pub mod Process
use proxy_for_distribution_s.Base.{
  ℕ, zero, suc, ◌+◌, ◌<◌, ◌^◌, Bool, true, false, List, [], ◌∷◌, Option, none, some, Text, find,
  ◌≡◌, ◌≢◌, replicate,
}
use proxy_for_distribution_s.EventQueue.{Ring}
use proxy_for_distribution_s.Worker.State.{Client, CliEvent, Worker, Result, ok, died, Death, ◌>>=◌}
use proxy_for_distribution_s.Worker.Clients.{accept_client, client_event, empty_count}
use proxy_for_distribution_s.Worker.Requests.{Codec, client_packet, server_packet}
use proxy_for_distribution_s.Worker.Timeouts.{check_time_out}

-- What the event loop calls, with what the system and the allocator hand over.
pub data Callback : Type 0 where
  -- A client is accepted, or not, at this time.
  accepting : Bool → Bool → ℕ → ℕ → Text → ℕ → Callback
  -- A packet of a client, the two blocks and the time.
  requesting : ℕ → Text → ℕ → ℕ → ℕ → Callback
  -- An answer from a server.
  answering : ℕ → ℕ → Text → Callback
  -- A connection was closed.
  leaving : ℕ → ℕ → Callback
  -- The two timers.
  timing_out : ℕ → Callback
  resetting : Callback

unfoldable pub react : Codec → Callback → Worker → Result Worker
react codec (accepting is_accepted banned p bev ip now) w =
    accept_client is_accepted banned (some p) bev ip now w
react codec (requesting c msg p1 p2 now) w = do
  (w', more) ← client_packet codec c msg (some p1) (some p2) now w
  ok w'
react codec (answering c k reply) w = server_packet c k reply w
react codec (leaving bev c) w = ok (client_event bev c w)
react codec (timing_out now) w = check_time_out now w
react codec resetting w = empty_count w

-- A block that the allocator returns is not in use.
abbrev pub IsFresh : Worker → ℕ → Type 0
IsFresh w p = w.live p ≡ false

-- What the world owes a callback. Blocks are fresh, the flags in them are clear, the
-- counter of clients has not run over, only known clients send, and no packet has the number 0.
abbrev pub Fits : Worker → Callback → Type 0
Fits w (accepting is_accepted banned p bev ip now) =
    IsFresh w p × ((w.heap p).msg_flag ≡ false) × (w.client_id + 1 < 2 ^ 32)
Fits w (requesting c msg p1 p2 now) =
    ((cl : Client) × (find c w.client_map ≡ some cl))
    × IsFresh w p1
    × IsFresh w p2
    × (p1 ≢ p2)
    × ((w.heap p1).msg_flag ≡ false)
    × ((w.heap p2).finish_flag ≡ false)
Fits w (answering c k reply) = k ≢ 0
Fits w (leaving bev c) = Unit
Fits w (timing_out now) = Unit
Fits w resetting = Unit

-- The callbacks of a process one after the other, up to where we look or to where it ends.
pub data Steps (codec : Codec) : Worker → Result Worker → Type 0 where
  here : {w : Worker} → Steps codec w (ok w)
  step :
      {w w' : Worker} {r : Result Worker} (cb : Callback)
      → Fits w cb
      → react codec cb w ≡ ok w'
      → Steps codec w' r
      → Steps codec w r
  ends :
      {w : Worker} {e : Death} (cb : Callback)
      → Fits w cb
      → react codec cb w ≡ died e
      → Steps codec w (died e)

-- The process at its start: no client, empty queues, nothing allocated.
pub data Starts : Worker → Type 0 where
  starting :
      (n : ℕ) (servers : List ℕ) (heap : ℕ → CliEvent)
      → Starts (record {
        client_map = [];
        client_id = 0;
        servers = servers;
        msg_queue = record { slots = replicate (suc n) 0; front = 0; back = 0 };
        fin_queue = record { slots = replicate (suc n) 0; front = 0; back = 0 };
        heap = heap;
        live = λ p. false;
        forward_count = 0;
        resend_count = 0;
        effects = [];
      })
