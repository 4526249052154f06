-- ===== src/Worker/Examples.antt =====
-- A small worker for the tests: two servers, one client, four entries in a queue.
use proxy_for_distribution_s.Base.{
  ℕ, true, false, [], ◌∷◌, Option, none, some, ◌≡◌, refl, arith, replicate, find, put, insert,
  erase,
}
use proxy_for_distribution_s.EventQueue.{push}
use proxy_for_distribution_s.Worker.State.{
  Client, CliEvent, Worker, Result, ok, died, write, accept_done,
}
use proxy_for_distribution_s.Worker.Clients.{new_client, accept_client, current_limit}
use proxy_for_distribution_s.Worker.Requests.{
  Codec, client_packet, server_packet, renew_limit, keep_request,
}
use proxy_for_distribution_s.Worker.Exchange.{Waits}
use proxy_for_distribution_s.Worker.Traces.{
  accepting, requesting, answering, react, Steps, here, step, Starts, starting,
}

-- Every text parses, and the two members go before it.
abbrev pub prefixing : Codec
prefixing = record { parses = λ t. true; forward = λ c k t. some (c ∷ k ∷ t) }

abbrev pub clean : ℕ → CliEvent
clean p = record {
  bev = 0;
  usr_uuid = 0;
  head = 0;
  c_info = [];
  arr_time = 0;
  msg_flag = false;
  finish_flag = false;
}

abbrev pub start : Worker
start = record {
  client_map = [];
  client_id = 0;
  servers = 21 ∷ 22 ∷ [];
  msg_queue = record { slots = replicate 4 0; front = 0; back = 0 };
  fin_queue = record { slots = replicate 4 0; front = 0; back = 0 };
  heap = clean;
  live = λ p. false;
  forward_count = 0;
  resend_count = 0;
  effects = [];
}

pub start-Starts : Starts start
start-Starts = starting 3 (21 ∷ 22 ∷ []) clean

abbrev left_by : Result Worker → Worker
left_by (ok w) = w
left_by (died e) = start

-- Client 0 comes, on connection 11, and its event takes block 100.
unfoldable pub came : Worker
unfolding react accept_client push
came = left_by (react prefixing (accepting true false 100 11 [] 5) start)

-- It asks, with blocks 101 and 102.
unfoldable pub asked : Worker
unfolding came react client_packet current_limit renew_limit keep_request push find put insert
asked = left_by (react prefixing (requesting 0 (7 ∷ []) 101 102 8) came)

-- The request is answered.
unfoldable pub answered : Worker
unfolding asked react server_packet find put erase
answered = left_by (react prefixing (answering 0 1 (9 ∷ [])) asked)

abbrev pub client : Client
client = new_client 11 [] 100

abbrev there : Option Client → Client
there none = client
there (some cl) = cl

came_lem : react prefixing (accepting true false 100 11 [] 5) start ≡ ok came
unfolding react accept_client push came insert
came_lem = refl

asked_lem : react prefixing (requesting 0 (7 ∷ []) 101 102 8) came ≡ ok asked
unfolding react client_packet current_limit renew_limit keep_request push find put insert came asked
asked_lem = refl

answered_lem : react prefixing (answering 0 1 (9 ∷ [])) asked ≡ ok answered
unfolding react server_packet find put erase asked answered
answered_lem = refl

-- What went out: the request to the first server, with its two members, and the answer to the client.
sent : answered.effects ≡ accept_done ∷ write 21 3 (0 ∷ 1 ∷ 7 ∷ []) ∷ write 11 1 (9 ∷ []) ∷ []
unfolding answered asked came
sent = refl

pub arrived : Steps prefixing start (ok came)
arrived = step (accepting true false 100 11 [] 5) (refl, refl, omega arith) came_lem here

pub pending : Steps prefixing start (ok asked)
unfolding came find insert put
pending =
    step (accepting true false 100 11 [] 5) (refl, refl, omega arith) came_lem
      (step (requesting 0 (7 ∷ []) 101 102 8) ((client, refl), refl, refl, omega arith, refl, refl)
        asked_lem here)

pub exchanged : Steps prefixing start (ok answered)
unfolding came asked find insert put
exchanged =
    step (accepting true false 100 11 [] 5) (refl, refl, omega arith) came_lem
      (step (requesting 0 (7 ∷ []) 101 102 8) ((client, refl), refl, refl, omega arith, refl, refl)
        asked_lem (step (answering 0 1 (9 ∷ [])) (omega arith) answered_lem here))

pub waiting : Waits asked 0 1 102 11 (0 ∷ 1 ∷ 7 ∷ [])
unfolding asked came find insert put
waiting = record {
  client = there (find 0 asked.client_map);
  client_at = refl;
  client_bev = refl;
  packet_at = refl;
  kept = refl;
  text = refl;
  size = refl;
}
