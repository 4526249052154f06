-- ===== src/Worker/Clients.antt =====
-- Clients come and go, include/pool.h: `pipe_event_CallBack` (case 1), `current_limit`,
-- `client_event_cb` and `empty_count_cb`.
use proxy_for_distribution_s.Base.{
  ℕ, ◌+◌, ◌%◌, ◌^◌, ltb, Text, Bool, true, false, not, if◌then◌else◌, List, [], ◌∷◌, Option, find,
  put, insert, erase,
}
use proxy_for_distribution_s.EventQueue.{push}
use proxy_for_distribution_s.Worker.State.{
  Client, Worker, close_bev, accuse, accept_done, close_socket, Result, ok, died, queue_full,
  null_pointer, stale_iterator, ◌>>=◌, or_die, emit, store, claim,
}

-- `client_map[c_id]`, where the client is there, is written back.
abbrev pub with_client : ℕ → Client → Worker → Worker
with_client c_id cl w = record w { client_map = put c_id cl w.client_map }

-- Put an event into the queue of time limits.
abbrev pub push_msg : ℕ → Worker → Result Worker
push_msg p w = do q ← or_die (push w.msg_queue p) queue_full; ok (record w { msg_queue = q })

abbrev pub new_client : ℕ → Text → ℕ → Client
new_client bev ip p = record {
  bev = bev;
  count = 0;
  ip = ip;
  close_flag = false;
  pack_id = 0;
  cli_event_map = (0, p) ∷ [];
}

-- Case 1: `accepted` says whether `accept` gave a socket, `banned` whether the black list has the
-- address.
unfoldable pub accept_client : Bool → Bool → Option ℕ → ℕ → Text → ℕ → Worker → Result Worker
accept_client accepted banned block bev ip now w =
    let w0 = emit accept_done w in
    if not accepted then ok w0 else if banned then ok (emit (close_socket bev) w0) else (do
      p ← or_die block null_pointer
      let w1 = claim p w0
      let event = record (w1.heap p) { arr_time = now; bev = bev; usr_uuid = w.client_id }
      w2 ← push_msg p (store p event w1)
      ok (record w2 {
        client_map = insert w.client_id (new_client bev ip p) w.client_map;
        client_id = (w.client_id + 1) % 2 ^ 32;
      }))

-- The flag is the result, whether the request may pass.
unfoldable pub current_limit : ℕ → Worker → Result (Worker × Bool)
current_limit c_id w = do
  client_inf ← or_die (find c_id w.client_map) null_pointer
  let counted = record client_inf { count = client_inf.count + 1 }
  if ltb client_inf.count 10
      then ok (with_client c_id counted w, true)
      else ok (
        emit (accuse client_inf.ip) (with_client c_id (record counted { close_flag = true }) w),
        false,
      )

-- A client that is not in the map is not missed: `client_map[c_id]` makes a null entry, which
-- is erased.
unfoldable pub client_event : ℕ → ℕ → Worker → Worker
client_event bev c_id w = emit (close_bev bev) (record w { client_map = erase c_id w.client_map })

-- The loop erases the entry that its iterator stands on and then steps the iterator.
unfoldable pub reset_counts : List (ℕ × Client) → Result (List (ℕ × Client))
reset_counts [] = ok []
reset_counts ((c_id, cl) ∷ rest) = do
  let more = reset_counts rest
  if cl.close_flag
      then died stale_iterator
      else (do cls ← more; ok ((c_id, record cl { count = 0 }) ∷ cls))

unfoldable pub empty_count : Worker → Result Worker
unfolding reset_counts
empty_count w = do cls ← reset_counts w.client_map; ok (record w { client_map = cls })
