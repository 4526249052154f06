-- ===== src/Worker/Requests.antt =====
-- A packet from a client and a packet from a server, include/pool.h: one turn of the loops of
-- `client_socket_read_cb` and `work_server_socket_read_cb`, from the packet that was taken out on.
use proxy_for_distribution_s.Base.{
  ℕ, ◌+◌, ◌%◌, leb, ◌==◌, Text, Bool, true, false, not, if◌then◌else◌, Option, none, some, length,
  get_elem?, find, put, insert, erase,
}
use proxy_for_distribution_s.EventQueue.{push}
use proxy_for_distribution_s.Worker.State.{
  Worker, write, Result, ok, died, queue_full, no_server, null_pointer, overflow, uncaught, ◌>>=◌,
  or_die, emit, deref, store, claim,
}
use proxy_for_distribution_s.Worker.Clients.{with_client, push_msg, current_limit}

-- jsoncpp and the members that the gateway adds: whether a packet parses, and the text of the document
-- with "client_sock" and "pack_id"; `none` is an exception, of a document that is no object.
pub record Codec : Type 0 where
  pub parses : Text → Bool
  pub forward : ℕ → ℕ → Text → Option Text

-- `struct cli_event` has room for so many characters.
abbrev pub c_info_size : ℕ
c_info_size = 1024

abbrev pub push_fin : ℕ → Worker → Result Worker
push_fin p w = do q ← or_die (push w.fin_queue p) queue_full; ok (record w { fin_queue = q })

-- The event with the time limit is marked as used and replaced by a new one.
unfoldable pub renew_limit : ℕ → Option ℕ → ℕ → Worker → Result Worker
renew_limit c_id block now w = do
  cl ← or_die (find c_id w.client_map) null_pointer
  p0 ← or_die (find 0 cl.cli_event_map) null_pointer
  cli_event_msg ← deref w p0
  let w1 = store p0 (record cli_event_msg { msg_flag = true }) w
  p ← or_die block null_pointer
  let pclievent = record (w1.heap p) { arr_time = now; usr_uuid = c_id; bev = cli_event_msg.bev }
  let renewed = record cl { cli_event_map = put 0 p cl.cli_event_map }
  push_msg p (with_client c_id renewed (store p pclievent (claim p w1)))

-- The packet is kept until it is answered. `strcpy` past the end of `c_info` is undefined.
unfoldable pub keep_request : ℕ → ℕ → ℕ → Text → Option ℕ → ℕ → Worker → Result Worker
keep_request c_id k head body block now w = do
  cl ← or_die (find c_id w.client_map) null_pointer
  p ← or_die block null_pointer
  if leb c_info_size (length body) then died overflow else (do
    let pcli_event = record (w.heap p) {
      head = head;
      usr_uuid = c_id;
      c_info = body;
      arr_time = now;
    }
    let asked = record cl { cli_event_map = insert k p cl.cli_event_map }
    push_fin p (with_client c_id asked (store p pcli_event (claim p w))))

-- The flag says whether the loop goes on.
unfoldable pub client_packet :
    Codec → ℕ → Text → Option ℕ → Option ℕ → ℕ → Worker → Result (Worker × Bool)
unfolding current_limit renew_limit keep_request
client_packet codec c_id msg block1 block2 now w =
    if not (codec.parses msg)
    then ok (w, false)
    else if length w.servers == 0
    then died no_server
    else (do
      let count = w.forward_count % length w.servers
      (w1, allowed) ← current_limit c_id (record w { forward_count = count })
      if not allowed then ok (w1, false) else (do
        cl ← or_die (find c_id w1.client_map) null_pointer
        let k = cl.pack_id + 1
        body ← or_die (codec.forward c_id k msg) uncaught
        server ← or_die (get_elem? w1.servers count) no_server
        let w2 = with_client c_id (record cl { pack_id = k }) w1
        let w3 = record (emit (write server (length body) body) w2) { forward_count = count + 1 }
        w4 ← renew_limit c_id block1 now w3
        w5 ← keep_request c_id k (length body) body block2 now w4
        ok (w5, true)))

-- The members "client_sock" and "pack_id" of the packet, and the text of the rest of it.
unfoldable pub server_packet : ℕ → ℕ → Text → Worker → Result Worker
server_packet c_id pack_id reply w = elim (find c_id w.client_map) [
  | none ↦ ok w
  | some cl ↦ elim (find pack_id cl.cli_event_map) [
    | none ↦ ok w
    | some p ↦ do
      let w1 = emit (write cl.bev (length reply) reply) w
      event ← deref w1 p
      ok (
          with_client c_id (record cl { cli_event_map = erase pack_id cl.cli_event_map })
            (store p (record event { finish_flag = true }) w1))
  ]
]
