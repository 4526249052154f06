-- ===== src/Worker/Timeouts.antt =====
-- `check_time_out_cb` of include/pool.h, run every CB_TIMEOUT seconds: clients that sent nothing in
-- time are closed, and requests that no server has answered in time are sent again. `time` is
-- read once.
use proxy_for_distribution_s.Base.{
  ℕ, zero, suc, ◌+◌, ◌-◌, ◌%◌, ltb, ◌==◌, Bool, true, false, if◌then◌else◌, none, some, length,
  get_elem?, find, erase,
}
use proxy_for_distribution_s.EventQueue.{is_empty, oldest, advance}
use proxy_for_distribution_s.Worker.State.{
  CliEvent, Worker, write, close_bev, Result, ok, died, no_server, dangling, ◌>>=◌, or_die, emit,
  deref, store, release,
}
use proxy_for_distribution_s.Worker.Requests.{push_fin}

-- MSG_TIMEOUT and FIN_TIMEOUT
abbrev pub msg_timeout : ℕ
msg_timeout = 30

abbrev pub fin_timeout : ℕ
fin_timeout = 10

-- Free the event at the front and move on.
abbrev pub drop_msg : ℕ → Worker → Result Worker
drop_msg p w = do w' ← release p w; ok (record w' { msg_queue = advance w'.msg_queue })

abbrev pub drop_fin : ℕ → Worker → Result Worker
drop_fin p w = do w' ← release p w; ok (record w' { fin_queue = advance w'.fin_queue })

-- Close a client that sent nothing since the event was made.
abbrev pub close_idle : CliEvent → Worker → Worker
close_idle e w =
    if e.msg_flag
    then w
    else emit (close_bev e.bev) (record w { client_map = erase e.usr_uuid w.client_map })

-- A turn of the first loop, on the event at the front; the flag says whether the loop goes on.
unfoldable pub expire_front : ℕ → ℕ → Worker → Result (Worker × Bool)
expire_front now p w = do
  e ← deref w p
  elim (find e.usr_uuid w.client_map) [
    | none ↦ do w' ← drop_msg p w; ok (w', true)
    | some cl ↦
        if ltb msg_timeout (now - e.arr_time)
        then (do w' ← drop_msg p (close_idle e w); ok (w', true))
        else ok (w, false)
  ]

-- The first loop; an access past the end of the array is undefined.
unfoldable pub expire : ℕ → ℕ → Worker → Result Worker
unfolding expire_front
expire zero now w = ok w
expire (suc fuel) now w =
    let turn = (do
      p ← or_die (oldest w.msg_queue) dangling
      (w', more) ← expire_front now p w
      if more then expire fuel now w' else ok w') in
    if is_empty w.msg_queue then ok w else turn

-- Send the request again to the next server, and move its event to the back of the queue.
unfoldable pub resend : ℕ → ℕ → CliEvent → Worker → Result Worker
resend now p e w = if length w.servers == 0 then died no_server else (do
  let count = w.resend_count % length w.servers
  server ← or_die (get_elem? w.servers count) no_server
  let w1 = record (emit (write server e.head e.c_info) w) { resend_count = count + 1 }
  w2 ← push_fin p (store p (record e { arr_time = now }) w1)
  ok (record w2 { fin_queue = advance w2.fin_queue }))

unfoldable pub retry_front : ℕ → ℕ → Worker → Result (Worker × Bool)
unfolding resend
retry_front now p w = do
  e ← deref w p
  elim (find e.usr_uuid w.client_map) [
    | none ↦ do w' ← drop_fin p w; ok (w', true)
    | some cl ↦
        if ltb fin_timeout (now - e.arr_time)
        then (do w' ← if e.finish_flag then drop_fin p w else resend now p e w; ok (w', true))
        else ok (w, false)
  ]

unfoldable pub retry : ℕ → ℕ → Worker → Result Worker
unfolding retry_front
retry zero now w = ok w
retry (suc fuel) now w =
    let turn = (do
      p ← or_die (oldest w.fin_queue) dangling
      (w', more) ← retry_front now p w
      if more then retry fuel now w' else ok w') in
    if is_empty w.fin_queue then ok w else turn

-- The callback. Both loops get more fuel than their queue has entries.
unfoldable pub check_time_out : ℕ → Worker → Result Worker
unfolding expire retry
check_time_out now w = do
  w' ← expire (length w.msg_queue.slots) now w
  retry (length w'.fin_queue.slots) now w'
