-- ===== src/Notices.antt =====
-- What the main process does on its own events, include/pool.h and PassiveDetect of
-- src/proxy/server_monitor.cc, as far as the list of servers and the pipes of the workers go; and how a
-- worker takes notices from its pipe, `pipe_event_CallBack`.
pub mod Reading
pub mod Agree
pub mod Lost
pub mod Registration
mod Tests
use proxy_for_distribution_s.Base.{
  ℕ, ◌+◌, ◌%◌, ◌==◌, leb, Text, codes, text_eq, Bool, true, false, ◌&&◌, ◌||◌, if◌then◌else◌, List,
  [], ◌∷◌, ◌++◌, map, Option, none, some, get_elem?, set, length, ◌>>=◌,
}
use proxy_for_distribution_s.Registry.{
  Server, Chunk, int, addr, Json, Gateway, Outcome, ok, failed, same, address_size, login_server,
  logout_server, set_server_down, set_server_up,
}

-- What a server that registers is told.
pub data Reply : Type 0 where
  registered not_registered logged_out not_logged_out : Reply
  no_reply : Reply

-- The three sends to a worker, with the length that the server had sent.
abbrev pub notice_of : ℕ → ℕ → Server → List Chunk
notice_of message size a = int message ∷ int size ∷ addr a ∷ []

-- The loop over the `m_process_number` workers.
unfoldable pub tell_all : List Chunk → Gateway → Gateway
tell_all cs g = record g { pipes = map (λ p. p ++ cs) g.pipes }

-- A send to one worker; `none` is a number that no worker has.
unfoldable pub tell : ℕ → List Chunk → Gateway → Option Gateway
tell i cs g = elim (get_elem? g.pipes i) [
  | none ↦ none
  | some p ↦ some (record g { pipes = set g.pipes i (p ++ cs) })
]

-- The branches on the result of the registry's operation.
unfoldable pub reply_and_tell :
    List Chunk → (done refused : Reply) → Gateway × Outcome → Gateway × Reply
unfolding tell_all
reply_and_tell notice done refused (g, ok) = (tell_all notice g, done)
reply_and_tell notice done refused (g, failed) = (g, refused)

-- `server_socket_read_cb` from the received length and address on: the token of the address, and the
-- server in it.
unfoldable pub server_socket_read : Json → Text → ℕ → Server → Gateway → Gateway × Reply
unfolding reply_and_tell
server_socket_read j token size a g =
    if text_eq token (codes "login")
    then reply_and_tell (notice_of 2 size a) registered not_registered (login_server j a g)
    else if text_eq token (codes "logout")
    then reply_and_tell (notice_of 3 size a) logged_out not_logged_out (logout_server j a g)
    else (g, no_reply)

-- A message of type 1 in `PassiveDetect`: a worker reports a server as broken, and the thread tries it.
unfoldable pub server_reported : Json → (reach : Bool) → Server → ℕ → Gateway → Option Gateway
unfolding tell
server_reported j reach a process_id g =
    if reach then tell process_id (int 2 ∷ []) g else some ((set_server_down j a g).0)

-- `accept_flag` of the shared memory, and the static `count`.
pub record Turns : Type 0 where
  pub accept_flag : Bool
  pub count : ℕ

-- The remainder is undefined where there is no worker.
unfoldable pub modulo : ℕ → ℕ → Option ℕ
modulo a b = if b == 0 then none else some (a % b)

-- The worker whose turn it is gets a message, and the flag is cleared.
unfoldable pub next_turn : Turns → Gateway → Option (Turns × Gateway)
unfolding tell modulo
next_turn t g = do
  count ← modulo t.count (length g.pipes)
  g' ← tell count (int 1 ∷ []) g
  some (record { accept_flag = false; count = count + 1 }, g')

-- `ListenerClientCallBack`: a client waits to be accepted; `locked` says whether `trylock` succeeded.
unfoldable pub client_waits : (locked : Bool) → Turns × Gateway → Option (Turns × Gateway)
unfolding next_turn
client_waits locked (t, g) = if locked && t.accept_flag then next_turn t g else some (t, g)

-- `signal_cb`
unfoldable pub stops : Gateway → Gateway
unfolding tell_all
stops g = tell_all (int 4 ∷ []) g

-- What a worker is told.
pub data Notice : Type 0 where
  client : Notice
  joins : Server → Notice
  leaves : Server → Notice
  stop : Notice

-- Which `recv` of `pipe_event_CallBack` comes next: that of a message, or those of the length and of the
-- address behind a message 2 (`true`) or 3.
pub data Awaits : Type 0 where
  for_message : Awaits
  for_length : Bool → Awaits
  for_address : Bool → Awaits

-- Where a worker stands in its pipe, and the notices so far.
pub record Reader : Type 0 where
  pub waits : Awaits
  pub seen : List Notice

abbrev pub server_notice : Bool → Server → Notice
server_notice true a = joins a
server_notice false a = leaves a

-- The `switch`; a number without a case is ignored.
unfoldable pub message : ℕ → List Notice → Reader
message n seen =
    if n == 1
    then record { waits = for_message; seen = seen ++ client ∷ [] }
    else if n == 2
    then record { waits = for_length true; seen = seen }
    else if n == 3
    then record { waits = for_length false; seen = seen }
    else if n == 4
    then record { waits = for_message; seen = seen ++ stop ∷ [] }
    else record { waits = for_message; seen = seen }

-- A `recv` of what one `send` wrote; `none` where it is something else than what is to come.
unfoldable pub recv : Awaits → Chunk → List Notice → Option Reader
unfolding message
recv for_message (int n) seen = some (message n seen)
recv (for_length up) (int n) seen = some (record { waits = for_address up; seen = seen })
recv (for_address up) (addr a) seen =
    some (record { waits = for_message; seen = seen ++ server_notice up a ∷ [] })
recv _ _ seen = none

unfoldable pub read_pipe : List Chunk → Reader → Option Reader
unfolding recv
read_pipe [] r = some r
read_pipe (c ∷ cs) r = do r' ← recv r.waits c r.seen; read_pipe cs r'

-- What can happen in the main process.
pub data Event : Type 0 where
  -- The two marks of ActiveDetect.
  marks_down : Server → Event
  marks_up : Server → Event
  -- A server sends a token and its address.
  registers : Text → Server → Event
  -- A worker reports a server, which then accepts a connection or not.
  reports : Bool → Server → ℕ → Event
  waits_client : Bool → Event
  signals : Event

abbrev pub same_turns : Turns → Option Gateway → Option (Turns × Gateway)
same_turns t none = none
same_turns t (some g) = some (t, g)

unfoldable pub happen : Json → Event → Turns × Gateway → Option (Turns × Gateway)
unfolding server_socket_read server_reported client_waits stops
happen j (marks_down a) (t, g) = some (t, (set_server_down j a g).0)
happen j (marks_up a) (t, g) = some (t, (set_server_up j a g).0)
happen j (registers token a) (t, g) = some (t, (server_socket_read j token address_size a g).0)
happen j (reports reach a i) (t, g) = same_turns t (server_reported j reach a i g)
happen j (waits_client locked) (t, g) = client_waits locked (t, g)
happen j signals (t, g) = some (t, stops g)

unfoldable pub happen_all : Json → List Event → Turns × Gateway → Option (Turns × Gateway)
unfolding happen
happen_all j [] m = some m
happen_all j (e ∷ es) m = do m' ← happen j e m; happen_all j es m'
