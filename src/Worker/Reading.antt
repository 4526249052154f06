-- ===== src/Worker/Reading.antt =====
-- The read callbacks of a worker from the bytes of a connection on, include/pool.h:
-- `client_socket_read_cb` and `work_server_socket_read_cb`.
pub mod Known
pub mod Frame
pub mod Ends
pub mod Safe
mod Tests
use proxy_for_distribution_s.Base.{
  ℕ, ◌+◌, Bool, true, false, if◌then◌else◌, Text, Option, none, some, find,
}
use proxy_for_distribution_s.Packets.{
  Handled, next, return, ended, Read, returned, died, read_input,
}
use proxy_for_distribution_s.Worker.State.{Worker, Result, ok, Death, null_pointer, uncaught}
use proxy_for_distribution_s.Worker.Requests.{Codec, client_packet, server_packet}

-- What the allocator returns for the two blocks of a request, and the time.
pub record Offer : Type 0 where
  pub block1 : ℕ
  pub block2 : ℕ
  pub clock : ℕ

-- A worker, and how many of the offers it has used.
abbrev pub Using : Type 0
Using = Worker × ℕ

-- A server's packet: it does not parse; a member of it is no number, or it is no object, which throws an
-- exception; or it has its two members and the text of the rest.
pub data Answer : Type 0 where
  unparsed thrown : Answer
  parsed : ℕ → ℕ → Text → Answer

abbrev pub Answers : Type 0
Answers = Text → Answer

abbrev pub turn : ℕ → Result (Worker × Bool) → Handled Using Death
turn n (ok (w, true)) = next (w, n)
turn n (ok (w, false)) = return (w, n)
turn n (Result.died e) = ended e

abbrev pub go_on : Result Worker → Handled Worker Death
go_on (ok w) = next w
go_on (Result.died e) = ended e

pub read_request : Codec → (ℕ → Offer) → ℕ → Text → Using → Handled Using Death
read_request codec offers c_id msg (w, n) =
    let o = offers n in
    turn (n + 1) (client_packet codec c_id msg (some o.block1) (some o.block2) o.clock w)

-- `client_map[c_id]` of a client that is not there is null.
pub client_socket_read : Codec → (ℕ → Offer) → ℕ → Text → Worker → Read Using Death
unfolding read_request
client_socket_read codec offers c_id input w = elim (find c_id w.client_map) [
  | none ↦ died null_pointer
  | some cl ↦
      if cl.close_flag
      then returned (w, 0) input
      else read_input (read_request codec offers c_id) (w, 0) input
]

pub read_answer : Answers → Text → Worker → Handled Worker Death
read_answer answers msg w = elim (answers msg) [
  | unparsed ↦ return w
  | thrown ↦ ended uncaught
  | parsed c_id pack_id reply ↦ go_on (server_packet c_id pack_id reply w)
]

pub work_server_socket_read : Answers → Text → Worker → Read Worker Death
unfolding read_answer
work_server_socket_read answers input w = read_input (read_answer answers) w input
