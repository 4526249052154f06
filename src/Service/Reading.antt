-- ===== src/Service/Reading.antt =====
-- The read callback of a thread of the service, server_service/thread.cpp, from the bytes that the
-- gateway sends on.
mod Tests
use proxy_for_distribution_s.Base.{
  ℕ, leb, length, ◌≡◌, ◌⊎◌, ap, Bool, if◌then◌else◌, Text, Option, none, some, Bool-cases,
}
use proxy_for_distribution_s.Packets.{Handled, next, return, ended, Read, read_input}
use proxy_for_distribution_s.Service.Session.{
  Db, Session, Flow, go, ret, fails, Fault, overflow, sql_len, format, fail, ◌>>=◌,
}
use proxy_for_distribution_s.Service.Statements.{print}
use proxy_for_distribution_s.Service.Views.{Request}
use proxy_for_distribution_s.Service.Create.{controller_process}
use proxy_for_distribution_s.Service.Tickets.{Store, Stores, Obeys, IsFair}
use proxy_for_distribution_s.Service.Tickets.Runs.{Runs}

-- What a view leaves: the loop goes on after it, however it returned.
abbrev pub view_turn : {D : Type 0} → Flow D Unit → Handled (Session D) Fault
view_turn (go a s) = next s
view_turn (ret s) = next s
view_turn (fails e) = ended e

-- What is outside the code, packet by packet: whether a text parses and to which members, whether the
-- pool of connections gives one, and the time.
pub record World (D : Type 0) : Type 0 where
  pub parse : Text → Option Request
  pub connection : Session D → Option (Db D)
  pub now : Session D → Text

module _ {D : Type 0} (world : World D) (fuel : ℕ) where
  pub read_task : Text → Session D → Handled (Session D) Fault
  read_task msg s = elim (world.parse msg) [
    | none ↦ return s
    | some r ↦ view_turn (controller_process (world.connection s) fuel (world.now s) r s)
  ]

  pub work_socket_read : Text → Session D → Read (Session D) Fault
  unfolding read_task
  work_socket_read input s = read_input read_task s input

module _ {D : Type 0} (db : Db D) (world : World D) (fuel : ℕ) (saved working : D → Store)
    (connects : (s : Session D) → (world.connection s ≡ none) ⊎ (world.connection s ≡ some db))
    (scrambles : (msg : Text) (r : Request)
      → world.parse msg ≡ some r
      → (r.kind ≡ 5) × Stores db r.task r.name saved working)
    (obeys : Obeys db) where
  -- What is committed is fair, and nothing is pending.
  abbrev IsFairIn : D → Type 0
  IsFairIn d = IsFair (saved d) × (working d ≡ saved d)

  abbrev pub FairSale : Session D → Type 0
  FairSale s = IsFairIn s.db
