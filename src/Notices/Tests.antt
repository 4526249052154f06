-- ===== src/Notices/Tests.antt =====
-- The main process of include/pool.h with two workers and two servers.
use proxy_for_distribution_s.Base.{
  ◌++◌, arith, text_eq, codes, true, false, [], ◌∷◌, some, none, Option, List, Bool, ◌≡◌, refl, ℕ,
}
use proxy_for_distribution_s.Registry.{
  address_size, Server, Gateway, int, has, set_server_down, login_server, logout_server,
  load_server_list, update_server_list, broadcast, strip,
}
use proxy_for_distribution_s.Registry.Plain.{plain, plain-IsFaithful}
use proxy_for_distribution_s.Registry.Examples.{first, second, third, two_up, gateway}
use proxy_for_distribution_s.Registry.View.{health}
use proxy_for_distribution_s.Notices.{
  next_turn, modulo, server_socket_read, reply_and_tell, Turns, Event, marks_down, registers,
  reports, waits_client, happen_all, notice_of, tell_all, server_reported, for_message, for_length,
  read_pipe, tell,
}
use proxy_for_distribution_s.Notices.Reading.{is_alive, sees_all}
use proxy_for_distribution_s.Notices.Agree.{AllAgree, happen_all-AllAgree}
use proxy_for_distribution_s.Packets.{has_nul}
use proxy_for_distribution_s.Notices.Registration.{
  registration, take_registration, address, IsFitting, take_registration-registration,
}
use proxy_for_distribution_s.Notices.Lost.{Stands, server_reported-Stands}

abbrev at_first : Server → Bool
at_first b = is_alive (health two_up b)

abbrev main_process : Turns × Gateway
main_process = (record { accept_flag = true; count = 0 }, gateway)

main_process-AllAgree : AllAgree plain at_first gateway
unfolding read_pipe sees_all plain
main_process-AllAgree = (
  record { notices = []; read = refl; same_servers = λ b. refl },
  (record { notices = []; read = refl; same_servers = λ b. refl }, tt),
)

-- A server fails, another comes, a client waits, a third goes, and a broken one is reported.
abbrev events : List Event
events =
    marks_down first
    ∷ registers (codes "login") third
    ∷ waits_client true
    ∷ registers (codes "logout") second
    ∷ reports false third 1
    ∷ []

abbrev reached : Turns × Gateway → Option (Turns × Gateway) → Turns × Gateway
reached m none = m
reached m (some m') = m'

after_events : Turns × Gateway
unfolding happen_all
after_events = reached main_process (happen_all plain events main_process)

events_run : happen_all plain events main_process ≡ some after_events
unfolding after_events happen_all next_turn tell tell_all modulo server_socket_read reply_and_tell
    set_server_down login_server logout_server load_server_list update_server_list broadcast strip
    has server_reported plain text_eq
events_run = refl

happen_all-AllAgree_example : AllAgree plain at_first after_events.1
happen_all-AllAgree_example =
    happen_all-AllAgree plain-IsFaithful at_first events main_process after_events
      (tt, (tt, (tt, (tt, (tt, tt))))) events_run main_process-AllAgree

-- The first worker reports a server that is up.
abbrev told_again : Gateway
told_again = record gateway { pipes = (int 2 ∷ []) ∷ [] ∷ [] }

gateway-Stands : Stands gateway 0 (some (record { waits = for_message; seen = [] }))
unfolding read_pipe
gateway-Stands = record { pipe = []; there = refl; read = refl }

told_again_lem : server_reported plain true first 0 gateway ≡ some told_again
unfolding server_reported tell
told_again_lem = refl

server_reported-Stands_example :
    Stands told_again 0 (some (record { waits = for_length true; seen = [] }))
    × ((n size : ℕ) (b : Server) → Stands (tell_all (notice_of n size b) told_again) 0 none)
server_reported-Stands_example =
    server_reported-Stands plain first 0 gateway told_again [] gateway-Stands told_again_lem

third-IsFitting : IsFitting (codes "login") third (7 ∷ 7 ∷ [])
unfolding has_nul
third-IsFitting = record {
  ip_short = omega arith;
  ip_plain = refl;
  token_short = omega arith;
  token_plain = refl;
  port_small = omega arith;
  padding = refl;
}

take_registration-registration_example :
    take_registration (registration (codes "login") third (7 ∷ 7 ∷ []) ++ 1 ∷ [])
    ≡ address (codes "login") third address_size (1 ∷ [])
take_registration-registration_example =
    take_registration-registration (codes "login") third (7 ∷ 7 ∷ []) third-IsFitting (1 ∷ [])
