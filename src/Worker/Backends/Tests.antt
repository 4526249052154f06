-- ===== src/Worker/Backends/Tests.antt =====
-- The theorems about the connections to servers at two servers.
use mathlib.Core.List.{Perm}
use proxy_for_distribution_s.Base.{
  All, Option, none, arith, subst, sym, ℕ, ◌==◌, Text, codes, text_eq, true, false, if◌then◌else◌,
  [], ◌∷◌, some, get_elem?, ◌≡◌, refl,
}
use proxy_for_distribution_s.Worker.State.{ok, died, Death}
use proxy_for_distribution_s.Worker.Backends.{
  Backends, index, swap_out, server_leaves, server_joins, server_fails,
}
use proxy_for_distribution_s.Worker.Backends.Pairs.{
  InStep, server_fails-InStep, server_leaves-server_joins,
}
use proxy_for_distribution_s.Registry.{Server}
use proxy_for_distribution_s.Registry.View.{listing}
use proxy_for_distribution_s.Registry.Plain.{plain}
use proxy_for_distribution_s.Registry.Examples.{gateway, listing-gateway}
use proxy_for_distribution_s.Worker.Backends.Start.{
  ready, init_servers, accepting, broken, Fine, init_servers-InStep,
}

abbrev first : Text
first = codes "127.0.0.1:8001"

abbrev second : Text
second = codes "127.0.0.1:8002"

-- Sockets 5 and 6, bufferevents 50 and 60.
abbrev two : Backends
two = record {
  server_list = (5, 50) ∷ (6, 60) ∷ [];
  server_info = (50, first) ∷ (60, second) ∷ [];
  open_bevs = λ bev. true;
  reports = [];
}

abbrev first_left : Backends
first_left = record two {
  server_list = (6, 60) ∷ [];
  open_bevs = λ bev. if 50 == bev then false else true;
}

two-InStep : InStep two.server_list two.server_info
unfolding InStep
two-InStep = (refl, (refl, tt))

first_leaves : server_leaves first two ≡ ok first_left
unfolding server_leaves index swap_out text_eq
first_leaves = refl

server_fails-InStep_example :
    (b' : Backends) × (i : ℕ × Text) × (server_fails 5 50 two ≡ ok b')
    × (get_elem? two.server_info 0 ≡ some i)
    × InStep b'.server_list b'.server_info
    × Perm two.server_list ((5, 50) ∷ b'.server_list)
    × Perm two.server_info (i ∷ b'.server_info)
    × (b'.open_bevs 50 ≡ false)
    × (b'.reports ≡ i.1 ∷ [])
unfolding index
server_fails-InStep_example = server_fails-InStep 0 5 50 two two-InStep refl refl refl refl

server_leaves-server_joins_example :
    (how : Death) × (server_leaves first (server_joins (some (7, 70)) first first_left) ≡ died how)
unfolding index text_eq
server_leaves-server_joins_example =
    server_leaves-server_joins first two first_left (50, first) 7 70 refl first_leaves
      (λ e. omega (arith, e))

-- Only the server at port 8002 accepts.
abbrev connect : Server → Option (ℕ × ℕ)
connect s = if s.port == 8002 then some (6, 60) else none

two_up-Fine : All (Fine connect (λ s. true)) (listing plain gateway).up
two_up-Fine =
    subst (λ l. All (Fine connect (λ s. true)) l.up) (sym listing-gateway)
      (
        record { short = omega arith; told = refl },
        (record { short = omega arith; told = refl }, tt),
      )

init_servers-InStep_example :
    (b : Backends) × (init_servers connect (λ s. true) plain gateway ≡ ready b)
    × (b.server_info ≡ accepting connect (λ s. true) (listing plain gateway).up)
    × (b.reports ≡ broken connect (λ s. true) (listing plain gateway).up)
    × InStep b.server_list b.server_info
init_servers-InStep_example = init_servers-InStep connect (λ s. true) plain gateway refl two_up-Fine
