-- ===== src/Worker/Backends/Start.antt =====
-- The connections that a worker makes at its start, `run_child` of include/pool.h.
use mathlib.Core.List.{append_assoc, append-nil}
use proxy_for_distribution_s.Base.{
  ℕ, ltb, ◌<◌, Text, Bool, true, false, List, [], ◌∷◌, ◌++◌, Option, none, some, length, All, ◌≡◌,
  refl, sym, ◌∙◌, arith, Option-cases, inl, inr,
}
use proxy_for_distribution_s.Registry.{Server, Json, Gateway, no_servers, load_server_list}
use proxy_for_distribution_s.Registry.View.{listing}
use proxy_for_distribution_s.Service.Numbers.{pos, print_int}
use proxy_for_distribution_s.Worker.Backends.{Backends, server_joins}
use proxy_for_distribution_s.Worker.Backends.Pairs.{InStep, server_joins-InStep}

-- `string(ip) + ':' + to_string(port)`
abbrev pub ip_port : Server → Text
ip_port s = s.ip ++ 58 ∷ print_int (pos s.port)

-- `char ip[20]`
abbrev pub ip_room : ℕ
ip_room = 20

-- How the loop over the servers ends: a report that is not sent ends `run_child`, and a longer address
-- than there is room for is copied past the end.
pub data Started : Type 0 where
  ready : Backends → Started
  gave_up : Backends → Started
  too_long : Started

abbrev pub no_backends : Backends
no_backends = record { server_list = []; server_info = []; open_bevs = λ bev. false; reports = [] }

-- `connect` gives the socket and the bufferevent of a connection; `sent` says whether a report of type 1
-- is sent.
module _ (connect : Server → Option (ℕ × ℕ)) (sent : Server → Bool) where
  unfoldable pub connect_all : List Server → Backends → Started
  connect_all [] b = ready b
  connect_all (s ∷ ss) b = elim (ltb (length s.ip) ip_room) [
    | false ↦ too_long
    | true ↦ elim (connect s) [
      | some made ↦ connect_all ss (server_joins (some made) (ip_port s) b)
      | none ↦ elim (sent s) [
        | false ↦ gave_up b
        | true ↦ connect_all ss (record b { reports = b.reports ++ ip_port s ∷ [] })
      ]
    ]
  ]

  unfoldable pub init_servers : Json → Gateway → Started
  unfolding load_server_list connect_all
  init_servers j g = elim (load_server_list j g no_servers) [
    | none ↦ gave_up no_backends
    | some l ↦ connect_all l.up no_backends
  ]

  -- The servers that accept, with their bufferevents, and those that do not.
  pub accepting : List Server → List (ℕ × Text)
  accepting [] = []
  accepting (s ∷ ss) = elim (connect s) [
    | none ↦ accepting ss
    | some made ↦ (made.1, ip_port s) ∷ accepting ss
  ]

  pub broken : List Server → List Text
  broken [] = []
  broken (s ∷ ss) = elim (connect s) [ none ↦ ip_port s ∷ broken ss | some made ↦ broken ss ]

  -- The address fits, and a report of the server would be sent.
  pub record Fine (s : Server) : Type 0 where
    pub short : length s.ip < ip_room
    pub told : sent s ≡ true

  -- What the loop leaves.
  pub record Connected (ss : List Server) (b b' : Backends) : Type 0 where
    pub infos : b'.server_info ≡ b.server_info ++ accepting ss
    pub reported : b'.reports ≡ b.reports ++ broken ss
    pub in_step : InStep b'.server_list b'.server_info

  connect_all-Connected :
      (ss : List Server) (b : Backends)
      → All Fine ss
      → InStep b.server_list b.server_info
      → (b' : Backends) × (connect_all ss b ≡ ready b') × Connected ss b b'
  unfolding connect_all accepting broken server_joins
  connect_all-Connected [] b fine h = (
    b,
    refl,
    record {
      infos = sym (append-nil b.server_info);
      reported = sym (append-nil b.reports);
      in_step = h;
    },
  )
  connect_all-Connected (s ∷ ss) b fine h =
      let short : ltb (length s.ip) ip_room ≡ true = ground (arith, fine.0.short) in
      elim (Option-cases (connect s)) [
        | inl none_made ↦
            let (b', ran, c) =
              connect_all-Connected ss (record b { reports = b.reports ++ ip_port s ∷ [] }) fine.1
                h in
            (
              b',
              rw (short, connect_all)
                  (rw (none_made, connect_all) (rw (fine.0.told, connect_all) ran)),
              record {
                infos = rw (none_made, accepting) c.infos;
                reported =
                    rw (none_made, broken)
                      (c.reported ∙ append_assoc b.reports (ip_port s ∷ []) (broken ss));
                in_step = c.in_step;
              },
            )
        | inr (made, e) ↦
            let (b', ran, c) =
              connect_all-Connected ss (server_joins (some made) (ip_port s) b) fine.1
                (server_joins-InStep (some made) (ip_port s) b h) in
            (
              b',
              rw (short, connect_all) (rw (e, connect_all) ran),
              record {
                infos =
                    rw (e, accepting)
                      (c.infos
                        ∙ append_assoc b.server_info ((made.1, ip_port s) ∷ []) (accepting ss));
                reported = rw (e, broken) c.reported;
                in_step = c.in_step;
              },
            )
      ]

  -- A worker starts, the file opens, each of its addresses that are up fits, and the reports of those
  -- that do not accept are sent. Then the worker has a connection to each of the servers that are up
  -- and accept, in the file's order and with the two lists in step, and has reported just the others.
  pub init_servers-InStep :
      (j : Json) (g : Gateway)
      → g.can_read ≡ true
      → All Fine (listing j g).up
      → (b : Backends) × (init_servers j g ≡ ready b)
        × (b.server_info ≡ accepting (listing j g).up)
        × (b.reports ≡ broken (listing j g).up)
        × InStep b.server_list b.server_info
  unfolding init_servers load_server_list InStep
  init_servers-InStep j g can fine =
      let (b, ran, c) = connect_all-Connected (listing j g).up no_backends fine tt in
      (b, rw (can, init_servers) ran, c.infos, c.reported, c.in_step)
