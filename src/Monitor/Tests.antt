-- ===== src/Monitor/Tests.antt =====
-- The theorems about the active health check at concrete rounds.
use proxy_for_distribution_s.Base.{
  ◌==◌, ◌<◌, Bool, true, false, not, [], ◌∷◌, some, ◌≡◌, refl, arith, Returns,
}
use proxy_for_distribution_s.Registry.{Server, Gateway, load_server_list, set_server_down}
use proxy_for_distribution_s.Registry.Plain.{plain}
use proxy_for_distribution_s.Registry.Examples.{second, third, two_up, gateway}
use proxy_for_distribution_s.Monitor.{Detector, check_up, reload, round}
use proxy_for_distribution_s.Monitor.Safety.{IsSized, round-IsSized}
use proxy_for_distribution_s.Monitor.Blame.{Fell, Rose, round-Fell-Rose}
use proxy_for_distribution_s.Monitor.Counts.{Quiet, Quiet-lt}
use proxy_for_distribution_s.Monitor.Exits.{round_leaks}

-- What the thread begins with.
abbrev fresh : Detector
fresh = record {
  servers = record { up = []; down = [] };
  fail_num = [];
  reload_flag = true;
  running = true;
  sockets = 0;
}

-- The second server refuses connections.
abbrev first_only : Server → Bool
first_only s = s.port == 8001

abbrev everyone : Server → Bool
everyone s = true

abbrev loaded : Detector
loaded = record fresh { servers = two_up; fail_num = 0 ∷ 0 ∷ []; reload_flag = false }

abbrev one_failure : Detector
one_failure = record loaded { fail_num = 0 ∷ 1 ∷ []; sockets = 1 }

first_round : round plain 2 first_only (gateway, fresh) ≡ some (gateway, one_failure)
unfolding round check_up load_server_list plain
first_round = refl

second-round :
    round plain 2 first_only (gateway, one_failure)
    ≡ some (
      (set_server_down plain second gateway).0,
      record one_failure { fail_num = 0 ∷ 2 ∷ []; reload_flag = true; sockets = 2 },
    )
unfolding round check_up
second-round = refl

round-IsSized_example : Returns (λ w. IsSized w.1) (round plain 2 first_only (gateway, fresh))
round-IsSized_example = round-IsSized plain 2 first_only gateway fresh (λ e. cc)

round-Fell-Rose_example :
    (g1 : Gateway) × Fell plain 2 first_only 0
      (reload plain (gateway, one_failure)).servers.up
      (reload plain (gateway, one_failure)).fail_num
      gateway
      g1
    × Rose plain 2 first_only
        (reload plain (gateway, one_failure)).servers.down
        g1
        (set_server_down plain second gateway).0
round-Fell-Rose_example = round-Fell-Rose plain 2 first_only gateway _ one_failure _ second-round

third_round : round plain 2 first_only (gateway, loaded) ≡ some (gateway, one_failure)
unfolding round check_up
third_round = refl

Quiet-lt_example : 1 < 2
Quiet-lt_example =
    Quiet-lt plain 2 second 1 1 (gateway, loaded) (gateway, one_failure) refl refl refl refl
      (omega arith) (Quiet.next first_only Quiet.start refl third_round refl refl)

-- The third server is down in the list that the thread holds.
abbrev holding : Detector
holding = record loaded { servers = record two_up { down = third ∷ [] } }

abbrev held_gateway : Gateway
held_gateway = record gateway { file = plain.write (record two_up { down = third ∷ [] }) }

quiet_holding :
    round plain 2 (λ s. not (s.port == 8003)) (held_gateway, holding)
    ≡ some (held_gateway, record holding { sockets = 1 })
unfolding round check_up
quiet_holding = refl

round_leaks_example : 0 < 1
round_leaks_example =
    round_leaks plain 2 (λ s. not (s.port == 8003)) held_gateway holding
      (held_gateway, record holding { sockets = 1 }) refl refl (λ e. cc) quiet_holding
