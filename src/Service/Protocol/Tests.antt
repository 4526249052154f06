-- ===== src/Service/Protocol/Tests.antt =====
-- The views keep to the protocol with a database that succeeds, and with one that fails.
use proxy_for_distribution_s.Base.{ℕ, ◌+◌, codes, true, [], ◌∷◌, some}
use proxy_for_distribution_s.Service.Numbers.{pos}
use proxy_for_distribution_s.Service.Session.{Db}
use proxy_for_distribution_s.Service.Views.{Request}
use proxy_for_distribution_s.Service.Scramble.{scramble_process}
use proxy_for_distribution_s.Service.Create.{create_process}
use proxy_for_distribution_s.Service.Protocol.{Ends, Told, Tried, served}
use proxy_for_distribution_s.Service.Protocol.Scramble.{scramble_process-Ends}
use proxy_for_distribution_s.Service.Protocol.Create.{create_process-Ends}

-- Every query finds a row, and every update succeeds.
abbrev willing : Db ℕ
willing = record {
  query = λ t n. (some ((codes "1" ∷ codes "1" ∷ codes "5" ∷ codes "3" ∷ []) ∷ []), n + 1);
  update = λ t n. (true, n + 1);
}

abbrev wish : Request
wish = record {
  kind = 6;
  name = codes "u";
  password = codes "p";
  task = codes "x";
  task_name = codes "y";
  start_time = codes "2027";
  total_number = pos 3;
}

scramble_process-Ends_example :
    Ends Tried
      (λ _. served 2)
      (scramble_process willing (codes "2026") wish (record { db = 0; log = [] }))
scramble_process-Ends_example = scramble_process-Ends willing (codes "2026") wish 0

create_process-Ends_example :
    Ends Told (λ _. served 2) (create_process willing 5 wish (record { db = 0; log = [] }))
create_process-Ends_example = create_process-Ends willing 5 wish 0
