-- ===== src/Worker/Traces/Process/Tests.antt =====
-- A worker, include/pool.h, that serves a client and to which a server is added.
use proxy_for_distribution_s.Base.{codes, [], ◌∷◌, some, true, refl}
use proxy_for_distribution_s.Worker.Backends.{Backends, server_joins}
use proxy_for_distribution_s.Worker.Examples.{prefixing, start, start-Starts, exchanged, answered}
use proxy_for_distribution_s.Worker.Traces.Process.{
  joins, change_servers, with_servers, running, Goes, changes, so_far, Steps-Goes, SafeCourse,
  process-Safe,
}

abbrev two : Backends
two = record {
  server_list = (5, 21) ∷ (6, 22) ∷ [];
  server_info = (21, codes "127.0.0.1:8001") ∷ (22, codes "127.0.0.1:8002") ∷ [];
  open_bevs = λ bev. true;
  reports = [];
}

abbrev three : Backends
three = server_joins (some (7, 23)) (codes "127.0.0.1:8003") two

goes : Goes prefixing (with_servers two start) two (running (with_servers three answered) three)
unfolding with_servers change_servers
goes =
    Steps-Goes exchanged refl (changes (joins (some (7, 23)) (codes "127.0.0.1:8003")) refl so_far)

process-Safe_example : SafeCourse (running (with_servers three answered) three)
process-Safe_example = process-Safe start-Starts goes
