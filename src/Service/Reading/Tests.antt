-- ===== src/Service/Reading/Tests.antt =====
-- A thread of the service, server_service/thread.cpp, that reads a request for a ticket.
use proxy_for_distribution_s.Base.{codes, some, []}
use proxy_for_distribution_s.Service.Numbers.{pos}
use proxy_for_distribution_s.Service.Session.{Session}
use proxy_for_distribution_s.Service.Views.{Request}
use proxy_for_distribution_s.Service.Tickets.{Store}
use proxy_for_distribution_s.Service.Tickets.Small.{Memory, x, u, small}
use proxy_for_distribution_s.Service.Reading.{World}

abbrev fresh : Store
fresh = record { total = 2; remain = 2; owners = [] }

abbrev wish : Request
wish = record {
  kind = 5;
  name = u;
  password = codes "p";
  task = x;
  task_name = [];
  start_time = [];
  total_number = pos 0;
}

abbrev beginning : Session Memory
beginning = record { db = record { saved = fresh; working = fresh }; log = [] }

-- Every text parses, and asks for the same ticket; there always is a connection.
abbrev world : World Memory
world = record { parse = λ msg. some wish; connection = λ s. some small; now = λ s. codes "2026" }
