-- ===== src/Service/Tickets/Tests.antt =====
-- A ticket is sold from the small database.
use proxy_for_distribution_s.Base.{codes, []}
use proxy_for_distribution_s.Service.Numbers.{pos}
use proxy_for_distribution_s.Service.Statements.{start_time}
use proxy_for_distribution_s.Service.Views.{Request}
use proxy_for_distribution_s.Service.Tickets.{Store}
use proxy_for_distribution_s.Service.Tickets.Small.{Memory, x, u}

abbrev fresh : Store
fresh = record { total = 2; remain = 2; owners = [] }

abbrev memory : Memory
memory = record { saved = fresh; working = fresh }

abbrev wish : Request
wish = record {
  kind = 5;
  name = u;
  password = codes "p";
  task = x;
  task_name = [];
  start_time = [];
  total_number = pos 0;
}
