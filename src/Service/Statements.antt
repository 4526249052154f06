-- ===== src/Service/Statements.antt =====
-- The statements that the views of src/server_service/view.cpp send to the database.
use proxy_for_distribution_s.Base.{Text, codes, [], ◌∷◌, ◌++◌}
use proxy_for_distribution_s.Service.Numbers.{ℤ, print_int}

pub data Sql : Type 0 where
  begin commit rollback : Sql
  -- The row of a user with this password.
  verify : Text → Text → Sql
  -- The rows of a user in a task's table.
  tickets : Text → Text → Sql
  start_time : Text → Sql
  lock_task : Text → Sql
  take_one : Text → Sql
  give_ticket : Text → Text → ℤ → Sql
  count_rights : Text → Sql
  new_task : Text → Text → ℤ → Sql
  new_table : Text → Sql

abbrev pub quoted : Text → Text
quoted t = 34 ∷ t ++ 34 ∷ []

-- The text that `sprintf` or `+` makes.
unfoldable pub print : Sql → Text
unfolding print_int
print begin = codes "begin;"
print commit = codes "commit;"
print rollback = codes "rollback;"
print (verify name password) =
    codes "select * from worker_information where workername="
    ++ quoted name
    ++ codes " and password="
    ++ quoted password
    ++ codes ";"
print (tickets task name) =
    codes "select * from " ++ task ++ codes "_table where workername=" ++ quoted name ++ codes ";"
print (start_time task) =
    codes "select start_time from task where task_name=" ++ quoted task ++ codes ";"
print (lock_task task) =
    codes "select * from task where task_name=" ++ quoted task ++ codes " for update;"
print (take_one task) =
    codes "update task set remain_number=remain_number-1 where task_name="
    ++ quoted task
    ++ codes ";"
print (give_ticket task name number) =
    codes "insert into  "
    ++ task
    ++ codes "_table values("
    ++ quoted name
    ++ codes ", "
    ++ print_int number
    ++ codes ");"
print (count_rights name) =
    codes "select count(*) from worker_information where workername="
    ++ quoted name
    ++ codes " and level>=3;"
print (new_task task start total) =
    codes "insert into task (task_name, start_time, Totoal_number, remain_number) values ("
    ++ quoted task
    ++ codes ", "
    ++ quoted start
    ++ codes ", "
    ++ print_int total
    ++ codes ", "
    ++ print_int total
    ++ codes ");"
print (new_table task) =
    codes "create table "
    ++ task
    ++ codes
        "_table (workername varchar(50), ticket_number int default NULL, primary key(workername));"
