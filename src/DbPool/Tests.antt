-- ===== src/DbPool/Tests.antt =====
-- The theorems about the pool of database connections at a small pool.
use proxy_for_distribution_s.Base.{[], ◌∷◌, among, refl}
use proxy_for_distribution_s.DbPool.{
  Config, Pool, initial, add_connection, get_connection, give_back,
}
use proxy_for_distribution_s.DbPool.Steps.{
  Steps, none_left, then_step, gets, gives, Inv, initial-Steps-Inv,
}

abbrev two : Config
two = record { init_size = 2; max_size = 2; max_idle_time = 60 }

abbrev lazy : Config
lazy = record { init_size = 0; max_size = 2; max_idle_time = 60 }

abbrev one_out : Pool
one_out = record { queue = (1, 7) ∷ []; connection_cnt = 1; borrowed = 0 ∷ []; made = 2 }

lend_and_return : Steps two (initial 7 2) (give_back 0 9 one_out)
unfolding initial add_connection get_connection among
lend_and_return = then_step (gets 0 refl) (then_step (gives 0 9 refl) none_left)

initial-Steps-Inv_example : Inv (give_back 0 9 one_out)
initial-Steps-Inv_example = initial-Steps-Inv 7 lend_and_return
