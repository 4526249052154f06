-- ===== src/DbPool.antt =====
-- The pool of database connections, `ConnectionPool` of src/server_service/dbConnectionPool.cpp. Each
-- step is taken under the pool's mutex. Connections are numbered, and `clock()` is an argument.
pub mod Steps
mod Tests
use proxy_for_distribution_s.Base.{
  ℕ, zero, suc, ◌+◌, ◌-◌, ◌*◌, ltb, leb, ◌==◌, Bool, true, false, ◌&&◌, if◌then◌else◌, List, [],
  ◌∷◌, ◌++◌, Option, none, some,
}

-- What `loadConfigFile` reads and the pool uses.
pub record Config : Type 0 where
  pub init_size : ℕ
  pub max_size : ℕ
  pub max_idle_time : ℕ

-- A connection in the queue, and when it was last used.
abbrev pub Idle : Type 0
Idle = ℕ × ℕ

-- `borrowed` is what clients hold; `made` counts the connections that were made.
pub record Pool : Type 0 where
  pub queue : List Idle
  pub connection_cnt : ℕ
  pub borrowed : List ℕ
  pub made : ℕ

abbrev pub is_empty_queue : List Idle → Bool
is_empty_queue [] = true
is_empty_queue (c ∷ cs) = false

-- A new connection goes to the back of the queue.
unfoldable pub add_connection : ℕ → Pool → Pool
add_connection now p = record p {
  queue = p.queue ++ (p.made, now) ∷ [];
  connection_cnt = p.connection_cnt + 1;
  made = p.made + 1;
}

-- The loop of the constructor.
unfoldable pub initial : ℕ → ℕ → Pool
unfolding add_connection
initial now zero = record { queue = []; connection_cnt = 0; borrowed = []; made = 0 }
initial now (suc n) = add_connection now (initial now n)

-- A turn of `produceConnectionTask`.
unfoldable pub produce : Config → ℕ → Pool → Pool
unfolding add_connection
produce cfg now p =
    if is_empty_queue p.queue && ltb p.connection_cnt cfg.max_size then add_connection now p else p

-- `none` is the `nullptr` after the time-out.
unfoldable pub get_connection : Pool → Option (ℕ × Pool)
get_connection p = elim p.queue [
  | [] ↦ none
  | c ∷ cs ↦ some (
    c.0,
    record p { queue = cs; connection_cnt = p.connection_cnt - 1; borrowed = c.0 ∷ p.borrowed },
  )
]

abbrev pub without : ℕ → List ℕ → List ℕ
without c [] = []
without c (d ∷ ds) = if c == d then ds else d ∷ without c ds

-- The deleter of the shared pointer.
unfoldable pub give_back : ℕ → ℕ → Pool → Pool
give_back c now p = record p {
  queue = p.queue ++ (c, now) ∷ [];
  connection_cnt = p.connection_cnt + 1;
  borrowed = without c p.borrowed;
}

-- The loop of `scannerConnectionTask`; the front of an empty queue is not looked at.
unfoldable pub scan_queue : Config → ℕ → List Idle → ℕ → List Idle × ℕ
scan_queue cfg now [] n = ([], n)
scan_queue cfg now (c ∷ cs) n =
    let rest = scan_queue cfg now cs (n - 1) in
    if ltb cfg.init_size n && leb (cfg.max_idle_time * 1000) (now - c.1) then rest else (c ∷ cs, n)

unfoldable pub scan_idle : Config → ℕ → Pool → Pool
unfolding scan_queue
scan_idle cfg now p =
    let (queue', cnt) = scan_queue cfg now p.queue p.connection_cnt in
    record p { queue = queue'; connection_cnt = cnt }
