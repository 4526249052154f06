-- ===== src/DbPool/Steps.antt =====
-- What holds of the pool of database connections whatever its threads do, and what does not:
-- src/server_service/dbConnectionPool.cpp.
use proxy_for_distribution_s.Base.{
  ℕ, zero, suc, ◌+◌, ◌-◌, ◌≤◌, ltb, ◌==◌, true, ◌&&◌, if◌then◌else◌, List, [], ◌∷◌, ◌++◌, some,
  length, length-append, among, ◌≡◌, ◌≢◌, refl, arith, ap, sym, subst, Bool-cases, inl, inr, ◌⊎◌,
}
use proxy_for_distribution_s.DbPool.{
  Config, Idle, Pool, is_empty_queue, add_connection, initial, produce, get_connection, without,
  give_back, scan_queue, scan_idle,
}

-- One step of a thread.
pub data Step (cfg : Config) : Pool → Pool → Type 0 where
  produces : {p : Pool} (now : ℕ) → Step cfg p (produce cfg now p)
  gets : {p p' : Pool} (c : ℕ) → get_connection p ≡ some (c, p') → Step cfg p p'
  gives : {p : Pool} (c now : ℕ) → among c p.borrowed ≡ true → Step cfg p (give_back c now p)
  scans : {p : Pool} (now : ℕ) → Step cfg p (scan_idle cfg now p)

pub data Steps (cfg : Config) : Pool → Pool → Type 0 where
  none_left : {p : Pool} → Steps cfg p p
  then_step : {p q r : Pool} → Step cfg p q → Steps cfg q r → Steps cfg p r

abbrev ids : List Idle → List ℕ
ids [] = []
ids (c ∷ cs) = c.0 ∷ ids cs

-- How often a connection is in a list.
abbrev times : ℕ → List ℕ → ℕ
times c [] = 0
times c (d ∷ ds) = (if c == d then 1 else 0) + times c ds

-- The counter counts the queue, no connection is in the queue or with a client twice or in both
-- places, and all of them were made.
pub record Inv (p : Pool) : Type 0 where
  pub counted : p.connection_cnt ≡ length p.queue
  pub once : (c : ℕ) → times c (ids p.queue) + times c p.borrowed ≤ (if ltb c p.made then 1 else 0)

ids-append : (cs ds : List Idle) → ids (cs ++ ds) ≡ ids cs ++ ids ds
ids-append [] ds = refl
ids-append (c ∷ cs) ds = ap (λ xs. c.0 ∷ xs) (ids-append cs ds)

times-append : (c : ℕ) (ds es : List ℕ) → times c (ds ++ es) ≡ times c ds + times c es
times-append c [] es = omega arith
times-append c (d ∷ ds) es = ground (arith, times-append c ds es)

times-snoc :
    (c : ℕ) (cs : List Idle) (d : Idle)
    → times c (ids (cs ++ d ∷ [])) ≡ times c (ids cs) + (if c == d.0 then 1 else 0)
times-snoc c cs d = rw (ids-append cs (d ∷ [])) (ground (arith, times-append c (ids cs) (d.0 ∷ [])))

times-without :
    (c d : ℕ) (ds : List ℕ)
    → among d ds ≡ true
    → times c (without d ds) + (if c == d then 1 else 0) ≡ times c ds
unfolding among
times-without c d [] h = absurd (ground arith)
times-without c d (e ∷ es) h = ground (arith, times-without c d es)

add_connection-Inv : (now : ℕ) (p : Pool) → Inv p → Inv (add_connection now p)
unfolding add_connection
add_connection-Inv now p v = record {
  counted = omega (arith, v.counted, length-append p.queue ((p.made, now) ∷ []));
  once = λ c. ground (arith, v.once c, times-snoc c p.queue (p.made, now));
}

initial-Inv : (now n : ℕ) → Inv (initial now n)
unfolding initial
initial-Inv now zero = record { counted = refl; once = λ c. ground arith }
initial-Inv now (suc n) = add_connection-Inv now (initial now n) (initial-Inv now n)

scan_queue-Inv :
    (cfg : Config) (now : ℕ) (cs : List Idle) (n c : ℕ)
    → n ≡ length cs
    → ((scan_queue cfg now cs n).1 ≡ length (scan_queue cfg now cs n).0)
      × (times c (ids (scan_queue cfg now cs n).0) ≤ times c (ids cs))
unfolding scan_queue
scan_queue-Inv cfg now [] n c e = (e, omega arith)
scan_queue-Inv cfg now (d ∷ ds) n c e =
    let less : n - 1 ≡ length ds = omega arith in
    ground (arith, scan_queue-Inv cfg now ds (n - 1) c less)

queue_cases : (cs : List Idle) → (cs ≡ []) ⊎ ((d : Idle) × (ds : List Idle) × (cs ≡ d ∷ ds))
queue_cases [] = inl refl
queue_cases (d ∷ ds) = inr (d, ds, refl)

get_connection-Inv : (p p' : Pool) (c : ℕ) → get_connection p ≡ some (c, p') → Inv p → Inv p'
unfolding get_connection
get_connection-Inv p p' c e v = elim (queue_cases p.queue) [
  | inl empty ↦ absurd (ground arith)
  | inr (d, ds, front) ↦
      let taken : Pool = record p {
        queue = ds;
        connection_cnt = p.connection_cnt - 1;
        borrowed = d.0 ∷ p.borrowed;
      } in
      let same : taken ≡ p' = ground arith in
      subst Inv same (record {
        counted = ground (arith, v.counted);
        once = λ b.
            let all : times b (ids (d ∷ ds)) + times b p.borrowed
                ≤ (if ltb b p.made then 1 else 0) =
              subst (λ cs. times b (ids cs) + times b p.borrowed ≤ (if ltb b p.made then 1 else 0))
                front (v.once b) in
            omega arith;
      })
]

Step-Inv : {cfg : Config} {p q : Pool} → Inv p → Step cfg p q → Inv q
unfolding produce give_back scan_idle
Step-Inv {cfg} {p} v (produces now) =
    elim (Bool-cases (is_empty_queue p.queue && ltb p.connection_cnt cfg.max_size)) [
      | inl makes ↦ rw makes (add_connection-Inv now p v)
      | inr idle ↦ rw idle v
    ]
Step-Inv {p = p} {q} v (gets c e) = get_connection-Inv p q c e v
Step-Inv {p = p} v (gives c now held) = record {
  counted = omega (arith, v.counted, length-append p.queue ((c, now) ∷ []));
  once = λ b.
      omega (arith, v.once b, times-snoc b p.queue (c, now), times-without b c p.borrowed held);
}
Step-Inv {cfg} {p} v (scans now) = record {
  counted = (scan_queue-Inv cfg now p.queue p.connection_cnt 0 v.counted).0;
  once =
      λ c. omega (arith, v.once c, (scan_queue-Inv cfg now p.queue p.connection_cnt c v.counted).1);
}

Steps-Inv : {cfg : Config} {p q : Pool} → Inv p → Steps cfg p q → Inv q
Steps-Inv v none_left = v
Steps-Inv v (then_step s rest) = Steps-Inv (Step-Inv v s) rest

-- Whatever the threads do from the start of the pool, in whatever order, its counter is the length of its
-- queue, and each connection that was made is in the queue or with a client at most once, and not
-- in both.
pub initial-Steps-Inv :
    {cfg : Config} {q : Pool} (now : ℕ) → Steps cfg (initial now cfg.init_size) q → Inv q
initial-Steps-Inv {cfg} now steps = Steps-Inv (initial-Inv now cfg.init_size) steps

Steps-trans : {cfg : Config} {p q r : Pool} → Steps cfg p q → Steps cfg q r → Steps cfg p r
Steps-trans none_left later = later
Steps-trans (then_step s rest) later = then_step s (Steps-trans rest later)

-- A pool whose connections are all with clients, as often as one likes.
more_borrowed :
    (cfg : Config) (now n : ℕ) (p : Pool)
    → cfg.max_size ≢ 0
    → p.queue ≡ []
    → p.connection_cnt ≡ 0
    → (q : Pool) × Steps cfg p q × (length q.borrowed ≡ length p.borrowed + n)
unfolding produce add_connection get_connection
more_borrowed cfg now zero p some_room empty none_idle = (p, none_left, omega arith)
more_borrowed cfg now (suc n) p some_room empty none_idle =
    let made : Pool = add_connection now p in
    let lent : Pool = record made {
      queue = [];
      connection_cnt = made.connection_cnt - 1;
      borrowed = p.made ∷ p.borrowed;
    } in
    let makes : produce cfg now p ≡ made = ground arith in
    let lends : get_connection made ≡ some (p.made, lent) = ground arith in
    let (q, steps, len) = more_borrowed cfg now n lent some_room refl (omega arith) in
    (
      q,
      then_step (subst (Step cfg p) makes (produces now)) (then_step (gets p.made lends) steps),
      omega arith,
    )

-- The pool does not keep to `max_size`: where that is not 0 and a pool begins empty, any number of
-- connections can be with clients at once.
borrowed_unbounded :
    (cfg : Config) (now n : ℕ)
    → cfg.max_size ≢ 0
    → cfg.init_size ≡ 0
    → (q : Pool) × Steps cfg (initial now cfg.init_size) q × (length q.borrowed ≡ n)
unfolding initial
borrowed_unbounded cfg now n some_room empty =
    let (q, steps, len) = more_borrowed cfg now n (initial now 0) some_room refl refl in
    (q, subst (λ i. Steps cfg (initial now i) q) (sym empty) steps, omega arith)
