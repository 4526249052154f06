-- ===== src/Registry/View.antt =====
-- What server_list.json promises: a map from servers to their health, and how each operation of
-- src/proxy/server_monitor.cc changes it.
use proxy_for_distribution_s.Base.{
  Bool, true, false, ◌&&◌, if◌then◌else◌, Option, none, some, ◌≡◌, refl, arith, inl, inr, ◌⊎◌, [],
  ◌∷◌, ◌++◌,
}
use proxy_for_distribution_s.Registry.{
  Server, Listing, Json, IsFaithful, Gateway, Outcome, ok, failed, no_servers, same, has, strip,
  set_server_down, set_server_up, login_server, logout_server,
}
use proxy_for_distribution_s.Registry.Lists.{
  same_iff, strip-hit, has-strip, has-append, has-one, IsDistinct, strip-IsDistinct,
  IsDistinct-snoc,
}

pub data Health : Type 0 where
  alive dead : Health

-- What the file says; one that does not parse says nothing.
abbrev pub listing : Json → Gateway → Listing
listing j g = elim (j.parse g.file) [ none ↦ no_servers | some l ↦ l ]

unfoldable pub health : Listing → Server → Option Health
health l b = if has b l.up then some alive else if has b l.down then some dead else none

-- The four operations as one.
pub data Command : Type 0 where
  mark_down mark_up login logout : Command

unfoldable pub run : Json → Command → Server → Gateway → Gateway × Outcome
run j mark_down a g = set_server_down j a g
run j mark_up a g = set_server_up j a g
run j login a g = login_server j a g
run j logout a g = logout_server j a g

-- The specification: which health a command asks for, and which it leaves.
unfoldable pub accepts : Command → Option Health → Bool
accepts mark_down (some alive) = true
accepts mark_up (some dead) = true
accepts login none = true
accepts logout (some h) = true
accepts _ _ = false

unfoldable pub after : Command → Option Health
after mark_down = some dead
after mark_up = some alive
after login = some alive
after logout = none

abbrev pub is_ok : Outcome → Bool
is_ok ok = true
is_ok failed = false

abbrev pub outcome : Bool → Outcome
outcome true = ok
outcome false = failed

pub Outcome-cases : (o : Outcome) → (o ≡ ok) ⊎ (o ≡ failed)
Outcome-cases ok = inl refl
Outcome-cases failed = inr refl

-- No server is listed twice, in one array or across the two.
pub record IsWellFormed (l : Listing) : Type 0 where
  pub up_distinct : IsDistinct l.up
  pub down_distinct : IsDistinct l.down
  pub apart : (b : Server) → (has b l.up && has b l.down) ≡ false

module _ (j : Json) (a : Server) (g : Gateway) where
  -- An operation that returns -1 has changed neither the file nor any pipe.
  pub run_failed : (c : Command) → (run j c a g).1 ≡ failed → (run j c a g).0 ≡ g
  unfolding run set_server_down set_server_up login_server logout_server
  run_failed mark_down e = ground arith
  run_failed mark_up e = ground arith
  run_failed login e = ground arith
  run_failed logout e = ground arith

-- The listing that a successful operation writes.
unfoldable pub change : Command → Server → Listing → Listing
change mark_down a l = record { up = (strip a l.up).0; down = l.down ++ a ∷ [] }
change mark_up a l = record { up = l.up ++ a ∷ []; down = (strip a l.down).0 }
change login a l = record l { up = l.up ++ a ∷ [] }
change logout a l = record { up = (strip a l.up).0; down = (strip a l.down).0 }

health-change :
    (c : Command) (a b : Server) (l : Listing)
    → health (change c a l) b ≡ (if same a b then after c else health l b)
unfolding change health after
health-change mark_down a b l =
    ground (arith, has-strip b a l.up, has-append b l.down (a ∷ []), has-one b a)
health-change mark_up a b l =
    ground (arith, has-strip b a l.down, has-append b l.up (a ∷ []), has-one b a)
health-change login a b l = ground (arith, has-append b l.up (a ∷ []), has-one b a)
health-change logout a b l = ground (arith, has-strip b a l.up, has-strip b a l.down)

change-apart :
    (c : Command) (a b : Server) (l : Listing)
    → IsWellFormed l
    → accepts c (health l a) ≡ true
    → (has b (change c a l).up && has b (change c a l).down) ≡ false
unfolding change health accepts
change-apart mark_down a b l w h =
    ground
      (arith, w.apart b, w.apart a, has-strip b a l.up, has-append b l.down (a ∷ []), has-one b a)
change-apart mark_up a b l w h =
    ground
      (arith, w.apart b, w.apart a, has-strip b a l.down, has-append b l.up (a ∷ []), has-one b a)
change-apart login a b l w h =
    ground (arith, w.apart b, has-append b l.up (a ∷ []), has-one b a, same_iff a b)
change-apart logout a b l w h = ground (arith, w.apart b, has-strip b a l.up, has-strip b a l.down)

change-IsWellFormed :
    (c : Command) (a : Server) (l : Listing)
    → IsWellFormed l
    → accepts c (health l a) ≡ true
    → IsWellFormed (change c a l)
unfolding change health accepts
change-IsWellFormed mark_down a l w h = record {
  up_distinct = strip-IsDistinct a l.up w.up_distinct;
  down_distinct = IsDistinct-snoc a l.down w.down_distinct (ground (arith, w.apart a));
  apart = λ b. change-apart mark_down a b l w h;
}
change-IsWellFormed mark_up a l w h = record {
  up_distinct = IsDistinct-snoc a l.up w.up_distinct (ground (arith, w.apart a));
  down_distinct = strip-IsDistinct a l.down w.down_distinct;
  apart = λ b. change-apart mark_up a b l w h;
}
change-IsWellFormed login a l w h = record {
  up_distinct = IsDistinct-snoc a l.up w.up_distinct (ground arith);
  down_distinct = w.down_distinct;
  apart = λ b. change-apart login a b l w h;
}
change-IsWellFormed logout a l w h = record {
  up_distinct = strip-IsDistinct a l.up w.up_distinct;
  down_distinct = strip-IsDistinct a l.down w.down_distinct;
  apart = λ b. change-apart logout a b l w h;
}

module _ (j : Json) (a : Server) (g : Gateway) where
  -- With the file open for reading and writing, an operation on a list with no server listed
  -- twice succeeds exactly where the health of its server asks for it; otherwise it fails.
  pub run-outcome :
      (c : Command)
      → IsWellFormed (listing j g)
      → (run j c a g).1
        ≡ outcome (g.can_read && (g.can_write && accepts c (health (listing j g) a)))
  unfolding run set_server_down set_server_up login_server logout_server health accepts
  run-outcome mark_down w = ground (arith, w.apart a, strip-hit a (listing j g).up)
  run-outcome mark_up w = ground (arith, w.apart a, strip-hit a (listing j g).down)
  run-outcome login w = ground (arith, w.apart a)
  run-outcome logout w =
      ground (arith, strip-hit a (listing j g).up, strip-hit a (listing j g).down)

module _ {j : Json} (f : IsFaithful j) (a : Server) (g : Gateway) where
  pub run-change :
      (c : Command) → (run j c a g).1 ≡ ok → listing j (run j c a g).0 ≡ change c a (listing j g)
  unfolding run set_server_down set_server_up login_server logout_server change
  run-change mark_down e =
      ground (arith, f.parse_write (unfold change in change mark_down a (listing j g)))
  run-change mark_up e = ground (arith, f.parse_write (change mark_up a (listing j g)))
  run-change login e = ground (arith, f.parse_write (change login a (listing j g)))
  run-change logout e = ground (arith, f.parse_write (change logout a (listing j g)))

  -- A successful operation sets the health of its own server as the command says, and leaves the
  -- health of every other server.
  pub run-health :
      (c : Command) (b : Server)
      → (run j c a g).1 ≡ ok
      → health (listing j (run j c a g).0) b
        ≡ (if same a b then after c else health (listing j g) b)
  run-health c b e = rw (run-change c e) (health-change c a b (listing j g))

  -- Every operation keeps the two arrays free of servers listed twice, failed ones included.
  pub run-IsWellFormed :
      (c : Command) → IsWellFormed (listing j g) → IsWellFormed (listing j (run j c a g).0)
  run-IsWellFormed c w = elim (Outcome-cases (run j c a g).1) [
    | inl done ↦
        rw (run-change c done)
          (change-IsWellFormed c a (listing j g) w (ground (arith, run-outcome j a g c w)))
    | inr kept ↦ rw (run_failed j a g c kept) w
  ]
