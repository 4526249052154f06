-- ===== src/Notices/Lost.antt =====
-- A worker that is told to connect to a server again, PassiveDetect of src/proxy/server_monitor.cc.
use proxy_for_distribution_s.Base.{
  ℕ, zero, suc, true, List, [], ◌∷◌, ◌++◌, map, Option, none, some, get_elem?, set, ◌≡◌, ap, subst,
  arith, lt_of_get_elem?, get_elem?-set_self,
}
use proxy_for_distribution_s.Registry.{Server, Chunk, int, Json, Gateway}
use proxy_for_distribution_s.Notices.{
  notice_of, tell_all, tell, server_reported, Notice, for_message, for_length, message, recv,
  read_pipe, Reader,
}
use proxy_for_distribution_s.Notices.Reading.{at_start, read_pipe-append}

map-get_elem? :
    (f : List Chunk → List Chunk) (ps : List (List Chunk)) (i : ℕ) (p : List Chunk)
    → get_elem? ps i ≡ some p
    → get_elem? (map f ps) i ≡ some (f p)
map-get_elem? f [] i p e = absurd (cc)
map-get_elem? f (q ∷ ps) zero p e = ap some (ap f (cc))
map-get_elem? f (q ∷ ps) (suc i) p e = map-get_elem? f ps i p e

-- What is in the pipe of one worker, and where the worker stands after it.
pub record Stands (g : Gateway) (i : ℕ) (r : Option Reader) : Type 0 where
  pub pipe : List Chunk
  pub there : get_elem? g.pipes i ≡ some pipe
  pub read : read_pipe pipe at_start ≡ r

tell-Stands :
    (i : ℕ) (cs : List Chunk) (g g' : Gateway) (r : Reader)
    → tell i cs g ≡ some g'
    → Stands g i (some r)
    → Stands g' i (read_pipe cs r)
unfolding tell
tell-Stands i cs g g' r e h =
    let told : Gateway = record g { pipes = set g.pipes i (h.pipe ++ cs) } in
    let same : told ≡ g' = ground (arith, h.there) in
    subst (λ x. Stands x i (read_pipe cs r)) same
      (record {
        pipe = h.pipe ++ cs;
        there =
            get_elem?-set_self g.pipes i (h.pipe ++ cs) (lt_of_get_elem? g.pipes i h.pipe h.there);
        read = read_pipe-append h.pipe cs at_start r h.read;
      })

tell_all-Stands :
    (i : ℕ) (cs : List Chunk) (g : Gateway) (r : Reader)
    → Stands g i (some r)
    → Stands (tell_all cs g) i (read_pipe cs r)
unfolding tell_all
tell_all-Stands i cs g r h = record {
  pipe = h.pipe ++ cs;
  there = map-get_elem? (λ p. p ++ cs) g.pipes i h.pipe h.there;
  read = read_pipe-append h.pipe cs at_start r h.read;
}

-- A worker reports a server that does accept connections. Then the worker, which has read its pipe up
-- to a whole notice, waits for a length that is not sent, and the next notice of any server is taken
-- for something else.
pub server_reported-Stands :
    (j : Json) (a : Server) (i : ℕ) (g g' : Gateway) (seen : List Notice)
    → Stands g i (some (record { waits = for_message; seen = seen }))
    → server_reported j true a i g ≡ some g'
    → Stands g' i (some (record { waits = for_length true; seen = seen }))
      × ((n size : ℕ) (b : Server) → Stands (tell_all (notice_of n size b) g') i none)
unfolding server_reported read_pipe recv message
server_reported-Stands j a i g g' seen h e =
    let blocked : Stands g' i (some (record { waits = for_length true; seen = seen })) =
      tell-Stands i (int 2 ∷ []) g g' (record { waits = for_message; seen = seen }) e h in
    (
      blocked,
      λ n size b.
          tell_all-Stands i (notice_of n size b) g'
            (record { waits = for_length true; seen = seen }) blocked,
    )
