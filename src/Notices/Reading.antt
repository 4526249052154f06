-- ===== src/Notices/Reading.antt =====
-- How a worker reads its pipe, `pipe_event_CallBack` of include/pool.h, and what it takes from it.
use proxy_for_distribution_s.Base.{
  ℕ, Bool, true, false, if◌then◌else◌, List, [], ◌∷◌, ◌++◌, map, Option, none, some, All, ◌≡◌, refl,
  sym, ap, ◌∙◌, arith, inl, inr, Option-cases,
}
use proxy_for_distribution_s.Registry.{Server, Listing, Chunk, int, same}
use proxy_for_distribution_s.Registry.View.{Health, alive, dead, health}
use proxy_for_distribution_s.Notices.{
  notice_of, Notice, client, joins, leaves, stop, for_message, Reader, server_notice, message, recv,
  read_pipe,
}

-- Which servers are there by a notice, after those by the notices before.
unfoldable pub sees : Notice → (Server → Bool) → Server → Bool
sees client v b = v b
sees (joins a) v b = if same a b then true else v b
sees (leaves a) v b = if same a b then false else v b
sees stop v b = v b

unfoldable pub sees_all : List Notice → (Server → Bool) → Server → Bool
unfolding sees
sees_all [] v = v
sees_all (n ∷ ns) v = sees_all ns (sees n v)

abbrev pub is_alive : Option Health → Bool
is_alive (some alive) = true
is_alive (some dead) = false
is_alive none = false

abbrev pub at_start : Reader
at_start = record { waits = for_message; seen = [] }

-- A pipe is read without a rest, and by its notices the servers are there that the file has as up.
pub record Agrees (v : Server → Bool) (l : Listing) (p : List Chunk) : Type 0 where
  pub notices : List Notice
  pub read : read_pipe p at_start ≡ some (record { waits = for_message; seen = notices })
  pub same_servers : (b : Server) → sees_all notices v b ≡ is_alive (health l b)

pub read_pipe-append :
    (p q : List Chunk) (r r' : Reader)
    → read_pipe p r ≡ some r'
    → read_pipe (p ++ q) r ≡ read_pipe q r'
unfolding read_pipe
read_pipe-append [] q r r' e = ap (read_pipe q) (cc)
read_pipe-append (c ∷ cs) q r r' e = elim (Option-cases (recv r.waits c r.seen)) [
  | inl bad ↦ absurd (ground arith)
  | inr (s, got) ↦ rw (got, read_pipe) (read_pipe-append cs q s r' (ground arith))
]

pub sees_all-snoc :
    (ns : List Notice) (n : Notice) (v : Server → Bool) (b : Server)
    → sees_all (ns ++ n ∷ []) v b ≡ sees n (sees_all ns v) b
unfolding sees_all
sees_all-snoc [] n v b = refl
sees_all-snoc (m ∷ ns) n v b = sees_all-snoc ns n (sees m v) b

-- Where a worker stands after a notice that a server joins or leaves.
read_notice :
    (up : Bool) (size : ℕ) (a : Server) (seen : List Notice)
    → read_pipe
        (notice_of (if up then 2 else 3) size a)
        (record { waits = for_message; seen = seen })
      ≡ some (record { waits = for_message; seen = seen ++ server_notice up a ∷ [] })
unfolding read_pipe recv message
read_notice true size a seen = refl
read_notice false size a seen = refl

sees_notice :
    (up : Bool) (a : Server) (v : Server → Bool) (b : Server)
    → sees (server_notice up a) v b ≡ (if same a b then up else v b)
unfolding sees
sees_notice true a v b = refl
sees_notice false a v b = refl

module _ {v : Server → Bool} where
  -- A notice of a server keeps the agreement with a file in which just this server has changed.
  pub Agrees-notice :
      (up : Bool) (size : ℕ) (a : Server) (l l' : Listing) (p : List Chunk)
      → ((b : Server) → is_alive (health l' b) ≡ (if same a b then up else is_alive (health l b)))
      → Agrees v l p
      → Agrees v l' (p ++ notice_of (if up then 2 else 3) size a)
  Agrees-notice up size a l l' p change h = record {
    notices = h.notices ++ server_notice up a ∷ [];
    read = read_pipe-append p _ at_start _ h.read ∙ read_notice up size a h.notices;
    same_servers = λ b.
        sees_all-snoc h.notices (server_notice up a) v b
        ∙ sees_notice up a (sees_all h.notices v) b
        ∙ ap (λ x. if same a b then up else x) (h.same_servers b)
        ∙ sym (change b);
  }

  -- Other messages leave it.
  Agrees-message :
      (n : ℕ) (m : Notice) (l : Listing) (p : List Chunk)
      → ((seen : List Notice)
          → message n seen ≡ record { waits = for_message; seen = seen ++ m ∷ [] })
      → ((w : Server → Bool) (b : Server) → sees m w b ≡ w b)
      → Agrees v l p
      → Agrees v l (p ++ int n ∷ [])
  unfolding read_pipe recv
  Agrees-message n m l p is_message unseen h = record {
    notices = h.notices ++ m ∷ [];
    read = read_pipe-append p _ at_start _ h.read ∙ ap some (is_message h.notices);
    same_servers =
        λ b. sees_all-snoc h.notices m v b ∙ unseen (sees_all h.notices v) b ∙ h.same_servers b;
  }

  pub All-told :
      (l l' : Listing) (cs : List Chunk) (ps : List (List Chunk))
      → ((p : List Chunk) → Agrees v l p → Agrees v l' (p ++ cs))
      → All (Agrees v l) ps
      → All (Agrees v l') (map (λ p. p ++ cs) ps)
  All-told l l' cs [] keeps h = tt
  All-told l l' cs (p ∷ ps) keeps h = (keeps p h.0, All-told l l' cs ps keeps h.1)

  pub client-Agrees : (l : Listing) (p : List Chunk) → Agrees v l p → Agrees v l (p ++ int 1 ∷ [])
  unfolding message sees
  client-Agrees l p h = Agrees-message 1 client l p (λ seen. refl) (λ w b. refl) h

  pub stop-Agrees : (l : Listing) (p : List Chunk) → Agrees v l p → Agrees v l (p ++ int 4 ∷ [])
  unfolding message sees
  stop-Agrees l p h = Agrees-message 4 stop l p (λ seen. refl) (λ w b. refl) h
