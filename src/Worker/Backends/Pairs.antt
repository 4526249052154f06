-- ===== src/Worker/Backends/Pairs.antt =====
-- The two lists of servers of a worker, include/pool.h, keep in step when a server joins or fails, and
-- not when it leaves by a notice.
use mathlib.Core.List.{Perm}
use proxy_for_distribution_s.Base.{
  ℕ, zero, suc, ◌-◌, ◌<◌, ltb, ◌==◌, Text, text_eq, true, false, List, [], ◌∷◌, ◌++◌, Option, none,
  some, length, get_elem?, set, take, ◌≡◌, refl, arith, ap, sym, ◌∙◌, subst, Bool, Bool-cases, ◌≢◌,
  Option-cases, inl, inr, get_elem?-lt, lt_of_get_elem?,
}
use proxy_for_distribution_s.Worker.State.{ok, died, Death, overflow, double_free, set_at}
use proxy_for_distribution_s.Worker.Backends.Swap.{swap_out-Perm}
use proxy_for_distribution_s.Worker.Backends.{
  Backends, index, swap_out, free_bev, server_joins, server_leaves, server_fails,
}

-- Entry by entry, the two lists have the same bufferevents.
unfoldable pub InStep : List (ℕ × ℕ) → List (ℕ × Text) → Type 0
InStep [] [] = Unit
InStep [] (i ∷ is) = ⊥
InStep (s ∷ ss) [] = ⊥
InStep (s ∷ ss) (i ∷ is) = (s.1 ≡ i.0) × InStep ss is

-- A notice of a server whose entry is that of a connection that was freed.
server_leaves-shut :
    (ip_port : Text) (b : Backends) (e : ℕ × Text)
    → get_elem? b.server_info (index (λ i. text_eq i.1 ip_port) b.server_info) ≡ some e
    → b.open_bevs e.0 ≡ false
    → (how : Death) × (server_leaves ip_port b ≡ died how)
unfolding server_leaves free_bev
server_leaves-shut ip_port b e found shut =
    elim (Option-cases (swap_out (index (λ i. text_eq i.1 ip_port) b.server_info) b.server_list)) [
      | inl short ↦ (overflow, ground arith)
      | inr (left, out) ↦ (double_free, ground arith)
    ]

-- A notice that succeeds leaves the infos, and the connection of the entry freed.
server_leaves-frees :
    (ip_port : Text) (b b' : Backends) (e : ℕ × Text)
    → get_elem? b.server_info (index (λ i. text_eq i.1 ip_port) b.server_info) ≡ some e
    → server_leaves ip_port b ≡ ok b'
    → (b'.server_info ≡ b.server_info) × (b'.open_bevs e.0 ≡ false)
unfolding server_leaves free_bev
server_leaves-frees ip_port b b' e found first =
    elim (Option-cases (swap_out (index (λ i. text_eq i.1 ip_port) b.server_info) b.server_list)) [
      | inl bad ↦ absurd (ground arith)
      | inr (left, done) ↦ elim (Bool-cases (b.open_bevs e.0)) [
        | inr shut ↦ absurd (ground arith)
        | inl was_open ↦
            let after : Backends = record b {
              server_list = left;
              open_bevs = set_at b.open_bevs e.0 false;
            } in
            let same : after ≡ b' = ground arith in
            subst (λ x. (x.server_info ≡ b.server_info) × (x.open_bevs e.0 ≡ false)) same
              (refl, ground arith)
      ]
    ]

-- A notice that a server is down frees its bufferevent and leaves its entry in `server_info`, so that
-- a second notice of the same server brings the process down.
server_leaves-server_leaves :
    (ip_port : Text) (b b' : Backends) (e : ℕ × Text)
    → get_elem? b.server_info (index (λ i. text_eq i.1 ip_port) b.server_info) ≡ some e
    → server_leaves ip_port b ≡ ok b'
    → (how : Death) × (server_leaves ip_port b' ≡ died how)
server_leaves-server_leaves ip_port b b' e found first =
    let (infos, shut) = server_leaves-frees ip_port b b' e found first in
    let look : List (ℕ × Text) → Option (ℕ × Text) =
      λ is. get_elem? is (index (λ i. text_eq i.1 ip_port) is) in
    server_leaves-shut ip_port b' e (ap look infos ∙ found) shut

index-append :
    {A : Type 0} (f : A → Bool) (xs ys : List A) (e : A)
    → get_elem? xs (index f xs) ≡ some e
    → index f (xs ++ ys) ≡ index f xs
unfolding index
index-append f [] ys e at = absurd (cc)
index-append f (x ∷ xs) ys e at = elim (Bool-cases (f x)) [
  | inl here ↦ rw (here, index) refl
  | inr on ↦
      let step : index f (x ∷ xs) ≡ suc (index f xs) = rw (on, index) refl in
      rw (on, index) (ap suc (index-append f xs ys e (ap (get_elem? (x ∷ xs)) (sym step) ∙ at)))
]

get_elem?-append :
    {A : Type 0} (xs ys : List A) (i : ℕ) (e : A)
    → get_elem? xs i ≡ some e
    → get_elem? (xs ++ ys) i ≡ some e
get_elem?-append [] ys i e at = absurd (cc)
get_elem?-append (x ∷ xs) ys zero e at = at
get_elem?-append (x ∷ xs) ys (suc i) e at = get_elem?-append xs ys i e at

-- A server that a worker has is marked down, and its connection is freed. It is marked up, and the
-- worker connects to it with another bufferevent. Then the next notice that it is down brings the
-- process down, since its old entry is still in `server_info`.
pub server_leaves-server_joins :
    (ip_port : Text) (b b' : Backends) (e : ℕ × Text) (sockfd bev : ℕ)
    → get_elem? b.server_info (index (λ i. text_eq i.1 ip_port) b.server_info) ≡ some e
    → server_leaves ip_port b ≡ ok b'
    → bev ≢ e.0
    → (how : Death) × (server_leaves ip_port (server_joins (some (sockfd, bev)) ip_port b')
        ≡ died how)
unfolding server_joins
server_leaves-server_joins ip_port b b' e sockfd bev found first other =
    let (infos, shut) = server_leaves-frees ip_port b b' e found first in
    let found' : get_elem? b'.server_info (index (λ i. text_eq i.1 ip_port) b'.server_info)
        ≡ some e =
      ap (λ is. get_elem? is (index (λ i. text_eq i.1 ip_port) is)) infos ∙ found in
    server_leaves-shut ip_port (server_joins (some (sockfd, bev)) ip_port b') e
      (ap (get_elem? (b'.server_info ++ (bev, ip_port) ∷ []))
          (index-append (λ i. text_eq i.1 ip_port) b'.server_info ((bev, ip_port) ∷ []) e found')
        ∙ get_elem?-append b'.server_info ((bev, ip_port) ∷ [])
            (index (λ i. text_eq i.1 ip_port) b'.server_info) e found')
      (ground (arith, other))

InStep-length : (ss : List (ℕ × ℕ)) (is : List (ℕ × Text)) → InStep ss is → length ss ≡ length is
unfolding InStep
InStep-length [] [] h = refl
InStep-length [] (i ∷ is) h = absurd h
InStep-length (s ∷ ss) [] h = absurd h
InStep-length (s ∷ ss) (i ∷ is) (same, h) = ap suc (InStep-length ss is h)

InStep-get :
    (ss : List (ℕ × ℕ)) (is : List (ℕ × Text)) (k : ℕ) (s : ℕ × ℕ)
    → InStep ss is
    → get_elem? ss k ≡ some s
    → (i : ℕ × Text) × (get_elem? is k ≡ some i) × (s.1 ≡ i.0)
unfolding InStep
InStep-get [] is k s h e = absurd (cc)
InStep-get (t ∷ ss) [] k s h e = absurd h
InStep-get (t ∷ ss) (i ∷ is) zero s (same, h) e = (i, refl, ground arith)
InStep-get (t ∷ ss) (i ∷ is) (suc k) s (same, h) e = InStep-get ss is k s h e

InStep-set :
    (ss : List (ℕ × ℕ)) (is : List (ℕ × Text)) (k : ℕ) (s : ℕ × ℕ) (i : ℕ × Text)
    → InStep ss is
    → s.1 ≡ i.0
    → InStep (set ss k s) (set is k i)
unfolding InStep
InStep-set [] [] k s i h e = tt
InStep-set [] (j ∷ is) k s i h e = absurd h
InStep-set (t ∷ ss) [] k s i h e = absurd h
InStep-set (t ∷ ss) (j ∷ is) zero s i (same, h) e = (e, h)
InStep-set (t ∷ ss) (j ∷ is) (suc k) s i (same, h) e = (same, InStep-set ss is k s i h e)

InStep-take :
    (n : ℕ) (ss : List (ℕ × ℕ)) (is : List (ℕ × Text))
    → InStep ss is
    → InStep (take n ss) (take n is)
unfolding InStep
InStep-take zero ss is h = tt
InStep-take (suc n) [] [] h = tt
InStep-take (suc n) [] (j ∷ is) h = absurd h
InStep-take (suc n) (t ∷ ss) [] h = absurd h
InStep-take (suc n) (t ∷ ss) (j ∷ is) (same, h) = (same, InStep-take n ss is h)

InStep-append :
    (ss : List (ℕ × ℕ)) (is : List (ℕ × Text)) (s : ℕ × ℕ) (i : ℕ × Text)
    → InStep ss is
    → s.1 ≡ i.0
    → InStep (ss ++ s ∷ []) (is ++ i ∷ [])
unfolding InStep
InStep-append [] [] s i h e = (e, tt)
InStep-append [] (j ∷ is) s i h e = absurd h
InStep-append (t ∷ ss) [] s i h e = absurd h
InStep-append (t ∷ ss) (j ∷ is) s i (same, h) e = (same, InStep-append ss is s i h e)

index-InStep :
    (bev : ℕ) (ss : List (ℕ × ℕ)) (is : List (ℕ × Text))
    → InStep ss is
    → index (λ s. s.1 == bev) ss ≡ index (λ i. i.0 == bev) is
unfolding InStep index
index-InStep bev [] [] h = refl
index-InStep bev [] (j ∷ is) h = absurd h
index-InStep bev (t ∷ ss) [] h = absurd h
index-InStep bev (t ∷ ss) (j ∷ is) (same, h) = ground (arith, index-InStep bev ss is h)

swap_out-some :
    {A : Type 0} (k : ℕ) (xs : List A) (z : A)
    → get_elem? xs (length xs - 1) ≡ some z
    → k < length xs
    → swap_out k xs ≡ some (take (length xs - 1) (set xs k z))
unfolding swap_out
swap_out-some k xs z at low = let inside : ltb k (length xs) ≡ true = ground arith in ground arith

swap_out-InStep :
    (k : ℕ) (ss : List (ℕ × ℕ)) (is : List (ℕ × Text))
    → InStep ss is
    → k < length ss
    → (ss' : List (ℕ × ℕ)) × (is' : List (ℕ × Text)) × (swap_out k ss ≡ some ss')
      × (swap_out k is ≡ some is')
      × InStep ss' is'
swap_out-InStep k ss is h low =
    let long = InStep-length ss is h in
    let (s, at) = get_elem?-lt ss (length ss - 1) (omega arith) in
    let (i, at', same) = InStep-get ss is (length ss - 1) s h at in
    (
      take (length ss - 1) (set ss k s),
      take (length ss - 1) (set is k i),
      swap_out-some k ss s at low,
      subst (λ n. swap_out k is ≡ some (take (n - 1) (set is k i))) (sym long)
          (swap_out-some k is i (subst (λ n. get_elem? is (n - 1) ≡ some i) long at')
            (omega arith)),
      InStep-take (length ss - 1) (set ss k s) (set is k i) (InStep-set ss is k s i h same),
    )

-- Where the two lists are in step, a server that joins keeps them so.
pub server_joins-InStep :
    (made : Option (ℕ × ℕ)) (ip_port : Text) (b : Backends)
    → InStep b.server_list b.server_info
    → InStep (server_joins made ip_port b).server_list (server_joins made ip_port b).server_info
unfolding server_joins
server_joins-InStep none ip_port b h = h
server_joins-InStep (some (sockfd, bev)) ip_port b h =
    InStep-append b.server_list b.server_info (sockfd, bev) (bev, ip_port) h refl

-- Where the two lists are in step, the connection to a server that fails, known by its socket and its
-- bufferevent alike and not freed before, is taken out of both lists and freed; the other entries
-- stay, in another order, and in step; and the server is reported.
pub server_fails-InStep :
    (k sockfd bev : ℕ) (b : Backends)
    → InStep b.server_list b.server_info
    → get_elem? b.server_list k ≡ some (sockfd, bev)
    → index (λ s. s.0 == sockfd) b.server_list ≡ k
    → index (λ s. s.1 == bev) b.server_list ≡ k
    → b.open_bevs bev ≡ true
    → (b' : Backends) × (i : ℕ × Text) × (server_fails sockfd bev b ≡ ok b')
      × (get_elem? b.server_info k ≡ some i)
      × InStep b'.server_list b'.server_info
      × Perm b.server_list ((sockfd, bev) ∷ b'.server_list)
      × Perm b.server_info (i ∷ b'.server_info)
      × (b'.open_bevs bev ≡ false)
      × (b'.reports ≡ b.reports ++ i.1 ∷ [])
unfolding server_fails free_bev
server_fails-InStep k sockfd bev b h at by_sock by_bev is_open =
    let (i, at', same) = InStep-get b.server_list b.server_info k (sockfd, bev) h at in
    let (ss', is', out, out', h') =
      swap_out-InStep k b.server_list b.server_info h
        (lt_of_get_elem? b.server_list k (sockfd, bev) at) in
    let by_info : index (λ e. e.0 == bev) b.server_info ≡ k =
      sym (index-InStep bev b.server_list b.server_info h) ∙ by_bev in
    (
      record b {
        server_list = ss';
        server_info = is';
        open_bevs = set_at b.open_bevs bev false;
        reports = b.reports ++ i.1 ∷ [];
      },
      i,
      rw (by_sock, out, by_info, at', out', is_open) refl,
      at',
      h',
      swap_out-Perm k b.server_list ss' (sockfd, bev) at out,
      swap_out-Perm k b.server_info is' i at' out',
      ground arith,
      refl,
    )
