-- ===== src/Worker/Backends.antt =====
-- The connections of a worker to the servers, include/pool.h: `m_Serverlist` and `m_server_info`, the
-- cases 2 and 3 of `pipe_event_CallBack`, and `work_server_event_cb`. Whether `connect` succeeds is an
-- argument, and so are the socket and the bufferevent that it gives.
pub mod Swap
pub mod Pairs
pub mod Start
mod Tests
use proxy_for_distribution_s.Base.{
  ℕ, zero, suc, ◌+◌, ◌-◌, ltb, ◌==◌, Text, text_eq, Bool, true, false, if◌then◌else◌, List, [], ◌∷◌,
  ◌++◌, Option, none, some, length, get_elem?, set, take,
}
use proxy_for_distribution_s.Worker.State.{
  Result, ok, died, overflow, double_free, ◌>>=◌, or_die, set_at,
}

pub record Backends : Type 0 where
  -- A socket and its bufferevent.
  pub server_list : List (ℕ × ℕ)
  -- A bufferevent and "ip:port".
  pub server_info : List (ℕ × Text)
  -- Which bufferevents are allocated.
  pub open_bevs : ℕ → Bool
  -- The addresses that were reported to the gateway as broken.
  pub reports : List Text

-- The index of the first entry for which the loops look, or the length.
unfoldable pub index {ℓ} : {A : Type ℓ} → (A → Bool) → List A → ℕ
index f [] = 0
index f (x ∷ xs) = let rest = index f xs in if f x then 0 else suc rest

-- `swap(v[ind], v.back()); v.pop_back();`, which is undefined out of range.
unfoldable pub swap_out {ℓ} : {A : Type ℓ} → ℕ → List A → Option (List A)
swap_out ind xs = elim (get_elem? xs (length xs - 1)) [
  | none ↦ none
  | some back ↦ if ltb ind (length xs) then some (take (length xs - 1) (set xs ind back)) else none
]

-- `bufferevent_free`
unfoldable pub free_bev : ℕ → Backends → Result Backends
free_bev bev b =
    if b.open_bevs bev
    then ok (record b { open_bevs = set_at b.open_bevs bev false })
    else died double_free

-- Case 2: `none` is a server that does not accept.
unfoldable pub server_joins : Option (ℕ × ℕ) → Text → Backends → Backends
server_joins none ip_port b = b
server_joins (some (sockfd, bev)) ip_port b = record b {
  server_list = b.server_list ++ (sockfd, bev) ∷ [];
  server_info = b.server_info ++ (bev, ip_port) ∷ [];
  open_bevs = set_at b.open_bevs bev true;
}

-- Case 3
unfoldable pub server_leaves : Text → Backends → Result Backends
unfolding index swap_out free_bev
server_leaves ip_port b =
    let ind = index (λ e. text_eq e.1 ip_port) b.server_info in
    elim (get_elem? b.server_info ind) [
      | none ↦ ok b
      | some e ↦ do
        left ← or_die (swap_out ind b.server_list) overflow
        free_bev e.0 (record b { server_list = left })
    ]

-- `work_server_event_cb`, with the bufferevent's descriptor.
unfoldable pub server_fails : ℕ → ℕ → Backends → Result Backends
unfolding index swap_out free_bev
server_fails sockfd bev b = do
  left ← or_die (swap_out (index (λ e. e.0 == sockfd) b.server_list) b.server_list) overflow
  let ind = index (λ e. e.0 == bev) b.server_info
  e ← or_die (get_elem? b.server_info ind) overflow
  infos ← or_die (swap_out ind b.server_info) overflow
  b' ← free_bev bev (record b { server_list = left; server_info = infos })
  ok (record b' { reports = b'.reports ++ e.1 ∷ [] })
