-- ===== src/Monitor.antt =====
-- The active health check, `ActiveDetect` of src/proxy/server_monitor.cc: a thread that probes the
-- servers it has read from the list, counts the failures of each, and rewrites the list.
-- `reach` says for one round which servers accept a connection.
pub mod Safety
pub mod Blame
pub mod Counts
pub mod Exits
mod Tests
use proxy_for_distribution_s.Base.{
  ℕ, ◌+◌, leb, Bool, true, false, if◌then◌else◌, List, [], ◌∷◌, Option, none, some, length,
  get_elem?, set, ◌>>=◌, replicate,
}
use proxy_for_distribution_s.Registry.{
  Server, Listing, Json, Gateway, ok, failed, load_server_list, set_server_down, set_server_up,
}

-- The locals of the thread. `running` falls when the thread exits; `sockets` counts the
-- descriptors that `ConnectServer` opened and that nothing closed.
pub record Detector : Type 0 where
  pub servers : Listing
  pub fail_num : List ℕ
  pub reload_flag : Bool
  pub running : Bool
  pub sockets : ℕ

abbrev pub World : Type 0
World = Gateway × Detector

-- The head of the loop body. A list that does not load ends the thread.
pub reload : Json → World → Detector
reload j (g, d) =
    if d.reload_flag
    then elim (load_server_list j g d.servers) [
      | none ↦ record d { running = false }
      | some l ↦ record d { servers = l; fail_num = replicate (length l.up) 0; reload_flag = false }
    ]
    else d

module _ (j : Json) (maxfails : ℕ) (reach : Server → Bool) where
  -- One turn of the loop over `server_up`; the flag is its `break`. `none` is an access to
  -- `fail_num` out of range.
  pub check_up : ℕ → Server → World → Option (World × Bool)
  check_up server_id s (g, d) =
      if reach s then some ((g, d), false) else elim (get_elem? d.fail_num server_id) [
        | none ↦ none
        | some n ↦
            let d' = record d {
              fail_num = set d.fail_num server_id (n + 1);
              sockets = d.sockets + 1;
            } in
            if leb maxfails (n + 1)
            then some (((set_server_down j s g).0, record d' { reload_flag = true }), true)
            else some ((g, d'), false)
      ]

  pub probe_up : List Server → ℕ → World → Option World
  probe_up [] server_id w = some w
  probe_up (s ∷ ss) server_id w = do
    (w', stop) ← check_up server_id s w
    if stop then some w' else probe_up ss (server_id + 1) w'

  -- The loop over `server_down`, which ends at the first server that answers.
  pub probe_down : List Server → World → World
  probe_down [] w = w
  probe_down (s ∷ ss) (g, d) =
      let d' = record d { sockets = d.sockets + 1 } in
      if reach s
      then (let (g', ret) = set_server_up j s g in
          elim ret [
            | failed ↦ (g', record d' { running = false })
            | ok ↦ (g', record d' { reload_flag = true })
          ])
      else probe_down ss (g, d')

  probe : World → Option World
  unfolding probe_up probe_down
  probe (g, d) = do w ← probe_up d.servers.up 0 (g, d); some (probe_down d.servers.down w)

  -- One turn of `while (m_running)`.
  unfoldable pub round : World → Option World
  unfolding reload probe
  round (g, d) =
      if d.running
      then (let d' = reload j (g, d) in if d'.running then probe (g, d') else some (g, d'))
      else some (g, d)
