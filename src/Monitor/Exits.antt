-- ===== src/Monitor/Exits.antt =====
-- How the thread of `ActiveDetect` (src/proxy/server_monitor.cc) ends, and what it leaves open.
use proxy_for_distribution_s.Base.{
  ℕ, ◌+◌, ◌≤◌, ◌<◌, Bool, true, false, List, [], ◌∷◌, some, ◌≡◌, ◌≢◌, refl, arith, inl, inr,
  >>=-eq-some, subst, sym, All, ◌∙◌, ◌⊎◌,
}
use proxy_for_distribution_s.Registry.{
  Server, Json, IsFaithful, Gateway, ok, failed, has, set_server_up, logout_server,
}
use proxy_for_distribution_s.Registry.Lists.{strip-hit, has-strip, same_refl}
use proxy_for_distribution_s.Registry.View.{listing, run, logout, change, run-change}
use proxy_for_distribution_s.Monitor.{
  Detector, World, check_up, probe_up, probe_down, reload, probe, round,
}

module _ (j : Json) (maxfails : ℕ) (reach : Server → Bool) where
  probe_up_healthy :
      (ss : List Server) (i : ℕ) (w : World)
      → All (λ s. reach s ≡ true) ss
      → probe_up j maxfails reach ss i w ≡ some w
  unfolding probe_up check_up
  probe_up_healthy [] i w h = refl
  probe_up_healthy (s ∷ ss) i w h = ground (arith, probe_up_healthy ss (i + 1) w)

  set_server_up_unknown :
      (s : Server) (g : Gateway)
      → has s (listing j g).down ≡ false
      → set_server_up j s g ≡ (g, failed)
  unfolding set_server_up
  set_server_up_unknown s g h = ground (arith, strip-hit s (listing j g).down)

  check_up_opens :
      (i : ℕ) (s : Server) (w w' : World) (stop : Bool)
      → check_up j maxfails reach i s w ≡ some (w', stop)
      → w.1.sockets ≤ w'.1.sockets
  unfolding check_up
  check_up_opens i s (g, d) w' stop e = ground arith

  probe_up_opens :
      (ss : List Server) (i : ℕ) (w w' : World)
      → probe_up j maxfails reach ss i w ≡ some w'
      → w.1.sockets ≤ w'.1.sockets
  unfolding probe_up
  probe_up_opens [] i w w' e = ground arith
  probe_up_opens (s ∷ ss) i w w' e =
      let ((w1, stop), c, rest) = >>=-eq-some (check_up j maxfails reach i s w) _ e in
      ground (arith, check_up_opens i s w w1 stop c, probe_up_opens ss (i + 1) w1 w')

  probe_down_opens :
      (ss : List Server) (g : Gateway) (d : Detector)
      → ((ss ≡ []) ⊎ (d.sockets < (probe_down j maxfails reach ss (g, d)).1.sockets))
        × (d.sockets ≤ (probe_down j maxfails reach ss (g, d)).1.sockets)
  unfolding probe_down
  probe_down_opens [] g d = (inl refl, omega arith)
  probe_down_opens (s ∷ ss) g d =
      let rest = probe_down_opens ss g (record d { sockets = d.sockets + 1 }) in
      ground (arith, rest.1)

  round_steady :
      (g : Gateway) (d : Detector)
      → d.running ≡ true
      → d.reload_flag ≡ false
      → round j maxfails reach (g, d) ≡ probe j maxfails reach (g, d)
  unfolding round reload
  round_steady g d on q = ground arith

  -- A round that goes by a list with a server marked down ends with more sockets open than it
  -- began with: the socket of a probe of a server marked down is never closed.
  pub round_leaks :
      (g : Gateway) (d : Detector) (w' : World)
      → d.running ≡ true
      → d.reload_flag ≡ false
      → d.servers.down ≢ []
      → round j maxfails reach (g, d) ≡ some w'
      → d.sockets < w'.1.sockets
  unfolding probe
  round_leaks g d w' on q some_down e =
      let (u, up, down) =
        >>=-eq-some (probe_up j maxfails reach d.servers.up 0 (g, d)) _
          (sym (round_steady g d on q) ∙ e) in
      let end : probe_down j maxfails reach d.servers.down u ≡ w' = ground arith in
      let opened = probe_down_opens d.servers.down u.0 u.1 in
      let opened_up = probe_up_opens d.servers.up 0 (g, d) u up in
      subst (λ x. d.sockets < x.1.sockets) end
        (elim opened.0 [ inl none_down ↦ absurd (some_down none_down) | inr more ↦ omega arith ])

  logged_out :
      IsFaithful j
      → (s : Server) (g : Gateway) → (logout_server j s g).1 ≡ ok
      → has s (listing j (logout_server j s g).0).down ≡ false
  unfolding run change
  logged_out f s g e =
      rw (run-change f s g logout e) (ground (arith, has-strip s s (listing j g).down, same_refl s))

  -- A server that was marked down has logged out, and the thread still holds the list from before,
  -- with that server first among those marked down. Then the next round in which that server and all
  -- those that are up accept a connection changes nothing but ends the thread for good.
  round_exits :
      IsFaithful j
      → (s : Server) (rest : List Server) (g : Gateway) (d : Detector)
      → (logout_server j s g).1 ≡ ok
      → d.running ≡ true
      → d.reload_flag ≡ false
      → d.servers.down ≡ s ∷ rest
      → All (λ t. reach t ≡ true) d.servers.up
      → reach s ≡ true
      → let g' = (logout_server j s g).0 in
        round j maxfails reach (g', d)
        ≡ some (g', record d { running = false; sockets = d.sockets + 1 })
  unfolding probe probe_down
  round_exits f s rest g d e on q down up r =
      let g' = (logout_server j s g).0 in
      round_steady g' d on q
      ∙ ground (
        arith,
        probe_up_healthy d.servers.up 0 (g', d) up,
        set_server_up_unknown s g' (logged_out f s g e),
      )
