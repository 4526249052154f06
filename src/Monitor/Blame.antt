-- ===== src/Monitor/Blame.antt =====
-- Which servers a round of `ActiveDetect` (src/proxy/server_monitor.cc) moves, and why.
use proxy_for_distribution_s.Base.{
  ℕ, suc, ◌+◌, ◌≤◌, leb, Bool, true, false, List, [], ◌∷◌, some, get_elem?, ◌≡◌, refl, arith,
  Bool-cases, Option-cases, inl, inr, ◌⊎◌, >>=-eq-some, get_elem?-set_ne, subst, sym, ◌∙◌, ◌≢◌,
  ◌&&◌,
}
use proxy_for_distribution_s.Registry.{Server, Json, Gateway, set_server_down, set_server_up}
use proxy_for_distribution_s.Monitor.{
  Detector, World, check_up, probe_up, probe_down, reload, probe, round,
}

module _ (j : Json) (maxfails : ℕ) (reach : Server → Bool) where
  -- The gateway is as it was, or one server was marked down: one that refused the connection and
  -- whose counter, `m` before, comes to `maxfails` by that. Its place in the array is `k`.
  pub data Fell (start : ℕ) (ss : List Server) (fails : List ℕ) (g g' : Gateway) : Type 0 where
    none_fell : g' ≡ g → Fell start ss fails g g'
    one_fell :
        (k m : ℕ) (s : Server)
        → get_elem? ss k ≡ some s
        → reach s ≡ false
        → get_elem? fails (start + k) ≡ some m
        → maxfails ≤ m + 1
        → g' ≡ (set_server_down j s g).0
        → Fell start ss fails g g'

  -- The gateway is as it was, or one server that accepted the connection was marked up.
  pub data Rose (ss : List Server) (g g' : Gateway) : Type 0 where
    none_rose : g' ≡ g → Rose ss g g'
    one_rose :
        (k : ℕ) (s : Server)
        → get_elem? ss k ≡ some s
        → reach s ≡ true
        → g' ≡ (set_server_up j s g).0
        → Rose ss g g'

  check_up_cases :
      (i : ℕ) (s : Server) (w w' : World) (stop : Bool)
      → check_up j maxfails reach i s w ≡ some (w', stop)
      → (stop ≡ false)
          × (w'.0 ≡ w.0)
          × ((k : ℕ) → i ≢ k → get_elem? w'.1.fail_num k ≡ get_elem? w.1.fail_num k)
        ⊎ ((m : ℕ) × (stop ≡ true)
            × (reach s ≡ false)
            × (get_elem? w.1.fail_num i ≡ some m)
            × (maxfails ≤ m + 1)
            × (w'.0 ≡ (set_server_down j s w.0).0))
  unfolding check_up
  check_up_cases i s (g, d) w' stop e = elim (Bool-cases (reach s)) [
    | inl r ↦ inl (ground arith, ground arith, λ k ne. ground arith)
    | inr r ↦ elim (Option-cases (get_elem? d.fail_num i)) [
      | inl o ↦ absurd (ground arith)
      | inr (n, o) ↦ elim (Bool-cases (leb maxfails (n + 1))) [
        | inl b ↦ inr (n, ground arith, r, o, ground arith, ground arith)
        | inr b ↦ inl (
          ground arith,
          ground arith,
          λ k ne. ground (arith, get_elem?-set_ne d.fail_num (n + 1) ne),
        )
      ]
    ]
  ]

  Fell-later :
      {start : ℕ} {s : Server} {ss : List Server} {fails fails' : List ℕ} {g g' : Gateway}
      → ((k : ℕ) → start ≢ k → get_elem? fails' k ≡ get_elem? fails k)
      → Fell (start + 1) ss fails' g g'
      → Fell start (s ∷ ss) fails g g'
  Fell-later same (none_fell e) = none_fell e
  Fell-later {start} {fails} same (one_fell k m s at r c most e) =
      one_fell (suc k) m s at r
        (subst (λ i. get_elem? fails i ≡ some m) (omega arith)
          (sym (same (start + 1 + k) (λ e'. omega (arith, e'))) ∙ c))
        most e

  probe_up-Fell :
      (ss : List Server) (i : ℕ) (w w' : World)
      → probe_up j maxfails reach ss i w ≡ some w'
      → Fell i ss w.1.fail_num w.0 w'.0
  unfolding probe_up
  probe_up-Fell [] i w w' e = none_fell (ground arith)
  probe_up-Fell (s ∷ ss) i w w' e =
      let ((w1, stop), c, rest) = >>=-eq-some (check_up j maxfails reach i s w) _ e in
      elim (check_up_cases i s w w1 stop c) [
        | inl (on, same, others) ↦
            subst (λ g. Fell i (s ∷ ss) w.1.fail_num g w'.0) same
              (Fell-later others (probe_up-Fell ss (i + 1) w1 w' (ground arith)))
        | inr (m, off, r, f, most, g') ↦
            one_fell 0 m s refl r (subst (λ k. get_elem? w.1.fail_num k ≡ some m) (omega arith) f)
              most (ground arith)
      ]

  Rose-later : {s : Server} {ss : List Server} {g g' : Gateway} → Rose ss g g' → Rose (s ∷ ss) g g'
  Rose-later (none_rose e) = none_rose e
  Rose-later (one_rose k s at r e) = one_rose (suc k) s at r e

  probe_down-Rose :
      (ss : List Server) (g : Gateway) (d : Detector)
      → Rose ss g (probe_down j maxfails reach ss (g, d)).0
  unfolding probe_down
  probe_down-Rose [] g d = none_rose refl
  probe_down-Rose (s ∷ ss) g d = elim (Bool-cases (reach s)) [
    | inl r ↦ one_rose 0 s refl r (ground arith)
    | inr r ↦ rw r (Rose-later (probe_down-Rose ss g (record d { sockets = d.sockets + 1 })))
  ]

  probe-Fell-Rose :
      (g : Gateway) (d : Detector) (w' : World)
      → probe j maxfails reach (g, d) ≡ some w'
      → (g1 : Gateway) × Fell 0 d.servers.up d.fail_num g g1 × Rose d.servers.down g1 w'.0
  unfolding probe
  probe-Fell-Rose g d w' e =
      let (w, up, down) = >>=-eq-some (probe_up j maxfails reach d.servers.up 0 (g, d)) _ e in
      (
        w.0,
        probe_up-Fell d.servers.up 0 (g, d) w up,
        subst (Rose d.servers.down w.0) (ground arith) (probe_down-Rose d.servers.down w.0 w.1),
      )

  -- A round marks at most one server down and then at most one up. The one that it marks down was
  -- up in the list that the round goes by, refused the connection, and came to `maxfails` failures by
  -- that, counted from what its counter was when the round began to probe; the one that it marks up
  -- was down in that list and accepted the connection.
  pub round-Fell-Rose :
      (g g' : Gateway) (d d' : Detector)
      → round j maxfails reach (g, d) ≡ some (g', d')
      → (g1 : Gateway) × Fell 0 (reload j (g, d)).servers.up (reload j (g, d)).fail_num g g1
        × Rose (reload j (g, d)).servers.down g1 g'
  unfolding round
  round-Fell-Rose g g' d d' e = elim (Bool-cases (d.running && (reload j (g, d)).running)) [
    | inl go ↦ probe-Fell-Rose g (reload j (g, d)) (g', d') (ground arith)
    | inr still ↦ (g, none_fell refl, none_rose (ground arith))
  ]
