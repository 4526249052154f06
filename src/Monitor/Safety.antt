-- ===== src/Monitor/Safety.antt =====
-- `fail_num` is indexed in range: `ActiveDetect` of src/proxy/server_monitor.cc.
use proxy_for_distribution_s.Base.{
  ℕ, ◌+◌, ◌<◌, Bool, true, false, List, [], ◌∷◌, length, get_elem?-lt, ◌≡◌, arith, length-set,
  length-replicate, Option-cases, Returns, Returns->>=, Returns-if, Returns-mono, ◌≤◌, inl, inr,
}
use proxy_for_distribution_s.Registry.{Server, Json, Gateway, load_server_list}
use proxy_for_distribution_s.Monitor.{
  Detector, check_up, probe_up, probe_down, reload, probe, round,
}

-- Between two reloads there is one counter for each server that is up.
abbrev pub IsSized : Detector → Type 0
IsSized d = d.reload_flag ≡ false → length d.fail_num ≡ length d.servers.up

-- What a loop over the servers leaves alone.
record Keeps (d d' : Detector) : Type 0 where
  same_servers : d'.servers ≡ d.servers
  same_length : length d'.fail_num ≡ length d.fail_num

Keeps-trans : {a b c : Detector} → Keeps a b → Keeps b c → Keeps a c
Keeps-trans p q = ground arith

-- A reload that does not end the thread leaves one counter for each server that is up.
reload-IsSized :
    (j : Json) (g : Gateway) (d : Detector)
    → IsSized d
    → ((reload j (g, d)).running ≡ true
        → length (reload j (g, d)).fail_num ≡ length (reload j (g, d)).servers.up)
      × IsSized (reload j (g, d))
unfolding reload
reload-IsSized j g d h = elim (Option-cases (load_server_list j g d.servers)) [
  | inl e ↦ (λ go. ground arith, λ off. ground arith)
  | inr (l, e) ↦ (
    λ go. ground (arith, length-replicate {A = ℕ} (length l.up) 0),
    λ off. ground (arith, length-replicate {A = ℕ} (length l.up) 0),
  )
]

module _ (j : Json) (maxfails : ℕ) (reach : Server → Bool) where
  check_up_safe :
      (i : ℕ) (s : Server) (g : Gateway) (d : Detector)
      → i < length d.fail_num
      → Returns (λ r. Keeps d r.0.1) (check_up j maxfails reach i s (g, d))
  unfolding check_up
  check_up_safe i s g d h =
      let (n, e) = get_elem?-lt d.fail_num i h in ground (arith, length-set d.fail_num i (n + 1))

  probe_up_safe :
      (ss : List Server) (i : ℕ) (g : Gateway) (d : Detector)
      → i + length ss ≤ length d.fail_num
      → Returns (λ w. Keeps d w.1) (probe_up j maxfails reach ss i (g, d))
  unfolding probe_up
  probe_up_safe [] i g d h = ground arith
  probe_up_safe (s ∷ ss) i g d h =
      Returns->>= (λ r. Keeps d r.0.1) (λ w. Keeps d w.1) (check_up j maxfails reach i s (g, d)) _
        (check_up_safe i s g d (omega arith))
        λ r kept.
          Returns-if (λ w. Keeps d w.1) r.1 _ _ (λ _. kept)
            λ _.
              Returns-mono (λ w. Keeps r.0.1 w.1) (λ w. Keeps d w.1) _ (λ w k. Keeps-trans kept k)
                (probe_up_safe ss (i + 1) r.0.0 r.0.1 (omega (arith, kept.same_length)))

  probe_down-Keeps :
      (ss : List Server) (g : Gateway) (d : Detector)
      → Keeps d (probe_down j maxfails reach ss (g, d)).1
  unfolding probe_down
  probe_down-Keeps [] g d = ground arith
  probe_down-Keeps (s ∷ ss) g d =
      ground (arith, probe_down-Keeps ss g (record d { sockets = d.sockets + 1 }))

  probe_safe :
      (g : Gateway) (d : Detector)
      → length d.fail_num ≡ length d.servers.up
      → Returns (λ w. Keeps d w.1) (probe j maxfails reach (g, d))
  unfolding probe
  probe_safe g d h =
      Returns->>= (λ w. Keeps d w.1) (λ w. Keeps d w.1)
        (probe_up j maxfails reach d.servers.up 0 (g, d)) _
        (probe_up_safe d.servers.up 0 g d (omega arith))
        λ w kept. Keeps-trans kept (probe_down-Keeps d.servers.down w.0 w.1)

  -- Where there is one counter for each server that the thread holds as up, unless it is about to
  -- reload, a round reads and writes `fail_num` in range and leaves it so.
  pub round-IsSized :
      (g : Gateway) (d : Detector)
      → IsSized d
      → Returns (λ w. IsSized w.1) (round j maxfails reach (g, d))
  unfolding round
  round-IsSized g d h =
      let sized = reload-IsSized j g d h in
      Returns-if (λ w. IsSized w.1) d.running _ _
        (λ on.
          Returns-if (λ w. IsSized w.1) (reload j (g, d)).running _ _
            (λ go.
              Returns-mono (λ w. Keeps (reload j (g, d)) w.1) (λ w. IsSized w.1) _
                (λ w k e. ground (arith, sized.0 go, k))
                (probe_safe g (reload j (g, d)) (sized.0 go)))
            (λ _. sized.1))
        (λ _. h)
