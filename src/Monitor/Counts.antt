-- ===== src/Monitor/Counts.antt =====
-- How long a dead server can stay unnoticed: `ActiveDetect` of src/proxy/server_monitor.cc.
use proxy_for_distribution_s.Base.{
  ℕ, zero, suc, ◌+◌, ◌<◌, Bool, true, false, List, [], ◌∷◌, some, get_elem?, ◌≡◌, ◌≢◌, refl, arith,
  Bool-cases, Option-cases, inl, inr, ◌⊎◌, >>=-eq-some, lt_of_get_elem?, get_elem?-set_self,
  get_elem?-set_ne, subst, sym, ◌∙◌, ◌||◌,
}
use proxy_for_distribution_s.Registry.{Server, Json, Gateway}
use proxy_for_distribution_s.Monitor.{
  Detector, World, check_up, probe_up, probe_down, reload, probe, round,
}

module _ (j : Json) (maxfails : ℕ) (reach : Server → Bool) where
  -- A turn leaves the other counters and the list alone, and asks for a reload just where it
  -- breaks the loop.
  check_up-frame :
      (i : ℕ) (s : Server) (w w' : World) (stop : Bool)
      → check_up j maxfails reach i s w ≡ some (w', stop)
      → (w'.1.reload_flag ≡ (stop || w.1.reload_flag))
        × (w'.1.servers ≡ w.1.servers)
        × (w'.1.running ≡ w.1.running)
        × ((k : ℕ) → i ≢ k → get_elem? w'.1.fail_num k ≡ get_elem? w.1.fail_num k)
  unfolding check_up
  check_up-frame i s (g, d) w' stop e = elim (Bool-cases (reach s)) [
    | inl r ↦ (ground arith, ground arith, ground arith, λ k ne. ground arith)
    | inr r ↦ elim (Option-cases (get_elem? d.fail_num i)) [
      | inl o ↦ ground arith
      | inr (n, o) ↦ (
        ground arith,
        ground arith,
        ground arith,
        λ k ne. ground (arith, get_elem?-set_ne d.fail_num (n + 1) ne),
      )
    ]
  ]

  check_up-counts :
      (i n : ℕ) (s : Server) (w w' : World) (stop : Bool)
      → check_up j maxfails reach i s w ≡ some (w', stop)
      → w'.1.reload_flag ≡ false
      → reach s ≡ false
      → get_elem? w.1.fail_num i ≡ some n
      → (get_elem? w'.1.fail_num i ≡ some (n + 1)) × (n + 1 < maxfails)
  unfolding check_up
  check_up-counts i n s (g, d) w' stop e q r o =
      ground (arith, get_elem?-set_self d.fail_num i (n + 1), lt_of_get_elem? d.fail_num i n o)

  probe_up-frame :
      (ss : List Server) (i : ℕ) (w w' : World)
      → probe_up j maxfails reach ss i w ≡ some w'
      → (w'.1.servers ≡ w.1.servers)
        × (w'.1.running ≡ w.1.running)
        × ((k : ℕ) → k < i → get_elem? w'.1.fail_num k ≡ get_elem? w.1.fail_num k)
  unfolding probe_up
  probe_up-frame [] i w w' e = (ground arith, ground arith, λ k h. ground arith)
  probe_up-frame (s ∷ ss) i w w' e =
      let ((w1, stop), c, rest) = >>=-eq-some (check_up j maxfails reach i s w) _ e in
      let (_, same, runs, others) = check_up-frame i s w w1 stop c in
      elim (Bool-cases stop) [
        | inl off ↦ (ground arith, ground arith, λ k h. ground (arith, others k (omega arith)))
        | inr on ↦
            let (same', runs', before) = probe_up-frame ss (i + 1) w1 w' (ground arith) in
            (same' ∙ same, runs' ∙ runs, λ k h. before k (omega arith) ∙ others k (omega arith))
      ]

  -- The server at place `k` has its counter at `p`.
  probe_up-counts :
      (ss : List Server) (i k p n : ℕ) (s : Server) (w w' : World)
      → probe_up j maxfails reach ss i w ≡ some w'
      → w.1.reload_flag ≡ false
      → w'.1.reload_flag ≡ false
      → get_elem? ss k ≡ some s
      → reach s ≡ false
      → p ≡ i + k
      → get_elem? w.1.fail_num p ≡ some n
      → (get_elem? w'.1.fail_num p ≡ some (n + 1)) × (n + 1 < maxfails)
  unfolding probe_up
  probe_up-counts [] i k p n s w w' e q q' at r here o = ground arith
  probe_up-counts (t ∷ ss) i zero p n s w w' e q q' at r here o =
      let ((w1, stop), c, rest) = >>=-eq-some (check_up j maxfails reach i t w) _ e in
      let (flag, _, _, _) = check_up-frame i t w w1 stop c in
      let p=i : p ≡ i = omega arith in
      elim (Bool-cases stop) [
        | inl off ↦ ground arith
        | inr on ↦
            let (same, runs, before) = probe_up-frame ss (i + 1) w1 w' (ground arith) in
            let (up, low) =
              check_up-counts i n s w w1 stop (ground arith) (ground arith) r (ground arith) in
            ground (arith, before i (omega arith))
      ]
  probe_up-counts (t ∷ ss) i (suc k) p n s w w' e q q' at r here o =
      let ((w1, stop), c, rest) = >>=-eq-some (check_up j maxfails reach i t w) _ e in
      let (flag, _, _, others) = check_up-frame i t w w1 stop c in
      elim (Bool-cases stop) [
        | inl off ↦ ground arith
        | inr on ↦
            probe_up-counts ss (i + 1) k p n s w1 w' (ground arith) (ground arith) q' at r
              (omega arith) (others p (omega arith) ∙ o)
      ]

  probe_down-frame :
      (ss : List Server) (g : Gateway) (d : Detector)
      → let d' = (probe_down j maxfails reach ss (g, d)).1 in
        (d'.servers ≡ d.servers)
        × (d'.fail_num ≡ d.fail_num)
        × (d'.reload_flag ≡ false → d.reload_flag ≡ false)
  unfolding probe_down
  probe_down-frame [] g d = (refl, refl, λ q. q)
  probe_down-frame (s ∷ ss) g d =
      let rest = probe_down-frame ss g (record d { sockets = d.sockets + 1 }) in
      (ground (arith, rest), ground (arith, rest), λ q. ground (arith, rest.2))

  -- One quiet pass over both arrays, for the server at place `k`.
  probe-counts :
      (g : Gateway) (d : Detector) (w' : World) (k n : ℕ) (s : Server)
      → probe j maxfails reach (g, d) ≡ some w'
      → d.reload_flag ≡ false
      → w'.1.reload_flag ≡ false
      → get_elem? d.servers.up k ≡ some s
      → reach s ≡ false
      → get_elem? d.fail_num k ≡ some n
      → (get_elem? w'.1.fail_num k ≡ some (n + 1)) × (n + 1 < maxfails) × (w'.1.servers ≡ d.servers)
  unfolding probe
  probe-counts g d w' k n s e q q' at r o =
      let (u, up, down) = >>=-eq-some (probe_up j maxfails reach d.servers.up 0 (g, d)) _ e in
      let end : probe_down j maxfails reach d.servers.down u ≡ w' = ground arith in
      let (same, kept, back) = probe_down-frame d.servers.down u.0 u.1 in
      let (same', _, _) = probe_up-frame d.servers.up 0 (g, d) u up in
      let (count, low) =
        probe_up-counts d.servers.up 0 k k n s (g, d) u up q
          (back (subst (λ x. x.1.reload_flag ≡ false) (sym end) q')) at r (omega arith) o in
      subst
        (λ x.
          (get_elem? x.1.fail_num k ≡ some (n + 1))
          × (n + 1 < maxfails)
          × (x.1.servers ≡ d.servers))
        end (rw kept count, low, same ∙ same')

  -- After a round that asks for no reload, each server that refused the connection has one failure
  -- more than before, and fewer than `maxfails`.
  pub round-counts :
      (w w' : World) (k n : ℕ) (s : Server)
      → round j maxfails reach w ≡ some w'
      → w.1.running ≡ true
      → w.1.reload_flag ≡ false
      → w'.1.reload_flag ≡ false
      → get_elem? w.1.servers.up k ≡ some s
      → reach s ≡ false
      → get_elem? w.1.fail_num k ≡ some n
      → (get_elem? w'.1.fail_num k ≡ some (n + 1)) × (n + 1 < maxfails)
  unfolding round reload
  round-counts (g, d) w' k n s e on q q' at r o =
      let (count, low, _) = probe-counts g d w' k n s (ground arith) q q' at r o in (count, low)

module _ (j : Json) (maxfails : ℕ) (s : Server) where
  -- Rounds in which the server refuses the connection and after which the thread goes on with the
  -- list that it has.
  pub data Quiet (w : World) : ℕ → World → Type 0 where
    start : Quiet w 0 w
    next :
        {n : ℕ} {u v : World} (reach : Server → Bool)
        → Quiet w n u
        → reach s ≡ false
        → round j maxfails reach u ≡ some v
        → v.1.running ≡ true
        → v.1.reload_flag ≡ false
        → Quiet w (suc n) v

  -- What such rounds leave for the server at place `k` that had no failure before.
  record Seen (k n : ℕ) (w v : World) : Type 0 where
    runs : v.1.running ≡ true
    calm : v.1.reload_flag ≡ false
    listed : get_elem? v.1.servers.up k ≡ some s
    counted : get_elem? v.1.fail_num k ≡ some n
    below : (n ≡ 0) ⊎ (n < maxfails)

  Quiet-Seen : (k : ℕ) {w : World} {n : ℕ} {v : World} → Quiet w n v → Seen k 0 w w → Seen k n w v
  unfolding round reload
  Quiet-Seen k start h = h
  Quiet-Seen k (next {n = n} {u = u} {v = v} reach q r e on calm) h =
      let was = Quiet-Seen k q h in
      let (count, low, same) =
        probe-counts j maxfails reach u.0 u.1 v k n s (ground arith) was.calm calm was.listed r
          was.counted in
      record {
        runs = on;
        calm = calm;
        listed = rw same was.listed;
        counted = ground (arith, count);
        below = inr (ground (arith, low));
      }

  -- From a state just after a reload, with the server up in the list and no failure counted, there
  -- are fewer than `maxfails` rounds in a row in which it refuses the connection and after which
  -- the thread runs on and asks for no reload.
  pub Quiet-lt :
      (k n : ℕ) (w v : World)
      → w.1.running ≡ true
      → w.1.reload_flag ≡ false
      → get_elem? w.1.servers.up k ≡ some s
      → get_elem? w.1.fail_num k ≡ some 0
      → 0 < maxfails
      → Quiet w n v
      → n < maxfails
  Quiet-lt k n w v on calm at zero_fails pos q =
      let seen =
        Quiet-Seen k q (record {
          runs = on;
          calm = calm;
          listed = at;
          counted = zero_fails;
          below = inl refl;
        }) in
      omega (arith, seen.below)
