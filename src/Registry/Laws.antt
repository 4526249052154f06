-- ===== src/Registry/Laws.antt =====
-- Sequences of registry operations, and what the workers are told: src/proxy/server_monitor.cc.
use mathlib.Core.List.{Perm}
use mathlib.Core.List
use mathlib.Core.List.Perm
use proxy_for_distribution_s.Base.{
  true, false, List, [], ◌∷◌, ◌++◌, none, ◌≡◌, arith, Bool-cases, inl, inr, ap, subst,
}
use proxy_for_distribution_s.Registry.{
  Server, Json, IsFaithful, Gateway, ok, same, has, strip, set_server_down, set_server_up,
  login_server, logout_server,
}
use proxy_for_distribution_s.Registry.Lists.{
  same_iff, same_refl, strip-hit, strip-absent, strip-append, has-append, has-one, IsDistinct,
}
use proxy_for_distribution_s.Registry.View.{listing, IsWellFormed}

strip-one : (a : Server) → (strip a (a ∷ [])).0 ≡ []
unfolding strip
strip-one a = ground (arith, same_refl a)

strip-snoc : (a : Server) (ss : List Server) → has a ss ≡ false → (strip a (ss ++ a ∷ [])).0 ≡ ss
strip-snoc a ss h =
    rw (strip-append a ss (a ∷ []), strip-one a, strip-absent a ss h) (List.append-nil ss)

has-snoc : (a : Server) (ss : List Server) → has a (ss ++ a ∷ []) ≡ true
has-snoc a ss = ground (arith, has-append a ss (a ∷ []), has-one a a, same_refl a)

strip-perm :
    (a : Server) (ss : List Server)
    → IsDistinct ss
    → has a ss ≡ true
    → Perm ((strip a ss).0 ++ a ∷ []) ss
unfolding strip has
strip-perm a [] d h = absurd (cc)
strip-perm a (s ∷ ss) d h = elim (Bool-cases (same a s)) [
  | inl e ↦
      let twin = (same_iff a s).0 e in
      let gone = strip-absent a ss (subst (λ x. has x ss ≡ false) twin d.0) in
      rw (e, gone, twin) (List.perm_append_singleton a ss)
  | inr e ↦ rw e (Perm.cons s (strip-perm a ss d.1 (ground arith)))
]

module _ {j : Json} (f : IsFaithful j) (a : Server) (g : Gateway) where
  -- A server that logs in and then out leaves the file with the listing that it had, and nothing
  -- in the pipes; the logout succeeds.
  pub logout-login :
      (login_server j a g).1 ≡ ok
      → let (g', o) = logout_server j a (login_server j a g).0 in
        (o ≡ ok) × (g'.file ≡ j.write (listing j g)) × (g'.pipes ≡ g.pipes)
  unfolding login_server logout_server
  logout-login e =
      let l = listing j g in
      ground (
        arith,
        f.parse_write (record l { up = l.up ++ a ∷ [] }),
        strip-snoc a l.up,
        strip-absent a l.down,
        has-snoc a l.up,
        strip-hit a (l.up ++ a ∷ []),
      )

  up_of_down :
      IsWellFormed (listing j g)
      → (set_server_down j a g).1 ≡ ok
      → let (g', o) = set_server_up j a (set_server_down j a g).0 in
        (o ≡ ok)
        × (listing j g' ≡ record (listing j g) { up = (strip a (listing j g).up).0 ++ a ∷ [] })
  unfolding set_server_down set_server_up
  up_of_down w e =
      let l = listing j g in
      ground (
        arith,
        f.parse_write (record { up = (strip a l.up).0; down = l.down ++ a ∷ [] }),
        f.parse_write (record { up = (strip a l.up).0 ++ a ∷ []; down = l.down }),
        strip-snoc a l.down,
        has-snoc a l.down,
        strip-hit a (l.down ++ a ∷ []),
        strip-hit a l.up,
        w.apart a,
      )

  held : (set_server_down j a g).1 ≡ ok → has a (listing j g).up ≡ true
  unfolding set_server_down has
  held e = ground (arith, strip-hit a (listing j g).up)

  -- A server of a list with no repetitions that was marked down and then up again stands in
  -- the array of servers that are up, which has the same entries as before in another order,
  -- and the array of servers that are down is as before; marking it up succeeds.
  pub set_server_up-set_server_down :
      IsWellFormed (listing j g)
      → (set_server_down j a g).1 ≡ ok
      → let (g', o) = set_server_up j a (set_server_down j a g).0 in
        (o ≡ ok)
        × Perm (listing j g').up (listing j g).up
        × ((listing j g').down ≡ (listing j g).down)
  set_server_up-set_server_down w e =
      let (done, there) = up_of_down w e in
      (
        done,
        rw there (strip-perm a (listing j g).up w.up_distinct (held e)),
        ap (λ l. l.down) there,
      )

-- Where server_list.json does not parse, a successful login replaces it by a list of the new
-- server alone.
login_wipes :
    (j : Json) (a : Server) (g : Gateway)
    → j.parse g.file ≡ none
    → (login_server j a g).1 ≡ ok
    → (login_server j a g).0.file ≡ j.write (record { up = a ∷ []; down = [] })
unfolding login_server
login_wipes j a g broken e = ground arith
