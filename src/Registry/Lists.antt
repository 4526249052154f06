-- ===== src/Registry/Lists.antt =====
-- What the loops over an array of servers compute.
use proxy_for_distribution_s.Base.{
  text_eq_iff, ◌||◌, true, false, if◌then◌else◌, List, [], ◌∷◌, ◌++◌, ◌≡◌, refl, ◌↔◌, arith,
}
use proxy_for_distribution_s.Registry.{Server, same, has, strip}

pub same_iff : (a s : Server) → (same a s ≡ true) ↔ (s ≡ a)
same_iff a s = ground (arith, text_eq_iff s.ip a.ip)

pub same_refl : (a : Server) → same a a ≡ true
same_refl a = (same_iff a a).1 refl

-- The flag of the copying loop is the search for an entry.
pub strip-hit : (a : Server) (ss : List Server) → (strip a ss).1 ≡ has a ss
unfolding strip has
strip-hit a [] = refl
strip-hit a (s ∷ ss) = ground (arith, strip-hit a ss)

-- The copy holds every other server just as the array did, and not the one that was left out.
pub has-strip :
    (b a : Server) (ss : List Server)
    → has b (strip a ss).0 ≡ (if same a b then false else has b ss)
unfolding strip has
has-strip b a [] = ground arith
has-strip b a (s ∷ ss) = ground (arith, has-strip b a ss, same_iff a s, same_iff b s, same_iff a b)

pub has-append : (b : Server) (xs ys : List Server) → has b (xs ++ ys) ≡ (has b xs || has b ys)
unfolding has
has-append b [] ys = refl
has-append b (x ∷ xs) ys = ground (arith, has-append b xs ys)

pub has-one : (b a : Server) → has b (a ∷ []) ≡ same a b
unfolding has
has-one b a = ground (arith, same_iff a b, same_iff b a)

-- An array without the server is copied as it is.
pub strip-absent : (a : Server) (ss : List Server) → has a ss ≡ false → (strip a ss).0 ≡ ss
unfolding strip has
strip-absent a [] h = refl
strip-absent a (s ∷ ss) h = ground (arith, strip-absent a ss)

pub strip-append :
    (a : Server) (xs ys : List Server) → (strip a (xs ++ ys)).0 ≡ (strip a xs).0 ++ (strip a ys).0
unfolding strip
strip-append a [] ys = refl
strip-append a (x ∷ xs) ys = ground (arith, strip-append a xs ys)

-- No server stands twice.
abbrev pub IsDistinct : List Server → Type 0
IsDistinct [] = Unit
IsDistinct (s ∷ ss) = (has s ss ≡ false) × IsDistinct ss

pub strip-IsDistinct : (a : Server) (ss : List Server) → IsDistinct ss → IsDistinct (strip a ss).0
unfolding strip
strip-IsDistinct a [] d = tt
strip-IsDistinct a (s ∷ ss) d = ground (arith, strip-IsDistinct a ss, has-strip s a ss)

pub IsDistinct-snoc :
    (a : Server) (ss : List Server) → IsDistinct ss → has a ss ≡ false → IsDistinct (ss ++ a ∷ [])
unfolding has
IsDistinct-snoc a [] d h = ground arith
IsDistinct-snoc a (s ∷ ss) d h =
    ground (
      arith,
      IsDistinct-snoc a ss,
      has-append s ss (a ∷ []),
      has-one s a,
      same_iff a s,
      same_iff s a,
    )
