-- ===== src/Registry/Plain.antt =====
-- A plain format that stands in for JSON where the theorems are applied: two numbers to a mark.
use proxy_for_distribution_s.Base.{
  ℕ, zero, suc, Text, List, [], ◌∷◌, Option, none, some, ◌≡◌, refl, ap, ◌∙◌,
}
use proxy_for_distribution_s.Registry.{Server, Listing, Json, IsFaithful}

put_ip : Text → List ℕ → List ℕ
put_ip [] rest = rest
put_ip (b ∷ bs) rest = 1 ∷ b ∷ put_ip bs rest

put_servers : List Server → List ℕ → List ℕ
put_servers [] rest = rest
put_servers (s ∷ ss) rest = put_ip s.ip (2 ∷ s.port ∷ put_servers ss rest)

add_byte : ℕ → List (List Server) → List (List Server)
add_byte b ((s ∷ ss) ∷ rest) = (record s { ip = b ∷ s.ip } ∷ ss) ∷ rest
add_byte b other = other

add_server : ℕ → List (List Server) → List (List Server)
add_server p (ss ∷ rest) = (record { ip = []; port = p } ∷ ss) ∷ rest
add_server p [] = []

-- Read from the end: a mark works on the first server of the first array.
read_marks : List ℕ → List (List Server)
unfolding add_byte add_server
read_marks (zero ∷ p ∷ rest) = [] ∷ read_marks rest
read_marks (suc zero ∷ b ∷ rest) = add_byte b (read_marks rest)
read_marks (suc (suc n) ∷ p ∷ rest) = add_server p (read_marks rest)
read_marks other = [] ∷ []

two : List (List Server) → Option Listing
two (u ∷ d ∷ []) = some (record { up = u; down = d })
two other = none

unfoldable pub plain : Json
unfolding read_marks put_servers put_ip two
plain = record {
  parse = λ t. two (read_marks t);
  write = λ l. put_servers l.up (0 ∷ 0 ∷ put_servers l.down []);
}

read_ip :
    (ip : Text) (rest : List ℕ) (s : Server) (ss : List Server) (more : List (List Server))
    → read_marks rest ≡ (s ∷ ss) ∷ more
    → s.ip ≡ []
    → read_marks (put_ip ip rest) ≡ (record s { ip = ip } ∷ ss) ∷ more
unfolding read_marks put_ip
read_ip [] rest s ss more h e = h ∙ ap (λ t. (record s { ip = t } ∷ ss) ∷ more) e
read_ip (b ∷ bs) rest s ss more h e = ap (add_byte b) (read_ip bs rest s ss more h e)

read_servers :
    (us : List Server) (rest : List ℕ) (more : List (List Server))
    → read_marks rest ≡ [] ∷ more
    → read_marks (put_servers us rest) ≡ us ∷ more
unfolding read_marks put_servers
read_servers [] rest more h = h
read_servers (s ∷ ss) rest more h =
    read_ip s.ip _ (record { ip = []; port = s.port }) ss more
      (ap (add_server s.port) (read_servers ss rest more h)) refl

pub plain-IsFaithful : IsFaithful plain
unfolding plain
plain-IsFaithful = record {
  parse_write = λ l. ap two (
      read_servers l.up (0 ∷ 0 ∷ put_servers l.down []) (l.down ∷ [])
        (ap (◌∷◌ []) (read_servers l.down [] [] refl)));
}
