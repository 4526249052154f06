-- ===== src/Registry/Examples.antt =====
-- Servers and a gateway at which the theorems about the list of servers are applied.
use proxy_for_distribution_s.Base.{codes, true, [], ◌∷◌, ◌≡◌, refl, arith}
use proxy_for_distribution_s.Registry.{Server, Listing, Gateway, has}
use proxy_for_distribution_s.Registry.View.{listing, IsWellFormed}
use proxy_for_distribution_s.Registry.Plain.{plain}

abbrev pub first : Server
first = record { ip = codes "10.0.0.1"; port = 8001 }

abbrev pub second : Server
second = record { ip = codes "10.0.0.2"; port = 8002 }

abbrev pub third : Server
third = record { ip = codes "10.0.0.2"; port = 8003 }

abbrev pub two_up : Listing
two_up = record { up = first ∷ second ∷ []; down = [] }

abbrev pub gateway : Gateway
gateway = record {
  file = plain.write two_up;
  can_read = true;
  can_write = true;
  pipes = [] ∷ [] ∷ [];
}

pub listing-gateway : listing plain gateway ≡ two_up
unfolding plain
listing-gateway = refl

pub two_up-IsWellFormed : IsWellFormed (listing plain gateway)
unfolding plain has
two_up-IsWellFormed = ground arith
