-- ===== src/Registry/Tests.antt =====
-- The registry's theorems at concrete lists, and runs of its operations.
use mathlib.Core.List.{Perm}
use proxy_for_distribution_s.Base.{text_eq, false, [], ◌∷◌, some, ◌≡◌, refl}
use proxy_for_distribution_s.Registry.{
  Gateway, ok, has, set_server_down, set_server_up, login_server, logout_server,
}
use proxy_for_distribution_s.Registry.View.{
  dead, listing, health, accepts, after, run, mark_down, login, IsWellFormed, run-outcome,
  run-health, run-IsWellFormed,
}
use proxy_for_distribution_s.Registry.Laws.{logout-login, set_server_up-set_server_down}
use proxy_for_distribution_s.Registry.Plain.{plain, plain-IsFaithful}
use proxy_for_distribution_s.Registry.Examples.{
  first, second, third, two_up, gateway, two_up-IsWellFormed,
}

abbrev sealed : Gateway
sealed = record gateway { can_write = false }

run-outcome_example : (run plain login third gateway).1 ≡ ok
unfolding plain health has accepts
run-outcome_example = run-outcome plain third gateway login two_up-IsWellFormed

first_falls : (run plain mark_down first gateway).1 ≡ ok
unfolding run set_server_down plain text_eq
first_falls = refl

run-health_example : health (listing plain (run plain mark_down first gateway).0) first ≡ some dead
unfolding after text_eq
run-health_example = run-health plain-IsFaithful first gateway mark_down first first_falls

run-IsWellFormed_example : IsWellFormed (listing plain (run plain mark_down first gateway).0)
run-IsWellFormed_example =
    run-IsWellFormed plain-IsFaithful first gateway mark_down two_up-IsWellFormed

first_joins : (login_server plain third gateway).1 ≡ ok
unfolding login_server plain
first_joins = refl

logout-login_example :
    (logout_server plain third (login_server plain third gateway).0).0.file ≡ plain.write two_up
unfolding plain
logout-login_example = (logout-login plain-IsFaithful third gateway first_joins).1

set_server_up-set_server_down_example :
    Perm
      (listing plain (set_server_up plain first (set_server_down plain first gateway).0).0).up
      (first ∷ second ∷ [])
unfolding plain
set_server_up-set_server_down_example =
    (set_server_up-set_server_down plain-IsFaithful first gateway two_up-IsWellFormed
      (unfold set_server_down plain text_eq in refl)).1

-- A file with an array missing does not parse.
abbrev torn : Gateway
torn = record gateway { file = [] }
