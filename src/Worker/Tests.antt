-- ===== src/Worker/Tests.antt =====
-- The theorems about a worker at concrete states.
use proxy_for_distribution_s.Base.{
  ℕ, true, false, List, [], ◌∷◌, ◌++◌, some, Text, find, insert, put, ◌≡◌, refl, arith, ◌⊎◌,
}
use mathlib.Core.Option
use proxy_for_distribution_s.Worker.State.{Client, Worker, ok, died, Death, stale_iterator, write}
use proxy_for_distribution_s.Worker.Requests.{client_packet, server_packet}
use proxy_for_distribution_s.Worker.Clients.{reset_counts}
use proxy_for_distribution_s.Worker.Timeouts.{check_time_out}
use proxy_for_distribution_s.Worker.Invariant.{Inv}
use proxy_for_distribution_s.Worker.Safety.Limits.{some_closing, zero_count, reset_counts_lem}
use proxy_for_distribution_s.Worker.Safety.TimeOut.{Retried, check_time_out_lem}
use proxy_for_distribution_s.Worker.Safety.Retry.{exits}
use proxy_for_distribution_s.Worker.Traces.Memory.{traces-Safe}
use proxy_for_distribution_s.Worker.Exchange.{Waits, request-Waits, answer_once}
use proxy_for_distribution_s.Worker.Examples.{
  prefixing, start-Starts, came, asked, arrived, pending, waiting, client,
}

came-Inv : Inv came
came-Inv = traces-Safe start-Starts arrived

asked-Inv : Inv asked
asked-Inv = traces-Safe start-Starts pending

check_time_out_lem_example :
    ((w' : Worker) × (check_time_out 50 asked ≡ ok w') × Inv w' × Retried 50 w')
    ⊎ ((e : Death) × (check_time_out 50 asked ≡ died e) × (exits e ≡ true))
check_time_out_lem_example = check_time_out_lem 50 asked asked-Inv

reset_counts_lem_example :
    ((some_closing ((0, client) ∷ []) ≡ true)
      × (reset_counts ((0, client) ∷ []) ≡ died stale_iterator))
    ⊎ ((m' : List (ℕ × Client)) × (some_closing ((0, client) ∷ []) ≡ false)
        × (reset_counts ((0, client) ∷ []) ≡ ok m')
        × ((c : ℕ) → find c m' ≡ Option.map zero_count (find c ((0, client) ∷ []))))
reset_counts_lem_example = reset_counts_lem ((0, client) ∷ [])

answer_once_example :
    (w' : Worker) × (server_packet 0 1 (9 ∷ []) asked ≡ ok w')
    × (w'.effects ≡ asked.effects ++ write 11 1 (9 ∷ []) ∷ [])
    × ((w'.heap 102).finish_flag ≡ true)
    × ((reply' : Text) → server_packet 0 1 reply' w' ≡ ok w')
answer_once_example = answer_once asked 0 1 102 11 (0 ∷ 1 ∷ 7 ∷ []) (9 ∷ []) waiting

request-Waits_example :
    (w' : Worker) × (client_packet prefixing 0 (7 ∷ []) (some 101) (some 102) 8 came
      ≡ ok (w', true))
    × (w'.effects ≡ came.effects ++ write 21 3 (0 ∷ 1 ∷ 7 ∷ []) ∷ [])
    × Waits w' 0 1 102 11 (0 ∷ 1 ∷ 7 ∷ [])
unfolding came find insert put
request-Waits_example =
    request-Waits prefixing came came-Inv 0 101 102 8 21 (7 ∷ []) (0 ∷ 1 ∷ 7 ∷ []) client refl refl
      refl refl refl (omega arith) refl (omega arith) (omega arith) (omega arith)
