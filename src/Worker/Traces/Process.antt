-- ===== src/Worker/Traces/Process.antt =====
-- A worker process, include/pool.h, in any order of all its callbacks, those on the servers included.
mod Tests
use proxy_for_distribution_s.Base.{ℕ, Text, List, [], ◌∷◌, map, Option, ◌≡◌, sym, subst}
use proxy_for_distribution_s.Worker.State.{Worker, Result, ok, died, Death}
use proxy_for_distribution_s.Worker.Requests.{Codec}
use proxy_for_distribution_s.Worker.Invariant.{Inv, Safe}
use proxy_for_distribution_s.Worker.Backends.{Backends, server_joins, server_leaves, server_fails}
use proxy_for_distribution_s.Worker.Traces.{Callback, react, Fits, Steps, here, step, ends, Starts}
use proxy_for_distribution_s.Worker.Traces.Memory.{react-Safe, start-Inv}

-- The cases 2 and 3 of `pipe_event_CallBack`, and `work_server_event_cb`.
pub data Change : Type 0 where
  joins : Option (ℕ × ℕ) → Text → Change
  leaves : Text → Change
  fails : ℕ → ℕ → Change

unfoldable pub change_servers : Change → Backends → Result Backends
change_servers (joins made ip_port) b = ok (server_joins made ip_port b)
change_servers (leaves ip_port) b = server_leaves ip_port b
change_servers (fails sockfd bev) b = server_fails sockfd bev b

-- The callbacks on clients and requests see the second components of `m_Serverlist`.
unfoldable pub with_servers : Backends → Worker → Worker
with_servers b w = record w { servers = map (λ e. e.1) b.server_list }

-- Where we look, or how the process has ended: in a callback on clients, requests or answers, in one on
-- the servers, or by case 4 of `pipe_event_CallBack`, which gives all memory back.
pub data Course : Type 0 where
  running : Worker → Backends → Course
  ended : Death → Course
  broken : Death → Course
  stopped : Course

pub data Goes (codec : Codec) : Worker → Backends → Course → Type 0 where
  so_far : {w : Worker} {b : Backends} → Goes codec w b (running w b)
  calls :
      {w w' : Worker} {b : Backends} {r : Course} (cb : Callback)
      → Fits w cb
      → react codec cb w ≡ ok w'
      → Goes codec w' b r
      → Goes codec w b r
  dies :
      {w : Worker} {b : Backends} {e : Death} (cb : Callback)
      → Fits w cb
      → react codec cb w ≡ died e
      → Goes codec w b (ended e)
  changes :
      {w : Worker} {b b' : Backends} {r : Course} (ch : Change)
      → change_servers ch b ≡ ok b'
      → Goes codec (with_servers b' w) b' r
      → Goes codec w b r
  breaks :
      {w : Worker} {b : Backends} {e : Death} (ch : Change)
      → change_servers ch b ≡ died e
      → Goes codec w b (broken e)
  halts : {w : Worker} {b : Backends} → Goes codec w b stopped

ok_inj : {w w' : Worker} → ok w ≡ ok w' → w ≡ w'
ok_inj e = cc

-- Callbacks that see no change of the servers, and what comes after them.
pub Steps-Goes :
    {codec : Codec} {w w' : Worker} {b : Backends} {o : Course} {r : Result Worker}
    → Steps codec w r
    → r ≡ ok w'
    → Goes codec w' b o
    → Goes codec w b o
Steps-Goes {codec} {b = b} {o} here e goes = subst (λ x. Goes codec x b o) (sym (ok_inj e)) goes
Steps-Goes (step cb fits e rest) same goes = calls cb fits e (Steps-Goes rest same goes)
Steps-Goes (ends cb fits e) same goes = absurd (cc)

with_servers-Inv : (b : Backends) (w : Worker) → Inv w → Inv (with_servers b w)
unfolding with_servers
with_servers-Inv b w v = record {
  msg_valid = v.msg_valid;
  fin_valid = v.fin_valid;
  owned = v.owned;
  clients = v.clients;
}

-- What is promised of a course; the end in a callback on the servers is none of the events' memory.
unfoldable pub SafeCourse : Course → Type 0
SafeCourse (running w b) = Inv w
SafeCourse (ended e) = Safe Inv (died e)
SafeCourse (broken e) = Unit
SafeCourse stopped = Unit

Goes-Safe :
    {codec : Codec} {w : Worker} {b : Backends} {r : Course}
    → Inv w
    → Goes codec w b r
    → SafeCourse r
unfolding SafeCourse
Goes-Safe v so_far = v
Goes-Safe {codec} {w} v (calls cb fits e rest) =
    Goes-Safe (subst (Safe Inv) e (react-Safe codec w cb v fits)) rest
Goes-Safe {codec} {w} v (dies cb fits e) = subst (Safe Inv) e (react-Safe codec w cb v fits)
Goes-Safe {codec} {w} v (changes {b' = b'} ch e rest) = Goes-Safe (with_servers-Inv b' w v) rest
Goes-Safe v (breaks ch e) = tt
Goes-Safe v halts = tt

-- From a worker's start, in any order of its callbacks, the events in the two queues are those that are
-- allocated, each once, and each pointer of a client leads to one of them; or the gateway has stopped
-- the process, or a callback on the servers has ended it; or it has ended in another callback, and not
-- there by using a freed or null event nor by freeing one twice. Requests come from known clients, no
-- answer has the number 0, the counter of clients does not run over, and the allocator hands over
-- blocks that are not in use and have clear flags, which MemoryPoolAlloc ensures only of memory that
-- was not used before.
pub process-Safe :
    {codec : Codec} {w : Worker} {b : Backends} {r : Course}
    → Starts w
    → Goes codec (with_servers b w) b r
    → SafeCourse r
process-Safe {b = b} s goes = Goes-Safe (with_servers-Inv b _ (start-Inv s)) goes
