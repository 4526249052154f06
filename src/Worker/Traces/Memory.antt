-- ===== src/Worker/Traces/Memory.antt =====
-- No sequence of callbacks of a worker, include/pool.h, uses memory that it does not own.
use proxy_for_distribution_s.Base.{
  ℕ, zero, suc, true, find, ◌≡◌, refl, arith, among, inl, inr, replicate, length-replicate, subst,
  sym,
}
use proxy_for_distribution_s.EventQueue.Fifo.{IsValid}
use proxy_for_distribution_s.Worker.State.{
  Worker, Result, died, Death, queue_full, no_server, overflow, stale_iterator, uncaught,
  null_pointer, dangling, double_free,
}
use proxy_for_distribution_s.Worker.Requests.{Codec}
use proxy_for_distribution_s.Worker.Timeouts.{check_time_out}
use proxy_for_distribution_s.Worker.Invariant.{Inv, Safe}
use proxy_for_distribution_s.Worker.Safety.Accept.{accept_client-Safe}
use proxy_for_distribution_s.Worker.Safety.Limits.{client_event-Inv, empty_count-Safe}
use proxy_for_distribution_s.Worker.Safety.Turn.{client_packet-Safe, >>=-Safe}
use proxy_for_distribution_s.Worker.Safety.Reply.{server_packet-Safe}
use proxy_for_distribution_s.Worker.Safety.TimeOut.{check_time_out_lem}
use proxy_for_distribution_s.Worker.Safety.Retry.{exits}
use proxy_for_distribution_s.Worker.Traces.{
  Callback, accepting, requesting, answering, leaving, timing_out, resetting, react, Fits, Steps,
  here, step, ends, Starts, starting,
}

exit_is_Safe : (e : Death) → exits e ≡ true → Safe Inv (died e)
exit_is_Safe queue_full h = tt
exit_is_Safe no_server h = tt
exit_is_Safe overflow h = tt
exit_is_Safe stale_iterator h = tt
exit_is_Safe uncaught h = tt
exit_is_Safe null_pointer h = absurd (ground arith)
exit_is_Safe dangling h = absurd (ground arith)
exit_is_Safe double_free h = absurd (ground arith)

time_out-Safe : (w : Worker) (now : ℕ) → Inv w → Safe Inv (check_time_out now w)
time_out-Safe w now v = elim (check_time_out_lem now w v) [
  | inl (w', e, v', _) ↦ subst (Safe Inv) (sym e) v'
  | inr (how, e, is_exit) ↦ subst (Safe Inv) (sym e) (exit_is_Safe how is_exit)
]

-- Every callback keeps the invariant.
pub react-Safe :
    (codec : Codec) (w : Worker) (cb : Callback) → Inv w → Fits w cb → Safe Inv (react codec cb w)
unfolding react
react-Safe codec w (accepting is_accepted banned p bev ip now) v (fresh, clean, low) =
    accept_client-Safe w p bev now ip v is_accepted banned fresh clean low
react-Safe codec w (requesting c msg p1 p2 now) v
      ((cl, at), fresh1, fresh2, apart, clean1, clean2) =
    >>=-Safe (λ (w', more). Inv w') Inv _ _
      (client_packet-Safe codec w c p1 p2 now msg cl v at fresh1 fresh2 apart clean1 clean2)
      (λ x v'. v')
react-Safe codec w (answering c zero reply) v fits = absurd (fits refl)
react-Safe codec w (answering c (suc k) reply) v fits = server_packet-Safe w c k reply v
react-Safe codec w (leaving bev c) v fits = client_event-Inv w bev c v
react-Safe codec w (timing_out now) v fits = time_out-Safe w now v
react-Safe codec w resetting v fits = empty_count-Safe w v

Steps-Safe : {codec : Codec} {w : Worker} {r : Result Worker} → Inv w → Steps codec w r → Safe Inv r
Steps-Safe v here = v
Steps-Safe {codec} {w} v (step cb fits e rest) =
    Steps-Safe (subst (Safe Inv) e (react-Safe codec w cb v fits)) rest
Steps-Safe {codec} {w} v (ends cb fits e) = subst (Safe Inv) e (react-Safe codec w cb v fits)

abbrev zero_slot : ℕ
zero_slot = 0

start-IsValid : (n : ℕ) → IsValid (record { slots = replicate (suc n) 0; front = 0; back = 0 })
start-IsValid n = record {
  front_in = ground (arith, length-replicate n zero_slot);
  back_in = ground (arith, length-replicate n zero_slot);
}

pub start-Inv : {w : Worker} → Starts w → Inv w
unfolding among find
start-Inv (starting n servers heap) = record {
  msg_valid = start-IsValid n;
  fin_valid = start-IsValid n;
  owned = record { exact = λ p. refl; msgs_unique = tt; fins_unique = tt; disjoint = λ p. refl };
  clients = λ c cl e. absurd (ground arith);
}

-- Whatever callbacks a worker runs from its start, in whatever order, the events in its two queues are
-- those that are allocated, each once, and every pointer of a client leads to such an event;
-- or the process has ended, and not by an access to a freed or null event nor by a second free. The
-- blocks that the allocator hands over are fresh and have clear flags, requests come from known
-- clients, and no answer has the number 0.
pub traces-Safe :
    {codec : Codec} {w : Worker} {r : Result Worker} → Starts w → Steps codec w r → Safe Inv r
traces-Safe s steps = Steps-Safe (start-Inv s) steps
