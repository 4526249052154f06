-- ===== src/Log/Queue/Order/Tests.antt =====
-- Two lines go through a queue of one.
use proxy_for_distribution_s.Base.{codes, false, [], ◌∷◌, refl}
use proxy_for_distribution_s.Log.Queue.{BlockingQueue, new_queue, emplace, pop}
use proxy_for_distribution_s.Log.Queue.Order.{Run, starts, puts, takes, InOrder, Run-InOrder}

abbrev one_line : BlockingQueue
one_line = record (new_queue 1) { m_deq_ = codes "b" ∷ [] }

a_then_b : Run 1 one_line (codes "a" ∷ codes "b" ∷ []) (codes "a" ∷ [])
unfolding emplace pop
a_then_b = puts (codes "b") (takes (codes "a") false (puts (codes "a") starts refl) refl) refl

Run-InOrder_example : InOrder 1 one_line (codes "a" ∷ codes "b" ∷ []) (codes "a" ∷ [])
Run-InOrder_example = Run-InOrder a_then_b
