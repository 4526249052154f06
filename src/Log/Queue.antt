-- ===== src/Log/Queue.antt =====
-- `BlockingQueue` of src/log/blocking_queue.cc: each operation is a step under the queue's mutex, and a
-- thread that waits takes no step.
pub mod Order
use proxy_for_distribution_s.Base.{
  ℕ, ◌+◌, ltb, leb, Text, Bool, true, false, if◌then◌else◌, List, [], ◌∷◌, ◌++◌, Option, none, some,
  length,
}

pub record BlockingQueue : Type 0 where
  pub m_deq_ : List Text
  pub m_capacity_ : ℕ
  pub m_is_close_ : Bool

-- The constructor
abbrev pub new_queue : ℕ → BlockingQueue
new_queue max_capacity = record { m_deq_ = []; m_capacity_ = max_capacity; m_is_close_ = false }

unfoldable pub clear : Bool → BlockingQueue → BlockingQueue
clear is_close q = record q { m_deq_ = []; m_is_close_ = is_close }

abbrev pub is_full : BlockingQueue → Bool
is_full q = leb q.m_capacity_ (length q.m_deq_)

-- `none` waits.
unfoldable pub emplace : Text → BlockingQueue → Option BlockingQueue
emplace item q =
    if ltb (length q.m_deq_) q.m_capacity_
    then some (record q { m_deq_ = q.m_deq_ ++ item ∷ [] })
    else none

-- How `Pop` goes: it waits, it returns false after it was woken in a closed queue, or it has a line.
pub data Popped : Type 0 where
  waits closed : Popped
  popped : Text → BlockingQueue → Popped

-- `woken` says whether the thread comes out of a wait.
unfoldable pub pop : Bool → BlockingQueue → Popped
pop woken q =
    let first : Popped = elim q.m_deq_ [
      | [] ↦ waits
      | item ∷ rest ↦ popped item (record q { m_deq_ = rest })
    ] in
    if woken then if q.m_is_close_ then closed else first else first
