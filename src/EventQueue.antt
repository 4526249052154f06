-- ===== src/EventQueue.antt =====
-- The rings `msg_queue` and `fin_queue` of include/pool.h: an array of MSG_QUEUE_LEN pointers with
-- a front and a back. An event is named by its address, a number; the array's length is
-- MSG_QUEUE_LEN.
pub mod Fifo
mod Tests
use proxy_for_distribution_s.Base.{
  ℕ, ◌+◌, ◌%◌, ◌==◌, Bool, if◌then◌else◌, List, Option, none, some, length, get_elem?, set,
}

pub record Ring : Type 0 where
  pub slots : List ℕ
  pub front : ℕ
  pub back : ℕ

-- `(i + 1) % MSG_QUEUE_LEN`
abbrev pub next_index : List ℕ → ℕ → ℕ
next_index slots i = (i + 1) % length slots

unfoldable pub is_empty : Ring → Bool
is_empty q = q.back == q.front

-- `queue[queue_front]`
unfoldable pub oldest : Ring → Option ℕ
oldest q = get_elem? q.slots q.front

unfoldable pub advance : Ring → Ring
advance q = record q { front = next_index q.slots q.front }

-- Write at the back and move it; `none` is `exit(0)`, where the back has met the front.
unfoldable pub push : Ring → ℕ → Option Ring
push q event =
    let back' = next_index q.slots q.back in
    if back' == q.front
    then none
    else some (record q { slots = set q.slots q.back event; back = back' })
