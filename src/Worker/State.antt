-- ===== src/Worker/State.antt =====
-- The state of a worker process, include/structure.h and include/pool.h, and how it can end.
use proxy_for_distribution_s.Base.{
  ℕ, ◌==◌, Text, Bool, true, false, if◌then◌else◌, List, [], ◌∷◌, ◌++◌, Option, none, some,
}
use proxy_for_distribution_s.EventQueue.{Ring}

-- `struct cli_event`. A packet is its head, the length, and its text.
pub record CliEvent : Type 0 where
  pub bev : ℕ
  pub usr_uuid : ℕ
  pub head : ℕ
  pub c_info : Text
  pub arr_time : ℕ
  pub msg_flag : Bool
  pub finish_flag : Bool

-- `struct client_information`. The map goes from the number of a packet to an event's address.
pub record Client : Type 0 where
  pub bev : ℕ
  pub count : ℕ
  pub ip : Text
  pub close_flag : Bool
  pub pack_id : ℕ
  pub cli_event_map : List (ℕ × ℕ)

-- What the process does to the outside.
pub data Effect : Type 0 where
  write : ℕ → ℕ → Text → Effect
  close_bev : ℕ → Effect
  accuse : Text → Effect
  -- `accept_flag` in the shared memory is set: the gateway may call the next worker.
  accept_done : Effect
  close_socket : ℕ → Effect

pub record Worker : Type 0 where
  pub client_map : List (ℕ × Client)
  pub client_id : ℕ
  pub servers : List ℕ
  pub msg_queue : Ring
  pub fin_queue : Ring
  -- The contents of memory at each address, and which addresses are allocated.
  pub heap : ℕ → CliEvent
  pub live : ℕ → Bool
  -- The two static counters `count`, of `client_socket_read_cb` and of `check_time_out_cb`.
  pub forward_count : ℕ
  pub resend_count : ℕ
  pub effects : List Effect

-- How a process dies: `exit(0)` on a full queue, and what the language leaves undefined.
pub data Death : Type 0 where
  queue_full no_server null_pointer dangling double_free overflow stale_iterator : Death
  -- An exception of jsoncpp that nothing catches.
  uncaught : Death

pub data Result {ℓ} (A : Type ℓ) : Type ℓ where
  ok : A → Result A
  died : Death → Result A

infixl 5 ◌>>=◌
abbrev pub ◌>>=◌ {ℓ κ} : {A : Type ℓ} {B : Type κ} → Result A → (A → Result B) → Result B
ok a >>= f = f a
died e >>= f = died e

abbrev pub or_die {ℓ} : {A : Type ℓ} → Option A → Death → Result A
or_die none e = died e
or_die (some a) e = ok a

abbrev pub set_at {ℓ} : {A : Type ℓ} → (ℕ → A) → ℕ → A → ℕ → A
set_at f a x b = if a == b then x else f b

abbrev pub emit : Effect → Worker → Worker
emit e w = record w { effects = w.effects ++ e ∷ [] }

-- An access through a pointer to an event.
abbrev pub deref : Worker → ℕ → Result CliEvent
deref w p = if w.live p then ok (w.heap p) else died dangling

abbrev pub store : ℕ → CliEvent → Worker → Worker
store p e w = record w { heap = set_at w.heap p e }

-- `MemoryPoolAlloc` marks the block as taken, and leaves what is in it.
abbrev pub claim : ℕ → Worker → Worker
claim p w = record w { live = set_at w.live p true }

-- `MemoryPoolFree`
abbrev pub release : ℕ → Worker → Result Worker
release p w = if w.live p then ok (record w { live = set_at w.live p false }) else died double_free
