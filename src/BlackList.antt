-- ===== src/BlackList.antt =====
-- The black list in shared memory, `Hhei_Ming_Dan` of include/structure.h: addresses as C strings in
-- slots of IP_SIZE bytes. A client's address comes from `inet_ntoa`, which gives at most 15
-- characters; locks are left out, each operation is one step.
pub mod Slots
pub mod Laws
mod Tests
use proxy_for_distribution_s.Base.{
  ℕ, zero, suc, ◌+◌, ◌*◌, ◌==◌, Text, text_eq, Bool, true, false, ◌||◌, if◌then◌else◌, List, [],
  ◌∷◌, ◌++◌, drop, copy, replicate,
}

pub record BlackList : Type 0 where
  pub count : ℕ
  pub buffer : List ℕ

abbrev pub ip_size : ℕ
ip_size = 20

-- HEI_MING_DAN_BUFFER_SIZE
abbrev pub buffer_size : ℕ
buffer_size = 20000

-- The black list's part of `init_shm`.
unfoldable pub init_shm : BlackList
init_shm = record { count = 0; buffer = replicate buffer_size 0 }

-- The bytes that the string functions see from a pointer on.
unfoldable pub c_string : List ℕ → Text
c_string [] = []
c_string (b ∷ bs) = let rest = c_string bs in if b == 0 then [] else b ∷ rest

-- Messages of type 2 in `PassiveDetect`.
unfoldable pub add : Text → BlackList → BlackList
add ip l =
    if l.count == 1000
    then l
    else record { count = l.count + 1; buffer = copy l.buffer (20 * l.count) (ip ++ 0 ∷ []) }

-- The loop of `verify_client_ip`, `n` slots from slot `i` on.
unfoldable pub scan : ℕ → ℕ → Text → List ℕ → Bool
unfolding c_string
scan zero i ip buffer = false
scan (suc n) i ip buffer = text_eq (c_string (drop (i * 20) buffer)) ip || scan n (i + 1) ip buffer

unfoldable pub verify_client_ip : Text → BlackList → Bool
unfolding scan
verify_client_ip ip l = scan l.count 0 ip l.buffer

unfoldable pub empty_heimingdan : BlackList → BlackList
empty_heimingdan l = record { count = 0; buffer = replicate buffer_size 0 }
