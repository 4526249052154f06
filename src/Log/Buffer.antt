-- ===== src/Log/Buffer.antt =====
-- `Buffer` of src/log/mini_buffer.h and mini_buffer.cc. A pointer into the buffer is an index; what
-- `readv` and `write` of the system give is an argument. `none` is an assertion that fails.
pub mod Bytes
pub mod Laws
mod Tests
use proxy_for_distribution_s.Base.{
  copy, ℕ, ◌+◌, ◌-◌, ltb, leb, ◌==◌, Bool, true, false, not, if◌then◌else◌, List, [], ◌∷◌, ◌++◌,
  Option, none, some, length, take, drop, replicate, ◌>>=◌,
}

pub record Buffer : Type 0 where
  pub m_buffer_ : List ℕ
  pub m_read_idx_ : ℕ
  pub m_write_idx_ : ℕ

abbrev pub buf_size : ℕ
buf_size = 1024

abbrev pub cheap_prependable : ℕ
cheap_prependable = 8

-- The constructor
abbrev pub new_buffer : Buffer
new_buffer = record {
  m_buffer_ = replicate (buf_size + cheap_prependable) 0;
  m_read_idx_ = cheap_prependable;
  m_write_idx_ = cheap_prependable;
}

abbrev pub prependable_bytes : Buffer → ℕ
prependable_bytes b = b.m_read_idx_

abbrev pub readable_bytes : Buffer → ℕ
readable_bytes b = b.m_write_idx_ - b.m_read_idx_

abbrev pub writable_bytes : Buffer → ℕ
writable_bytes b = length b.m_buffer_ - b.m_write_idx_

-- What lies between the two indices.
abbrev pub peek : Buffer → List ℕ
peek b = drop b.m_read_idx_ (take b.m_write_idx_ b.m_buffer_)

abbrev pub assert : Bool → Option (Unit {0})
assert true = some tt
assert false = none

-- Both copies of the buffer in `make_space`: moved to the front, then with more room.
abbrev pub moved : Buffer → Buffer
moved b = record b {
  m_buffer_ = copy b.m_buffer_ cheap_prependable (peek b);
  m_read_idx_ = cheap_prependable;
  m_write_idx_ = cheap_prependable + readable_bytes b;
}

-- `resize`, to a greater size
abbrev pub resized : ℕ → Buffer → Buffer
resized n b = record b { m_buffer_ = b.m_buffer_ ++ replicate (n - length b.m_buffer_) 0 }

unfoldable pub make_space : ℕ → Buffer → Option Buffer
make_space len b = do
  _ ← assert (ltb cheap_prependable b.m_read_idx_)
  let b' = moved b
  _ ← assert (readable_bytes b == readable_bytes b')
  if ltb (writable_bytes b' + prependable_bytes b') (len + cheap_prependable)
      then some (resized (b'.m_write_idx_ + len) b')
      else some b'

unfoldable pub ensure_writable : ℕ → Buffer → Option Buffer
unfolding make_space
ensure_writable len b = do
  b' ← if ltb (writable_bytes b) len then make_space len b else some b
  _ ← assert (leb len (writable_bytes b'))
  some b'

unfoldable pub has_written : ℕ → Buffer → Buffer
has_written len b = record b { m_write_idx_ = b.m_write_idx_ + len }

unfoldable pub retrieve_all : Buffer → Buffer
retrieve_all b = record b { m_read_idx_ = cheap_prependable; m_write_idx_ = cheap_prependable }

unfoldable pub retrieve : ℕ → Buffer → Option Buffer
unfolding retrieve_all
retrieve len b = do
  _ ← assert (leb len (readable_bytes b))
  if ltb len (readable_bytes b)
      then some (record b { m_read_idx_ = b.m_read_idx_ + len })
      else some (retrieve_all b)

-- `end` is an index.
unfoldable pub retrieve_until : ℕ → Buffer → Option Buffer
unfolding retrieve
retrieve_until end b = do
  _ ← assert (leb b.m_read_idx_ end)
  _ ← assert (leb end b.m_write_idx_)
  retrieve (end - b.m_read_idx_) b

unfoldable pub retrieve_as_string : ℕ → Buffer → Option (Buffer × List ℕ)
unfolding retrieve
retrieve_as_string len b = do
  _ ← assert (leb len (readable_bytes b))
  let len' = if len == 0 then readable_bytes b else len
  b' ← retrieve len' b
  some (b', take len' (peek b))

unfoldable pub append : List ℕ → Buffer → Option Buffer
unfolding ensure_writable has_written
append str b = do
  b' ← ensure_writable (length str) b
  some (has_written (length str) (record b' { m_buffer_ = copy b'.m_buffer_ b'.m_write_idx_ str }))

-- `Append(const Buffer&)`
unfoldable pub append_buffer : Buffer → Buffer → Option Buffer
unfolding append
append_buffer buff_ b = append (peek buff_) b

-- What `readv` put into the two pieces of memory, one after the other; `none` is an error.
unfoldable pub read_fd : Option (List ℕ) → Buffer → Option Buffer
unfolding append
read_fd none b = some b
read_fd (some got) b =
    let writable = writable_bytes b in
    let filled = record b { m_buffer_ = copy b.m_buffer_ b.m_write_idx_ (take writable got) } in
    if leb (length got) writable
    then some (record filled { m_write_idx_ = b.m_write_idx_ + length got })
    else append (drop writable got) (record filled { m_write_idx_ = length b.m_buffer_ })

-- How many bytes `write` took; `none` is an error.
unfoldable pub write_fd : Option ℕ → Buffer → Buffer
write_fd none b = b
write_fd (some len) b = record b { m_read_idx_ = b.m_read_idx_ + len }
