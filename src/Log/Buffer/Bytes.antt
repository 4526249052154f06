-- ===== src/Log/Buffer/Bytes.antt =====
-- The operations on a buffer, src/log/mini_buffer.cc, as operations on the bytes that it holds.
use proxy_for_distribution_s.Base.{
  copy, zero_byte, length-take, length-drop, take_front, drop_all, drop-append, length-copy,
  take-copy, ℕ, ◌+◌, ◌-◌, ◌≤◌, List, ◌++◌, length, take, drop, replicate, ◌≡◌, refl, arith, ap, ◌∙◌,
  length-append, length-replicate,
}
use proxy_for_distribution_s.Log.Buffer.{
  Buffer, cheap_prependable, readable_bytes, peek, moved, resized,
}

pub record IsValid (b : Buffer) : Type 0 where
  pub front : cheap_prependable ≤ b.m_read_idx_
  pub ordered : b.m_read_idx_ ≤ b.m_write_idx_
  pub inside : b.m_write_idx_ ≤ length b.m_buffer_

pub length-peek : (b : Buffer) → IsValid b → length (peek b) ≡ readable_bytes b
length-peek b v = omega (
  arith,
  length-drop b.m_read_idx_ (take b.m_write_idx_ b.m_buffer_),
  length-take b.m_write_idx_ b.m_buffer_ v.inside,
)

-- Bytes written at the write index follow those that were there.
pub peek-copy :
    (b : Buffer) (str : List ℕ)
    → IsValid b
    → peek (record b {
      m_buffer_ = copy b.m_buffer_ b.m_write_idx_ str;
      m_write_idx_ = b.m_write_idx_ + length str;
    })
      ≡ peek b ++ str
peek-copy b str v =
    ap (drop b.m_read_idx_) (take-copy b.m_buffer_ b.m_write_idx_ _ str v.inside refl)
    ∙ drop-append b.m_read_idx_ (take b.m_write_idx_ b.m_buffer_) str
        (omega (arith, length-take b.m_write_idx_ b.m_buffer_ v.inside, v.ordered))

pub peek-moved : (b : Buffer) → IsValid b → peek (moved b) ≡ peek b
peek-moved b v =
    let size = length-peek b v in
    let eight =
      length-take cheap_prependable b.m_buffer_ (omega (arith, v.front, v.ordered, v.inside)) in
    ap (drop cheap_prependable) (
      take-copy b.m_buffer_ cheap_prependable _ (peek b)
        (omega (arith, v.front, v.ordered, v.inside)) (omega arith))
    ∙ drop-append cheap_prependable (take cheap_prependable b.m_buffer_) (peek b) (omega arith)
    ∙ ap (λ bs. bs ++ peek b)
        (drop_all cheap_prependable (take cheap_prependable b.m_buffer_) (omega arith))

pub moved-IsValid : (b : Buffer) → IsValid b → IsValid (moved b)
moved-IsValid b v =
    let size = length-peek b v in
    let same =
      length-copy b.m_buffer_ cheap_prependable (peek b)
        (omega (arith, v.front, v.ordered, v.inside)) in
    record {
      front = omega arith;
      ordered = omega arith;
      inside = omega (arith, v.front, v.ordered, v.inside);
    }

pub peek-resized : (n : ℕ) (b : Buffer) → IsValid b → peek (resized n b) ≡ peek b
peek-resized n b v = ap (drop b.m_read_idx_) (take_front b.m_write_idx_ b.m_buffer_ _ v.inside)

pub length-resized : (n : ℕ) (b : Buffer) → n ≤ length (resized n b).m_buffer_
length-resized n b = ground (
  arith,
  length-append b.m_buffer_ (replicate (n - length b.m_buffer_) 0),
  length-replicate (n - length b.m_buffer_) zero_byte,
)
