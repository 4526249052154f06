-- ===== src/Log/Buffer/Tests.antt =====
-- The theorems about buffers at concrete ones.
use proxy_for_distribution_s.Base.{◌<◌, [], ◌∷◌, some, none, ◌≡◌, arith, ◌⊎◌}
use proxy_for_distribution_s.Log.Buffer.{
  Buffer, writable_bytes, peek, cheap_prependable, append, read_fd,
}
use proxy_for_distribution_s.Log.Buffer.Bytes.{IsValid}
use proxy_for_distribution_s.Log.Buffer.Laws.{append_lem, read_fd_lem}

-- Two bytes, one that was read before them, one place left.
abbrev used : Buffer
used = record {
  m_buffer_ = 0 ∷ 0 ∷ 0 ∷ 0 ∷ 0 ∷ 0 ∷ 0 ∷ 0 ∷ 1 ∷ 2 ∷ 3 ∷ 0 ∷ [];
  m_read_idx_ = 9;
  m_write_idx_ = 11;
}

used-IsValid : IsValid used
used-IsValid = record { front = omega arith; ordered = omega arith; inside = omega arith }

append_lem_example :
    ((b' : Buffer) × (append (4 ∷ 5 ∷ []) used ≡ some b')
      × IsValid b'
      × (peek b' ≡ 2 ∷ 3 ∷ 4 ∷ 5 ∷ []))
    ⊎ ((writable_bytes used < 2) × (9 ≡ cheap_prependable) × (append (4 ∷ 5 ∷ []) used ≡ none))
append_lem_example = append_lem (4 ∷ 5 ∷ []) used used-IsValid

read_fd_lem_example :
    ((b' : Buffer) × (read_fd (some (4 ∷ [])) used ≡ some b')
      × IsValid b'
      × (peek b' ≡ 2 ∷ 3 ∷ 4 ∷ []))
    ⊎ ((writable_bytes used < 1) × (9 ≡ cheap_prependable) × (read_fd (some (4 ∷ [])) used ≡ none))
read_fd_lem_example = read_fd_lem (4 ∷ []) used used-IsValid
