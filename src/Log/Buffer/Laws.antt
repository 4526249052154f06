-- ===== src/Log/Buffer/Laws.antt =====
-- What the operations of src/log/mini_buffer.cc do to the bytes that a buffer holds.
use proxy_for_distribution_s.Base.{
  copy, length-take, drop_all, append_assoc, length-copy, take-drop, drop_twice, take_all,
  drop_past, ℕ, ◌+◌, ◌-◌, ◌≤◌, ◌<◌, ltb, leb, ◌==◌, true, if◌then◌else◌, List, [], ◌++◌, none, some,
  length, take, drop, replicate, ◌≡◌, refl, arith, ap, sym, ◌∙◌, subst, ◌⊎◌, inl, inr, Bool-cases,
  length-append,
}
use proxy_for_distribution_s.Log.Buffer.{
  Buffer, cheap_prependable, prependable_bytes, readable_bytes, writable_bytes, peek, moved,
  resized, make_space, ensure_writable, has_written, retrieve_all, retrieve, retrieve_as_string,
  append, read_fd,
}
use proxy_for_distribution_s.Log.Buffer.Bytes.{
  IsValid, length-peek, peek-copy, peek-moved, moved-IsValid, peek-resized, length-resized,
}

-- What making room leaves.
record Roomy (len : ℕ) (b b' : Buffer) : Type 0 where
  valid : IsValid b'
  keeps : peek b' ≡ peek b
  room : len ≤ writable_bytes b'

resized-IsValid : (n : ℕ) (b : Buffer) → IsValid b → IsValid (resized n b)
resized-IsValid n b v = record {
  front = v.front;
  ordered = v.ordered;
  inside =
      omega (arith, v.inside, length-append b.m_buffer_ (replicate (n - length b.m_buffer_) 0));
}

ensure_writable_lem :
    (len : ℕ) (b : Buffer)
    → IsValid b
    → ((b' : Buffer) × (ensure_writable len b ≡ some b') × Roomy len b b')
      ⊎ ((writable_bytes b < len)
          × (b.m_read_idx_ ≡ cheap_prependable)
          × (ensure_writable len b ≡ none))
unfolding ensure_writable make_space
ensure_writable_lem len b v = elim (Bool-cases (ltb (writable_bytes b) len)) [
  | inr fits ↦ inl (b, ground arith, record { valid = v; keeps = refl; room = ground arith })
  | inl short ↦ elim (Bool-cases (ltb cheap_prependable b.m_read_idx_)) [
    | inr first ↦ inr (ground arith, ground (arith, v.front), ground arith)
    | inl later ↦
        let b1 = moved b in
        let v1 = moved-IsValid b v in
        let kept : (readable_bytes b == readable_bytes b1) ≡ true = ground arith in
        elim (Bool-cases
          (ltb (writable_bytes b1 + prependable_bytes b1) (len + cheap_prependable))) [
            | inr enough ↦ inl (
              b1,
              ground arith,
              record { valid = v1; keeps = peek-moved b v; room = ground arith },
            )
            | inl grows ↦
                let b2 = resized (b1.m_write_idx_ + len) b1 in
                let long = length-resized (b1.m_write_idx_ + len) b1 in
                inl (
                  b2,
                  ground arith,
                  record {
                    valid = resized-IsValid (b1.m_write_idx_ + len) b1 v1;
                    keeps = peek-resized (b1.m_write_idx_ + len) b1 v1 ∙ peek-moved b v;
                    room = omega (arith, long);
                  },
                )
          ]
  ]
]

-- An append to a valid buffer puts the bytes behind those that it holds and leaves it valid, but
-- where they do not fit and nothing was read so far an assertion fails.
pub append_lem :
    (str : List ℕ) (b : Buffer)
    → IsValid b
    → ((b' : Buffer) × (append str b ≡ some b') × IsValid b' × (peek b' ≡ peek b ++ str))
      ⊎ ((writable_bytes b < length str)
          × (b.m_read_idx_ ≡ cheap_prependable)
          × (append str b ≡ none))
unfolding append has_written
append_lem str b v = elim (ensure_writable_lem (length str) b v) [
  | inr (short, first, stops) ↦ inr (short, first, ground arith)
  | inl (b1, e, r) ↦
      let v1 = r.valid in
      let len = length-copy b1.m_buffer_ b1.m_write_idx_ str (omega (arith, r.room, v1.inside)) in
      inl (
        record b1 {
          m_buffer_ = copy b1.m_buffer_ b1.m_write_idx_ str;
          m_write_idx_ = b1.m_write_idx_ + length str;
        },
        ground arith,
        record {
          front = v1.front;
          ordered = omega (arith, v1.ordered);
          inside = omega (arith, r.room, v1.inside);
        },
        peek-copy b1 str v1 ∙ ap (λ bs. bs ++ str) r.keeps,
      )
]

-- A part of the bytes, or all of them, is taken off the front.
retrieve_lem :
    (k : ℕ) (b : Buffer)
    → IsValid b
    → k ≤ readable_bytes b
    → (b' : Buffer) × (retrieve k b ≡ some b') × IsValid b' × (peek b ≡ take k (peek b) ++ peek b')
unfolding retrieve retrieve_all
retrieve_lem k b v h = elim (Bool-cases (ltb k (readable_bytes b))) [
  | inl part ↦ (
    record b { m_read_idx_ = b.m_read_idx_ + k },
    ground arith,
    record {
      front = omega (arith, v.front);
      ordered = ground (arith, v.ordered);
      inside = v.inside;
    },
    take-drop k (peek b)
        ∙ ap (λ ys. take k (peek b) ++ ys)
            (drop_twice b.m_read_idx_ k (take b.m_write_idx_ b.m_buffer_)),
  )
  | inr whole ↦
      let eight : length (take cheap_prependable b.m_buffer_) ≡ cheap_prependable =
        length-take cheap_prependable b.m_buffer_ (omega (arith, v.front, v.ordered, v.inside)) in
      let empty : drop cheap_prependable (take cheap_prependable b.m_buffer_) ≡ [] =
        drop_all cheap_prependable (take cheap_prependable b.m_buffer_) (omega arith) in
      let long : length (peek b) ≤ k = ground (arith, length-peek b v) in
      (
        retrieve_all b,
        ground arith,
        record {
          front = omega arith;
          ordered = omega arith;
          inside = omega (arith, v.front, v.ordered, v.inside);
        },
        take-drop k (peek b)
            ∙ ap (λ ys. take k (peek b) ++ ys) (drop_past k (peek b) long ∙ sym empty),
      )
]

-- Where a valid buffer holds `len` bytes, they are taken off its front as a string, or all its bytes if
-- `len` is 0; the string and what is left are what it held, and it stays valid.
retrieve_as_string_lem :
    (len : ℕ) (b : Buffer)
    → IsValid b
    → len ≤ readable_bytes b
    → (b' : Buffer) × (str : List ℕ) × (retrieve_as_string len b ≡ some (b', str))
      × IsValid b'
      × (peek b ≡ str ++ peek b')
      × (length str ≡ (if len == 0 then readable_bytes b else len))
unfolding retrieve_as_string
retrieve_as_string_lem len b v h =
    let k = if len == 0 then readable_bytes b else len in
    let fits : k ≤ readable_bytes b = ground arith in
    let (b', e, v', parts) = retrieve_lem k b v fits in
    (
      b',
      take k (peek b),
      ground arith,
      v',
      parts,
      length-take k (peek b) (omega (arith, length-peek b v)),
    )

-- What `readv` delivered to a valid buffer comes behind the bytes that it holds, whether it fits or
-- not, and leaves it valid, but where it does not fit and nothing was read so far an assertion
-- fails.
pub read_fd_lem :
    (got : List ℕ) (b : Buffer)
    → IsValid b
    → ((b' : Buffer) × (read_fd (some got) b ≡ some b') × IsValid b' × (peek b' ≡ peek b ++ got))
      ⊎ ((writable_bytes b < length got)
          × (b.m_read_idx_ ≡ cheap_prependable)
          × (read_fd (some got) b ≡ none))
unfolding read_fd
read_fd_lem got b v = elim (Bool-cases (leb (length got) (writable_bytes b))) [
  | inl fits ↦
      let whole : take (writable_bytes b) got ≡ got =
        take_all (writable_bytes b) got (ground arith) in
      let len = length-copy b.m_buffer_ b.m_write_idx_ got (ground (arith, v.inside)) in
      inl (
        record b {
          m_buffer_ = copy b.m_buffer_ b.m_write_idx_ got;
          m_write_idx_ = b.m_write_idx_ + length got;
        },
        rw (fits, whole) refl,
        record {
          front = v.front;
          ordered = omega (arith, v.ordered);
          inside = ground (arith, v.inside);
        },
        peek-copy b got v,
      )
  | inr over ↦
      let piece = take (writable_bytes b) got in
      let short : length piece ≡ writable_bytes b =
        length-take (writable_bytes b) got (ground arith) in
      let len = length-copy b.m_buffer_ b.m_write_idx_ piece (omega (arith, v.inside)) in
      let filled : Buffer = record b {
        m_buffer_ = copy b.m_buffer_ b.m_write_idx_ piece;
        m_write_idx_ = length b.m_buffer_;
      } in
      let end : b.m_write_idx_ + length piece ≡ length b.m_buffer_ = omega (arith, v.inside) in
      let held : peek filled ≡ peek b ++ piece =
        subst (λ w. peek (record filled { m_write_idx_ = w }) ≡ peek b ++ piece) end
          (peek-copy b piece v) in
      let v' : IsValid filled = record {
        front = v.front;
        ordered = omega (arith, v.ordered, v.inside);
        inside = omega arith;
      } in
      elim (append_lem (drop (writable_bytes b) got) filled v') [
        | inl (b', e, v'', more) ↦ inl (
          b',
          rw over e,
          v'',
          more
              ∙ ap (λ ys. ys ++ drop (writable_bytes b) got) held
              ∙ append_assoc (peek b) piece (drop (writable_bytes b) got)
              ∙ ap (λ ys. peek b ++ ys) (sym (take-drop (writable_bytes b) got)),
        )
        | inr (_, first, stops) ↦ inr (ground arith, first, rw over stops)
      ]
]
