-- ===== src/EventQueue/Fifo.antt =====
-- A ring of include/pool.h is a bounded queue, oldest event first.
use proxy_for_distribution_s.Base.{
  ℕ, zero, suc, ◌+◌, ◌-◌, ◌%◌, ◌<◌, ◌==◌, if◌then◌else◌, List, [], ◌∷◌, ◌++◌, none, some, length,
  get_elem?, get_or, set, ◌≡◌, ◌≢◌, refl, arith, ap, ap₂, sym, ◌∙◌, get_or-set_self, get_or-set_ne,
  length-set, ltb, Bool-cases, inl, inr, ◌⊎◌,
}
use proxy_for_distribution_s.EventQueue.{Ring, next_index, is_empty, oldest, advance, push}

pub record IsValid (q : Ring) : Type 0 where
  pub front_in : q.front < length q.slots
  pub back_in : q.back < length q.slots

-- How many entries lie from the front to the back.
abbrev pub size : Ring → ℕ
size q = if ltb q.back q.front then q.back + length q.slots - q.front else q.back - q.front

-- The `n` entries from index `i` on, round the end of an array of `c` entries.
abbrev pub entries : List ℕ → ℕ → ℕ → ℕ → List ℕ
entries slots c i zero = []
entries slots c i (suc n) = get_or slots i 0 ∷ entries slots c ((i + 1) % c) n

abbrev pub contents : Ring → List ℕ
contents q = entries q.slots (length q.slots) q.front (size q)

length-entries : (slots : List ℕ) (c i n : ℕ) → length (entries slots c i n) ≡ n
length-entries slots c i zero = refl
length-entries slots c i (suc n) = ap suc (length-entries slots c ((i + 1) % c) n)

-- Where `n` steps from `i` come to, round an array of `c` entries.
abbrev ahead : ℕ → ℕ → ℕ → ℕ
ahead c i n = if ltb (i + n) c then i + n else i + n - c

step_lem : (c i : ℕ) → i < c → (i + 1) % c ≡ ahead c i 1
step_lem c i h = grind arith

entries-set :
    (slots : List ℕ) (event n c i b : ℕ)
    → c ≡ length slots
    → i < c
    → n < c
    → b ≡ ahead c i n
    → entries (set slots b event) c i (suc n) ≡ entries slots c i n ++ event ∷ []
entries-set slots event zero c i b len hi hn e =
    let at : b ≡ i = ground arith in rw (at, get_or-set_self slots i event 0 (omega arith))
entries-set slots event (suc n) c i b len hi hn e =
    let apart : b ≢ i = ground arith in
    ap₂ ◌∷◌ (get_or-set_ne slots event 0 apart) (
      entries-set slots event n c ((i + 1) % c) b len (ground (arith, step_lem c i)) (omega arith)
        (ground (arith, step_lem c i)))

entries_suc :
    (slots : List ℕ) (c i n : ℕ)
    → n ≢ 0
    → entries slots c i n ≡ get_or slots i 0 ∷ entries slots c ((i + 1) % c) (n - 1)
entries_suc slots c i zero h = absurd (h refl)
entries_suc slots c i (suc n) h = ap (λ k. entries slots c i (suc k)) (omega arith)

get_elem?-get_or : (xs : List ℕ) (i : ℕ) → i < length xs → get_elem? xs i ≡ some (get_or xs i 0)
get_elem?-get_or [] i h = absurd (omega arith)
get_elem?-get_or (x ∷ xs) zero h = refl
get_elem?-get_or (x ∷ xs) (suc i) h = get_elem?-get_or xs i (omega arith)

pub length-contents : (q : Ring) → length (contents q) ≡ size q
length-contents q = length-entries q.slots (length q.slots) q.front (size q)

-- The test `queue_back != queue_front` sees whether the queue is empty.
pub is_empty_lem : {q : Ring} → IsValid q → is_empty q ≡ (length (contents q) == 0)
unfolding is_empty
is_empty_lem {q} v = ground (arith, length-contents q)

-- What a push that does not stop the program leaves.
pub record Pushed (q : Ring) (event : ℕ) (q' : Ring) : Type 0 where
  pub valid : IsValid q'
  pub held : contents q' ≡ contents q ++ event ∷ []
  pub as_long : length q'.slots ≡ length q.slots

push-size :
    (q : Ring) (b : ℕ)
    → IsValid q
    → b ≡ (q.back + 1) % length q.slots
    → b ≢ q.front
    → (b < length q.slots)
      × (size (record q { back = b }) ≡ suc (size q))
      × (q.back ≡ ahead (length q.slots) q.front (size q))
push-size q b v e ne = ground (arith, step_lem (length q.slots) q.back)

stored : Ring → ℕ → Ring
stored q event = record q { slots = set q.slots q.back event; back = next_index q.slots q.back }

stored-Pushed :
    (q : Ring) (event : ℕ)
    → IsValid q
    → (q.back + 1) % length q.slots ≢ q.front
    → Pushed q event (stored q event)
unfolding stored
stored-Pushed q event v ne =
    let c = length q.slots in
    let same = length-set q.slots q.back event in
    let (fits, grows, where_back) = push-size q ((q.back + 1) % c) v refl ne in
    record {
      valid = record { front_in = rw same v.front_in; back_in = rw same fits };
      held =
          rw (same, grows)
            (entries-set q.slots event (size q) c q.front q.back refl v.front_in (ground arith)
              where_back);
      as_long = same;
    }

-- A push on a valid ring stops the program just where the queue holds one event fewer than the
-- array has entries. Otherwise the event stands at the end of the queue, the ring is valid, and the
-- array is as long as before.
pub push_lem :
    (q : Ring) (event : ℕ)
    → IsValid q
    → ((q' : Ring) × (length (contents q) + 1 < length q.slots)
        × (push q event ≡ some q')
        × Pushed q event q')
      ⊎ ((length (contents q) + 1 ≡ length q.slots) × (push q event ≡ none))
unfolding push stored
push_lem q event v = elim (Bool-cases ((q.back + 1) % length q.slots == q.front)) [
  | inl full ↦
      inr (ground (arith, length-contents q, step_lem (length q.slots) q.back), ground arith)
  | inr room ↦ inl (
    stored q event,
    ground (arith, length-contents q, step_lem (length q.slots) q.back),
    ground arith,
    stored-Pushed q event v (ground arith),
  )
]

-- The front of a valid ring that is not empty is the first event of its queue, and moving the front
-- takes that event off and leaves the ring valid.
pub advance_lem :
    (q : Ring)
    → IsValid q
    → contents q ≢ []
    → (event : ℕ) × (oldest q ≡ some event)
      × (contents q ≡ event ∷ contents (advance q))
      × IsValid (advance q)
      × ((advance q).slots ≡ q.slots)
unfolding oldest advance
advance_lem q v h =
    let c = length q.slots in
    let some_left : size q ≢ 0 = λ e. h (ap (entries q.slots c q.front) e) in
    let less : size (record q { front = (q.front + 1) % c }) ≡ size q - 1 =
      ground (arith, step_lem c q.front) in
    (
      get_or q.slots q.front 0,
      get_elem?-get_or q.slots q.front v.front_in,
      entries_suc q.slots c q.front (size q) some_left
          ∙ ap (λ n. get_or q.slots q.front 0 ∷ entries q.slots c ((q.front + 1) % c) n) (sym less),
      record { front_in = ground (arith, step_lem c q.front); back_in = v.back_in },
      refl,
    )
