-- ===== src/BlackList/Laws.antt =====
-- The black list is a set of addresses: src/proxy/server_monitor.cc and include/pool.h.
use proxy_for_distribution_s.Base.{
  ℕ, zero, suc, ◌+◌, ◌*◌, ◌≤◌, ◌<◌, ◌==◌, Text, text_eq, false, not, ◌&&◌, ◌||◌, List, [], ◌∷◌,
  ◌++◌, drop, copy, length, ◌≡◌, refl, arith, ap, ◌∙◌, subst, Bool-cases, inl, inr, length-append,
  length-copy, length-replicate, zero_byte, append_assoc, ap₂,
}
use proxy_for_distribution_s.BlackList.{
  BlackList, ip_size, buffer_size, init_shm, c_string, add, scan, verify_client_ip,
  empty_heimingdan,
}
use proxy_for_distribution_s.BlackList.Slots.{
  IsIp, IsValid, c_string_written, slot_before, slot_written,
}

-- The loop sees no more than the slots that it is to look at.
scan_same :
    (n i : ℕ) (ip : Text) (bs cs : List ℕ)
    → ((k : ℕ) → i ≤ k → k < i + n → c_string (drop (k * 20) cs) ≡ c_string (drop (k * 20) bs))
    → scan n i ip cs ≡ scan n i ip bs
unfolding scan
scan_same zero i ip bs cs h = refl
scan_same (suc n) i ip bs cs h =
    rw
      (
        h i (omega arith) (omega arith),
        scan_same n (i + 1) ip bs cs (λ k low high. h k (omega arith) (omega arith)),
      )
      refl

-- One slot more.
scan-suc :
    (n i : ℕ) (ip : Text) (bs : List ℕ)
    → scan (suc n) i ip bs ≡ (scan n i ip bs || text_eq (c_string (drop ((i + n) * 20) bs)) ip)
unfolding scan
scan-suc zero i ip bs = let same : i + 0 ≡ i = omega arith in rw same (ground arith)
scan-suc (suc n) i ip bs =
    let same : i + suc n ≡ i + 1 + n = omega arith in
    rw same (ground (arith, scan-suc n (i + 1) ip bs))

module _ (a : Text) (l : BlackList) (address : IsIp a) (v : IsValid l) where
  added : BlackList
  added = record { count = l.count + 1; buffer = copy l.buffer (20 * l.count) (a ++ 0 ∷ []) }

  written :
      l.count < 1000
      → c_string (drop (l.count * 20) (copy l.buffer (20 * l.count) (a ++ 0 ∷ []))) ≡ a
  written room =
      ap c_string (
        slot_written l.buffer l.count (a ++ 0 ∷ []) v.size room
        ∙ append_assoc a (0 ∷ []) (drop (20 * l.count + length (a ++ 0 ∷ [])) l.buffer))
      ∙ c_string_written a (drop (20 * l.count + length (a ++ 0 ∷ [])) l.buffer) address.clean

  added-IsValid : l.count < 1000 → IsValid added
  unfolding added
  added-IsValid room = record {
    size =
        length-copy l.buffer (20 * l.count) (a ++ 0 ∷ [])
          (omega (arith, length-append a (0 ∷ []), address.fits, v.size))
        ∙ v.size;
    room = omega arith;
    ended = λ i low. elim (Bool-cases (i == l.count)) [
      | inl last ↦
          let at : l.count ≡ i = ground arith in
          subst
            (λ k.
              length (c_string (drop (k * 20) (copy l.buffer (20 * l.count) (a ++ 0 ∷ []))))
              < ip_size)
            at (rw (written room) address.fits)
      | inr before ↦
          let less : i < l.count = ground arith in
          rw (slot_before l.buffer l.count (a ++ 0 ∷ []) v.size room i less (v.ended i less))
            (v.ended i less)
    ];
  }

  added_lem :
      (b : Text) → l.count < 1000 → verify_client_ip b added ≡ (verify_client_ip b l || text_eq a b)
  unfolding verify_client_ip added
  added_lem b room =
      let one : l.count + 1 ≡ suc l.count = omega arith in
      rw one (
        scan-suc l.count 0 b (copy l.buffer (20 * l.count) (a ++ 0 ∷ []))
        ∙ ap₂ ◌||◌
            (scan_same l.count 0 b l.buffer (copy l.buffer (20 * l.count) (a ++ 0 ∷ []))
              (λ k low high.
                let less : k < l.count = omega arith in
                slot_before l.buffer l.count (a ++ 0 ∷ []) v.size room k less (v.ended k less)))
            (let zeroth : 0 + l.count ≡ l.count = omega arith in
              rw zeroth (ap (λ t. text_eq t b) (written room))))

-- An address is put into a valid black list unless that has 1000 of them, and the list stays valid:
-- then the list has the addresses that it had before and the new one.
pub verify_client_ip-add :
    (a b : Text) (l : BlackList)
    → IsIp a
    → IsValid l
    → IsValid (add a l)
      × (verify_client_ip b (add a l)
          ≡ (verify_client_ip b l || (not (l.count == 1000) && text_eq a b)))
unfolding add added
verify_client_ip-add a b l address v = elim (Bool-cases (l.count == 1000)) [
  | inl full ↦ rw full (v, ground arith)
  | inr more ↦
      let room : l.count < 1000 = ground (arith, v.room) in
      rw more (added-IsValid a l address v room, added_lem a l address v b room)
]

-- After the list was emptied, or at its start, it is valid and has no address.
pub verify_client_ip-empty_heimingdan :
    (b : Text) (l : BlackList)
    → IsValid (empty_heimingdan l)
      × (verify_client_ip b (empty_heimingdan l) ≡ false)
      × (init_shm ≡ empty_heimingdan l)
unfolding empty_heimingdan verify_client_ip scan init_shm
verify_client_ip-empty_heimingdan b l = (
  record {
    size = length-replicate buffer_size zero_byte;
    room = omega arith;
    ended = λ i low. absurd (omega arith);
  },
  refl,
  refl,
)
