-- ===== src/BlackList/Tests.antt =====
-- The theorems about the black list at the address 1.2.3.4.
use proxy_for_distribution_s.Base.{◌==◌, Text, codes, text_eq, not, ◌&&◌, ◌||◌, ◌≡◌, refl, arith}
use proxy_for_distribution_s.BlackList.{init_shm, empty_heimingdan, add, verify_client_ip}
use proxy_for_distribution_s.BlackList.Slots.{IsIp, IsValid}
use proxy_for_distribution_s.BlackList.Laws.{
  verify_client_ip-add, verify_client_ip-empty_heimingdan,
}

abbrev bad : Text
bad = codes "1.2.3.4"

bad-IsIp : IsIp bad
bad-IsIp = record { fits = omega arith; clean = refl }

verify_client_ip-add_example :
    IsValid (add bad (empty_heimingdan init_shm))
    × (verify_client_ip bad (add bad (empty_heimingdan init_shm)) ≡ (
        verify_client_ip bad (empty_heimingdan init_shm)
        || (not ((empty_heimingdan init_shm).count == 1000) && text_eq bad bad)))
verify_client_ip-add_example =
    verify_client_ip-add bad bad (empty_heimingdan init_shm) bad-IsIp
      (verify_client_ip-empty_heimingdan bad init_shm).0
