-- ===== src/EventQueue/Tests.antt =====
-- The theorems about the rings at concrete rings.
use proxy_for_distribution_s.Base.{◌+◌, ◌<◌, [], ◌∷◌, none, some, length, ◌≡◌, refl, arith, ◌⊎◌}
use proxy_for_distribution_s.EventQueue.{Ring, push}
use proxy_for_distribution_s.EventQueue.Fifo.{IsValid, contents, Pushed, push_lem}

-- Two events that go round the end of the array: 7, then 8.
abbrev wrapped : Ring
wrapped = record { slots = 8 ∷ 0 ∷ 0 ∷ 7 ∷ []; front = 3; back = 1 }

wrapped-IsValid : IsValid wrapped
wrapped-IsValid = record { front_in = omega arith; back_in = omega arith }

wrapped-contents : contents wrapped ≡ 7 ∷ 8 ∷ []
wrapped-contents = refl

abbrev fuller : Ring
fuller = record { slots = 8 ∷ 9 ∷ 0 ∷ 7 ∷ []; front = 3; back = 2 }

push_9 : push wrapped 9 ≡ some fuller
unfolding push
push_9 = refl

full : push fuller 10 ≡ none
unfolding push
full = refl

push_lem_example :
    ((q' : Ring) × (length (contents wrapped) + 1 < length wrapped.slots)
      × (push wrapped 9 ≡ some q')
      × Pushed wrapped 9 q')
    ⊎ ((length (contents wrapped) + 1 ≡ length wrapped.slots) × (push wrapped 9 ≡ none))
push_lem_example = push_lem wrapped 9 wrapped-IsValid
