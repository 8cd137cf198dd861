-- ===== src/Handles/Tests.antt =====
-- Runs of the allocator, and its theorems at concrete states.
use directplay_lite.Common.{◌-◌, ◌^◌, ◌<◌, ◌≡◌, ◌≢◌, ◌↔◌, refl, [], ◌∷◌, arith}
use directplay_lite.Handles.{Allocator, enum, send, rpgroup, init, new_handle, alloc, alloc_all}
use directplay_lite.Handles.Laws.{IsWf, init-IsWf, alloc-reserved}
use directplay_lite.Handles.Distinct.{Distinct, HasRoom, alloc_all-Distinct}

first_handles :
    (alloc_all (enum ∷ send ∷ send ∷ rpgroup ∷ []) init).0
    ≡ 0x00000001 ∷ 0x40000001 ∷ 0x40000002 ∷ 0xE0000001 ∷ []
unfolding alloc_all alloc new_handle
first_handles = refl

-- A counter at its top.
abbrev full : Allocator
full = record init { next_rpgroup_id = 2 ^ 29 - 1; next_send_id = 2 ^ 29 - 1 }

full-IsWf : IsWf full
full-IsWf enum = omega arith
full-IsWf _ = omega arith

wrapped : (alloc_all (send ∷ send ∷ []) full).0 ≡ 0x5FFFFFFF ∷ 0x40000001 ∷ []
unfolding alloc_all alloc new_handle
wrapped = refl

alloc-reserved_example :
    ((alloc rpgroup full).0 ≢ 0)
    × ((alloc rpgroup full).0 < 2 ^ 32)
    × (((alloc rpgroup full).0 ≡ 0xFFFFFFFF)
        ↔ ((rpgroup ≡ rpgroup) × (full.next_rpgroup_id ≡ 2 ^ 29 - 1)))
alloc-reserved_example = alloc-reserved rpgroup full full-IsWf

alloc_all-Distinct_example : Distinct (alloc_all (enum ∷ send ∷ send ∷ rpgroup ∷ []) init).0
alloc_all-Distinct_example =
    alloc_all-Distinct (enum ∷ send ∷ send ∷ rpgroup ∷ []) init init-IsWf init-HasRoom
  where
    init-HasRoom : HasRoom init 4
    init-HasRoom enum = omega arith
    init-HasRoom _ = omega arith
