-- ===== src/Handles/Laws.antt =====
-- What the allocator promises: src/AsyncHandleAllocator.cpp.
use directplay_lite.Common.{
  ℕ, ◌+◌, ◌-◌, ◌*◌, ◌%◌, ◌^◌, ◌≤◌, ◌<◌, ◌≡◌, ◌≢◌, ◌↔◌, refl, bit_and, bit_or, arith, ◌==◌,
  if◌then◌else◌,
}
use directplay_lite.Common.Bits.{bit_and_mask, bit_or_disjoint, bit_and_field}
use directplay_lite.Handles.{
  Allocator, Kind, enum, connect, send, pinfo, cgroup, dgroup, apgroup, rpgroup, type_bits, init,
  new_handle, alloc, next_id, id_mask, type_mask,
}

-- The kind's number, which the top three bits of a handle hold.
abbrev pub code : Kind → ℕ
code enum = 0
code connect = 1
code send = 2
code pinfo = 3
code cgroup = 4
code dgroup = 5
code apgroup = 6
code rpgroup = 7

pub code-lt : (k : Kind) → code k < 8
code-lt enum = omega arith
code-lt _ = omega arith

pub code-injective : (j k : Kind) → code j ≡ code k → j ≡ k
code-injective j k e = ground arith

type_bits_lem : (k : Kind) → type_bits k ≡ code k * 2 ^ 29
type_bits_lem enum = refl
type_bits_lem _ = refl

-- A counter's range: never 0, and clear of the type bits.
abbrev pub IsId : ℕ → Type 0
IsId n = (1 ≤ n) × (n < 2 ^ 29)

abbrev pub IsWf : Allocator → Type 0
IsWf s = (k : Kind) → IsId (next_id k s)

-- The counter goes up by one, and from its top back to 1.
abbrev pub succ_id : ℕ → ℕ
succ_id n = if n == 2 ^ 29 - 1 then 1 else n + 1

handle-split : (c n : ℕ) → IsId n → bit_or n (c * 2 ^ 29) ≡ n + c * 2 ^ 29
handle-split c n h = bit_or_disjoint 29 n c h.1

next_lem : (n : ℕ) → bit_and n id_mask ≡ n % 2 ^ 29
next_lem n = bit_and_mask 29 n

new_handle_lem : (c n : ℕ) → IsId n → new_handle n (c * 2 ^ 29) ≡ (n + c * 2 ^ 29, succ_id n)
unfolding new_handle
new_handle_lem c n h = ground (arith, handle-split c n h, next_lem ((n + 1) % 2 ^ 32))

-- The handle holds the counter below bit 29 and the kind above it.
pub alloc_handle :
    (k : Kind) (s : Allocator) → IsWf s → (alloc k s).0 ≡ next_id k s + code k * 2 ^ 29
unfolding alloc
alloc_handle enum s h = ground (arith, new_handle_lem 0 (next_id enum s) (h enum))
alloc_handle k s h = ground (arith, new_handle_lem (code k) (next_id k s) (h k))

pub alloc_self :
    (k : Kind) (s : Allocator) → IsWf s → next_id k (alloc k s).1 ≡ succ_id (next_id k s)
unfolding alloc
alloc_self enum s h = ground (arith, new_handle_lem 0 (next_id enum s) (h enum))
alloc_self k s h = ground (arith, new_handle_lem (code k) (next_id k s) (h k))

pub alloc_other : (k j : Kind) (s : Allocator) → j ≢ k → next_id j (alloc k s).1 ≡ next_id j s
unfolding alloc
alloc_other k j s h = ground arith

pub Kind-discrete : Discrete Kind
Kind-discrete = hlevel

succ_id-IsId : (n : ℕ) → IsId n → IsId (succ_id n)
succ_id-IsId n h = ground arith

pub init-IsWf : IsWf init
init-IsWf enum = omega arith
init-IsWf _ = omega arith

pub alloc-IsWf : (k : Kind) (s : Allocator) → IsWf s → IsWf (alloc k s).1
alloc-IsWf k s h j = elim (Kind-discrete j k) [
  | yes e ↦ rw (e, alloc_self k s h) (succ_id-IsId (next_id k s) (h k))
  | no d ↦ rw (alloc_other k j s d) (h j)
]

-- From a well-formed allocator, `new_enum()` and its seven siblings return the kind's counter with
-- the kind in the top three bits, move that counter to the next value in 1 .. 2 ^ 29 - 1, leave the
-- other counters alone, and keep the allocator well formed.
pub alloc_lem :
    (k : Kind) (s : Allocator)
    → IsWf s
    → ((alloc k s).0 ≡ next_id k s + code k * 2 ^ 29)
      × (next_id k (alloc k s).1 ≡ succ_id (next_id k s))
      × ((j : Kind) → j ≢ k → next_id j (alloc k s).1 ≡ next_id j s)
      × IsWf (alloc k s).1
alloc_lem k s h =
    (alloc_handle k s h, alloc_self k s h, λ j d. alloc_other k j s d, alloc-IsWf k s h)

-- The type bits of a handle are those of the call that made it, so TYPE_MASK tells the eight kinds of
-- operation apart.
pub alloc-type : (k : Kind) (s : Allocator) → IsWf s → bit_and (alloc k s).0 type_mask ≡ type_bits k
alloc-type k s h =
    rw (alloc_handle k s h, type_bits_lem k)
      (bit_and_field 29 3 (next_id k s) (code k) ((h k).1) (code-lt k))

top_handle :
    (k : Kind) (s : Allocator)
    → IsWf s
    → (next_id k s + code k * 2 ^ 29 ≡ 0xFFFFFFFF)
      ↔ ((k ≡ rpgroup) × (s.next_rpgroup_id ≡ 2 ^ 29 - 1))
top_handle enum s h = (ground (arith, h enum), ground arith)
top_handle k s h = (ground (arith, h k), ground (arith, h k))

positive : (k : Kind) (s : Allocator) → IsWf s → next_id k s + code k * 2 ^ 29 ≢ 0
positive k s h = omega (arith, h k)

below : (k : Kind) (s : Allocator) → IsWf s → next_id k s + code k * 2 ^ 29 < 2 ^ 32
below k s h = omega (arith, h k, code-lt k)

-- No handle is 0, and every handle is a DWORD; a handle is 0xFFFFFFFF exactly when new_rpgroup()
-- hands out the last value of its counter.
pub alloc-reserved :
    (k : Kind) (s : Allocator)
    → IsWf s
    → ((alloc k s).0 ≢ 0)
      × ((alloc k s).0 < 2 ^ 32)
      × (((alloc k s).0 ≡ 0xFFFFFFFF) ↔ ((k ≡ rpgroup) × (s.next_rpgroup_id ≡ 2 ^ 29 - 1)))
alloc-reserved k s h = rw (alloc_handle k s h) (positive k s h, below k s h, top_handle k s h)
