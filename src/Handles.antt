-- ===== src/Handles.antt =====
-- src/AsyncHandleAllocator.hpp and src/AsyncHandleAllocator.cpp: the DPNHANDLEs of asynchronous
-- operations. A DPNHANDLE is a DWORD, a number below 2 ^ 32.
pub mod Laws
pub mod Distinct
mod Tests
use directplay_lite.Common.{
  ℕ, ◌+◌, ◌-◌, ◌%◌, ◌^◌, bit_and, bit_or, ◌==◌, if◌then◌else◌, List, [], ◌∷◌,
}

-- The counters next_enum_id, ..., next_rpgroup_id.
pub record Allocator : Type 0 where
  pub next_enum_id : ℕ
  pub next_connect_id : ℕ
  pub next_send_id : ℕ
  pub next_pinfo_id : ℕ
  pub next_cgroup_id : ℕ
  pub next_dgroup_id : ℕ
  pub next_apgroup_id : ℕ
  pub next_rpgroup_id : ℕ

abbrev pub type_mask : ℕ
type_mask = 0xE0000000

-- TYPE_ENUM to TYPE_RPGROUP.
pub data Kind : Type 0 where
  enum connect send pinfo cgroup dgroup apgroup rpgroup : Kind

abbrev pub type_bits : Kind → ℕ
type_bits enum = 0x00000000
type_bits connect = 0x20000000
type_bits send = 0x40000000
type_bits pinfo = 0x60000000
type_bits cgroup = 0x80000000
type_bits dgroup = 0xA0000000
type_bits apgroup = 0xC0000000
type_bits rpgroup = 0xE0000000

abbrev pub init : Allocator
init = record {
  next_enum_id = 1;
  next_connect_id = 1;
  next_send_id = 1;
  next_pinfo_id = 1;
  next_cgroup_id = 1;
  next_dgroup_id = 1;
  next_apgroup_id = 1;
  next_rpgroup_id = 1;
}

-- `~TYPE_MASK` in 32 bits.
abbrev pub id_mask : ℕ
id_mask = 2 ^ 32 - 1 - type_mask

-- `new_XXX`: the handle, and the counter after the call.
unfoldable pub new_handle : ℕ → ℕ → ℕ × ℕ
new_handle next type =
    let handle = bit_or next type in
    let next' = bit_and ((next + 1) % 2 ^ 32) id_mask in (handle, if next' == 0 then 1 else next')

-- new_enum() to new_rpgroup().
unfoldable pub alloc : Kind → Allocator → ℕ × Allocator
alloc enum s =
    let (h, n) = new_handle s.next_enum_id (type_bits enum) in (h, record s { next_enum_id = n })
alloc connect s =
    let (h, n) = new_handle s.next_connect_id (type_bits connect) in
    (h, record s { next_connect_id = n })
alloc send s =
    let (h, n) = new_handle s.next_send_id (type_bits send) in (h, record s { next_send_id = n })
alloc pinfo s =
    let (h, n) = new_handle s.next_pinfo_id (type_bits pinfo) in (h, record s { next_pinfo_id = n })
alloc cgroup s =
    let (h, n) = new_handle s.next_cgroup_id (type_bits cgroup) in
    (h, record s { next_cgroup_id = n })
alloc dgroup s =
    let (h, n) = new_handle s.next_dgroup_id (type_bits dgroup) in
    (h, record s { next_dgroup_id = n })
alloc apgroup s =
    let (h, n) = new_handle s.next_apgroup_id (type_bits apgroup) in
    (h, record s { next_apgroup_id = n })
alloc rpgroup s =
    let (h, n) = new_handle s.next_rpgroup_id (type_bits rpgroup) in
    (h, record s { next_rpgroup_id = n })

-- The counter that a kind uses.
abbrev pub next_id : Kind → Allocator → ℕ
next_id enum s = s.next_enum_id
next_id connect s = s.next_connect_id
next_id send s = s.next_send_id
next_id pinfo s = s.next_pinfo_id
next_id cgroup s = s.next_cgroup_id
next_id dgroup s = s.next_dgroup_id
next_id apgroup s = s.next_apgroup_id
next_id rpgroup s = s.next_rpgroup_id

-- A run of calls, and the handles that it returns.
pub alloc_all : List Kind → Allocator → List ℕ × Allocator
alloc_all [] s = ([], s)
alloc_all (k ∷ ks) s = let (h, s') = alloc k s in let (hs, t) = alloc_all ks s' in (h ∷ hs, t)
