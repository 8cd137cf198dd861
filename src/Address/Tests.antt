-- ===== src/Address/Tests.antt =====
-- Runs of the address's methods on small inputs.
use directplay_lite.Common.{ℕ, ◌≡◌, List, [], ◌∷◌, none, some, true}
use directplay_lite.Packet.Bytes.{le_bytes, le_value}
use directplay_lite.Address.Component.{string_w, dword, type_dword, Buffer}
use directplay_lite.Address.Object.{
  Address, key_hostname, key_port, same_string, find_component, make_component, add_component,
  new_address, duplicate, set_equal,
}
use directplay_lite.Address.Lookup.{find-add_component}
use directplay_lite.Address.Layout.{created, added, duplicated, IsReachable-IsWf, IsWf}
use directplay_lite.Address.Copies.{find-duplicate}
use directplay_lite.Address.Host.{tcpip, SockAddr, class_id}

-- Stand-ins for the converters of the system: one unit for each byte, and one fixed text.
abbrev widen : List ℕ → List ℕ
widen bs = bs

abbrev localhost : List ℕ → List ℕ
localhost bs = 49 ∷ 50 ∷ 55 ∷ []

abbrev text : List ℕ
text = 104 ∷ 105 ∷ []

abbrev sixteen : List ℕ
sixteen = class_id tcpip

abbrev held : Address
held = record {
  components = string_w key_hostname (104 ∷ 105 ∷ 0 ∷ 0 ∷ []) ∷ [];
  user_data = [];
  local_refcount = 1;
}

abbrev loopback : SockAddr
loopback = record { sin_addr = 127 ∷ 0 ∷ 0 ∷ 1 ∷ []; port_high = 8; port_low = 253 }

find-add_component_example :
    find_component key_port
      (add_component widen key_port (le_bytes 4 7) type_dword held).1.components
    ≡ some (dword key_port 7)
unfolding make_component same_string find_component le_bytes le_value
find-add_component_example =
    find-add_component widen key_port key_port (le_bytes 4 7) type_dword held

IsReachable-IsWf_example :
    IsWf
      (duplicate none
        (add_component widen key_port
          (le_bytes 4 7)
          type_dword
          (new_address none).0).1).0.components
IsReachable-IsWf_example =
    IsReachable-IsWf widen
      (duplicate none
        (add_component widen key_port (le_bytes 4 7) type_dword (new_address none).0).1).0
      (duplicated none
        (add_component widen key_port (le_bytes 4 7) type_dword (new_address none).0).1
        (added key_port (le_bytes 4 7) type_dword (new_address none).0 (created none)))

abbrev large : Buffer
large = record { present = true; size = 100 }

find-duplicate_example :
    (find_component key_hostname (duplicate none held).0.components
      ≡ some (string_w key_hostname (104 ∷ 105 ∷ [])))
    × (find_component key_hostname (set_equal held (new_address none).0).1.components
        ≡ some (string_w key_hostname (104 ∷ 105 ∷ [])))
unfolding find_component same_string
find-duplicate_example = find-duplicate none key_hostname held (new_address none).0
