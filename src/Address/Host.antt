-- ===== src/Address/Host.antt =====
-- DirectPlay8Address::create_host_address() of src/DirectPlay8Address.cpp. `ntop` stands for inet_ntop(): the
-- ANSI text of the four bytes of an IPv4 address, without its NUL.
use directplay_lite.Common.{
  ℕ, zero, suc, ◌+◌, ◌*◌, ◌/◌, ◌%◌, ◌^◌, ◌<◌, ◌≡◌, refl, ap, List, [], ◌∷◌, ◌++◌, Option, some, ltb,
  ◌==◌, if◌then◌else◌, arith, length, false,
}
use directplay_lite.Packet.Bytes.{le_bytes, length-le_bytes, le_value-le_bytes}
use directplay_lite.Address.Access.{take-length}
use directplay_lite.Address.Component.{
  type_string_ansi, type_dword, type_guid, DataType, Component, string_w, dword, guid, new_string,
}
use directplay_lite.Address.Object.{
  Address, key_hostname, key_port, key_provider, same_string, new_address, add_component, set_sp,
  make_component, put_component, find_component,
}

-- The two service providers that the function takes, and their class ids (src/include/dplay8.h).
pub data ServiceProvider : Type 0 where
  tcpip ipx : ServiceProvider

abbrev pub class_id : ServiceProvider → List ℕ
class_id tcpip =
    160 ∷ 123 ∷ 254 ∷ 235 ∷ 141 ∷ 98 ∷ 210 ∷ 17 ∷ 174 ∷ 15 ∷ 0 ∷ 96 ∷ 151 ∷ 176 ∷ 20 ∷ 17 ∷ []
class_id ipx =
    144 ∷ 66 ∷ 147 ∷ 83 ∷ 141 ∷ 98 ∷ 210 ∷ 17 ∷ 174 ∷ 15 ∷ 0 ∷ 96 ∷ 151 ∷ 176 ∷ 20 ∷ 17 ∷ []

-- A sockaddr_in: the bytes of sin_addr and sin_port, in network order.
pub record SockAddr : Type 0 where
  pub sin_addr : List ℕ
  pub port_high : ℕ
  pub port_low : ℕ

-- ntohl() of an address.
unfoldable pub be_value : ℕ → List ℕ → ℕ
be_value v [] = v
be_value v (b ∷ bs) = be_value (256 * v + b) bs

-- The `w` lowest hexadecimal digits of a number, as %08X prints them.
unfoldable pub hex : ℕ → ℕ → List ℕ
hex zero v = []
hex (suc w) v = let d = v % 16 in hex w (v / 16) ++ (if ltb d 10 then 48 + d else 55 + d) ∷ []

-- "00000000,0000"
abbrev pub ipx_prefix : List ℕ
ipx_prefix = 48 ∷ 48 ∷ 48 ∷ 48 ∷ 48 ∷ 48 ∷ 48 ∷ 48 ∷ 44 ∷ 48 ∷ 48 ∷ 48 ∷ 48 ∷ []

unfoldable pub host_text : (List ℕ → List ℕ) → ServiceProvider → SockAddr → List ℕ
unfolding be_value hex
host_text ntop tcpip sa = ntop sa.sin_addr
host_text ntop ipx sa = ipx_prefix ++ hex 8 (be_value 0 sa.sin_addr)

unfoldable pub create_host_address :
    (List ℕ → List ℕ)
    → (List ℕ → List ℕ)
    → Option ℕ
    → ServiceProvider
    → SockAddr
    → Address × Option ℕ
unfolding new_address set_sp add_component host_text
create_host_address to_wide ntop global sp sa =
    let (fresh, g) = new_address global in
    let (_, with_sp) = set_sp to_wide (class_id sp) fresh in
    let (_, with_host) =
      add_component to_wide key_hostname (host_text ntop sp sa ++ 0 ∷ []) type_string_ansi
        with_sp in
    let port = 256 * sa.port_high + sa.port_low in
    let (_, with_port) = add_component to_wide key_port (le_bytes 4 port) type_dword with_host in
    (with_port, g)

length-class_id : (sp : ServiceProvider) → length (class_id sp) ≡ 16
length-class_id tcpip = refl
length-class_id ipx = refl

-- A call that makes a component leaves the vector with it put in.
added :
    (to_wide : List ℕ → List ℕ) (n bytes : List ℕ) (t : DataType) (a : Address) (c : Component)
    → (make_component to_wide n bytes t).1 ≡ some c
    → (cs : List Component) → a.components ≡ cs
    → (add_component to_wide n bytes t a).1.components ≡ put_component n c cs
unfolding add_component
added to_wide n bytes t a c e cs same = rw (add_component, e) (ap (λ k. put_component n c k) same)

made_text :
    (to_wide : List ℕ → List ℕ) (n bytes : List ℕ) (c : ℕ) (wide : List ℕ)
    → to_wide bytes ≡ c ∷ wide
    → (make_component to_wide n bytes type_string_ansi).1 ≡ some (string_w n (c ∷ wide))
unfolding make_component new_string
made_text to_wide n bytes c wide e =
    let half : suc (length wide) * 2 / 2 ≡ suc (length wide) = omega arith in
    let nonzero : (suc (length wide) == 0) ≡ false = ground arith in
    rw (e, nonzero, half, take-length wide)

made_port :
    (to_wide : List ℕ → List ℕ) (n : List ℕ) (v : ℕ)
    → v < 2 ^ 32
    → (make_component to_wide n (le_bytes 4 v) type_dword).1 ≡ some (dword n v)
unfolding make_component
made_port to_wide n v h = rw (length-le_bytes 4 v, le_value-le_bytes v h)

-- The address of a host has three components: the service provider, the host's name in wide characters, and
-- its port. The name is a text that MultiByteToWideChar() converts to at least one unit.
pub create_host_address_lem :
    (to_wide ntop : List ℕ → List ℕ) (global : Option ℕ) (sp : ServiceProvider) (sa : SockAddr)
    → sa.port_high < 256
    → sa.port_low < 256
    → (c : ℕ) → (wide : List ℕ) → to_wide (host_text ntop sp sa ++ 0 ∷ []) ≡ c ∷ wide
    → (create_host_address to_wide ntop global sp sa).0.components
      ≡ guid key_provider (class_id sp)
        ∷ string_w key_hostname (c ∷ wide)
        ∷ dword key_port (256 * sa.port_high + sa.port_low)
        ∷ []
unfolding create_host_address new_address set_sp put_component find_component same_string
    make_component
create_host_address_lem to_wide ntop global sp sa h k c wide e =
    let fresh = (new_address global).0 in
    let port = 256 * sa.port_high + sa.port_low in
    let text = host_text ntop sp sa ++ 0 ∷ [] in
    let provider =
      added to_wide key_provider (class_id sp) type_guid fresh (guid key_provider (class_id sp))
        (rw (length-class_id sp)) [] refl in
    let host =
      added to_wide key_hostname text type_string_ansi (set_sp to_wide (class_id sp) fresh).1
        (string_w key_hostname (c ∷ wide)) (made_text to_wide key_hostname text c wide e)
        (guid key_provider (class_id sp) ∷ []) provider in
    added to_wide key_port (le_bytes 4 port) type_dword
      (add_component to_wide key_hostname text type_string_ansi
        (set_sp to_wide (class_id sp) fresh).1).1
      (dword key_port port) (made_port to_wide key_port port (omega arith))
      (guid key_provider (class_id sp) ∷ string_w key_hostname (c ∷ wide) ∷ []) host
