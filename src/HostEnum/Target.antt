-- ===== src/HostEnum/Target.antt =====
-- Where the constructor of src/HostEnumerator.cpp sends the requests for an address of create_host_address().
use directplay_lite.Common.{
  ℕ, ◌+◌, ◌*◌, ◌≤◌, ◌<◌, ◌≡◌, ap, ◌∙◌, true, false, List, [], ◌∷◌, ◌++◌, Option, some, ltb, leb,
  arith, length, length-append,
}
use directplay_lite.Packet.Bytes.{
  wide_bytes, wide_chars, le_bytes, le_value, wide_chars-wide_bytes, le_value-le_bytes,
}
use directplay_lite.Address.Component.{string_w, dword, guid, get_component, wcsncpy}
use directplay_lite.Address.Object.{
  Address, key_provider, key_hostname, key_port, same_string, find_component, get_component_by_name,
  get_sp, guid_of,
}
use directplay_lite.Address.Access.{IsText, IsText-units, wcsncpy-text}
use directplay_lite.Address.Lookup.{same_string_refl}
use directplay_lite.Address.Host.{
  tcpip, class_id, SockAddr, host_text, create_host_address, create_host_address_lem,
}
use directplay_lite.HostEnum.Setup.{
  set_ip, Failure, invalid_host_address, ok, Target, discovery, granted, sp_of, override_ip,
  override_port, target_of, hostname_buffer, port_buffer,
}

module _ (a : Address) (text : List ℕ) (port : ℕ)
    (comps : a.components
      ≡ guid key_provider (class_id tcpip)
        ∷ string_w key_hostname text
        ∷ dword key_port port
        ∷ []) where
  its_sp : (e : Failure) → sp_of e a ≡ ok (class_id tcpip)
  unfolding sp_of get_sp get_component_by_name find_component same_string guid_of granted
      get_component
  its_sp e = rw (get_sp, get_component_by_name, comps)

  its_port :
      port < 65536
      → (t : Target)
      → override_port (get_component_by_name key_port port_buffer a) t
        ≡ ok (record t { port = port })
  unfolding override_port get_component_by_name find_component same_string get_component
  its_port h t =
      let small : ltb 65535 (le_value (le_bytes 4 port)) ≡ false =
        rw (le_value-le_bytes port (omega (arith, h))) (ground (arith, h)) in
      rw (get_component_by_name, comps, small, le_value-le_bytes port (omega (arith, h)))

  its_ip :
      (pton scan_ipx : List ℕ → Option ℕ) (ip : ℕ) (t : Target)
      → length text ≤ 128
      → wide_chars (wide_bytes (wcsncpy (length text) text)) ≡ text
      → pton text ≡ some ip
      → override_ip pton scan_ipx
          (class_id tcpip)
          (get_component_by_name key_hostname hostname_buffer a)
          t
        ≡ ok (record t { ip = ip })
  unfolding override_ip set_ip get_component_by_name find_component same_string get_component
  its_ip pton scan_ipx ip t h e p =
      let room : leb (length text * 2) 256 ≡ true = ground (arith, h) in
      rw (get_component_by_name, comps, room, e, p)

-- For a TCP/IP address that create_host_address() makes of a socket address, and the same service provider, the requests
-- go to the address and the port of that socket address. inet_ntop() gives a text for the address that MultiByteToWideChar() makes 1 to 127
-- characters of, and InetPtonW() reads in them the four bytes of the address again, as a number.
pub target_of-create_host_address :
    (to_wide ntop : List ℕ → List ℕ) (pton scan_ipx : List ℕ → Option ℕ) (global : Option ℕ)
    (sa : SockAddr) (c : ℕ) (v : List ℕ)
    → sa.port_high < 256
    → sa.port_low < 256
    → to_wide (ntop sa.sin_addr ++ 0 ∷ []) ≡ (c ∷ v) ++ 0 ∷ []
    → IsText (c ∷ v)
    → length (c ∷ v) ≤ 127
    → pton (to_wide (ntop sa.sin_addr ++ 0 ∷ [])) ≡ some (le_value sa.sin_addr)
    → target_of pton scan_ipx
        (class_id tcpip)
        (some (create_host_address to_wide ntop global tcpip sa).0)
      ≡ ok (record { ip = le_value sa.sin_addr; port = 256 * sa.port_high + sa.port_low })
unfolding target_of host_text
target_of-create_host_address to_wide ntop pton scan_ipx global sa c v ph pl e text short p =
    let ip = le_value sa.sin_addr in
    let a = (create_host_address to_wide ntop global tcpip sa).0 in
    let units = (c ∷ v) ++ 0 ∷ [] in
    let port = 256 * sa.port_high + sa.port_low in
    let comps = create_host_address_lem to_wide ntop global tcpip sa ph pl c (v ++ 0 ∷ []) e in
    let kept : wide_chars (wide_bytes (wcsncpy (length units) units)) ≡ units =
      ap (λ k. wide_chars (wide_bytes k)) (wcsncpy-text (c ∷ v) text)
      ∙ wide_chars-wide_bytes units (IsText-units (c ∷ v) text) in
    let room : length units ≤ 128 = omega (arith, short, length-append (c ∷ v) (0 ∷ [])) in
    let named = its_ip a units port comps pton scan_ipx ip discovery room kept (rw e at p) in
    let ported = its_port a units port comps (omega arith) (record discovery { ip = ip }) in
    rw (
      its_sp a units port comps invalid_host_address,
      same_string_refl (class_id tcpip),
      named,
      ported,
    )
