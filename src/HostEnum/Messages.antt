-- ===== src/HostEnum/Messages.antt =====
-- The request and the response of src/HostEnumerator.cpp over the wire format of src/packet.cpp.
use directplay_lite.Common.{
  ℕ, ◌+◌, ◌-◌, ◌^◌, ◌%◌, ◌≤◌, ◌<◌, ◌≡◌, inl, inr, refl, false, List, [], ◌∷◌, some, ◌==◌,
  if◌then◌else◌, arith, length, All, get_elem?, Bool-cases, Option-cases,
}
use directplay_lite.Packet.Serialiser.{
  Field, null, dword, blob, wstring, guid, serialiser, append_all,
}
use directplay_lite.Packet.Deserialiser.{
  Deserialiser, ok, deserialise, packet_type, num_fields, is_null, get_dword, get_data, get_wstring,
  get_guid, field_at,
}
use directplay_lite.Packet.Wire.{IsField, encode_all}
use directplay_lite.Packet.RoundTrip.{Reads, deserialise-append_all}
use directplay_lite.Address.Object.{same_string}
use directplay_lite.HostEnum.Setup.{Enumerator, guid_null}
use directplay_lite.HostEnum.Loop.{request_fields, request}
use directplay_lite.HostEnum.Response.{Found, optional_data, read_response, handle_packet, dispatch}

request_fields-IsField :
    (now : ℕ) (e : Enumerator)
    → now < 2 ^ 32
    → length e.application_guid ≡ 16
    → All IsField (request_fields now e)
unfolding request_fields
request_fields-IsField now e h g = elim (Bool-cases (same_string e.application_guid guid_null)) [
  | inl p ↦ elim (Bool-cases (length e.user_data == 0)) [
    | inl q ↦ rw (p, q) (tt, (tt, (h, tt)))
    | inr q ↦ rw (p, q) (tt, (tt, (h, tt)))
  ]
  | inr p ↦ elim (Bool-cases (length e.user_data == 0)) [
    | inl q ↦ rw (p, q) (g, (tt, (h, tt)))
    | inr q ↦ rw (p, q) (g, (tt, (h, tt)))
  ]
]

-- A host that parses a request gets the type HOST_ENUM_REQUEST and three fields: the application's GUID or NULL for
-- any, the user data or NULL, and the tick count. The request's length fits its header and a size_t.
pub request-Reads :
    (m now : ℕ) (e : Enumerator)
    → now < 2 ^ 32
    → length e.application_guid ≡ 16
    → 8 + length (encode_all (request_fields now e)) < 2 ^ 32
    → 2 ^ 32 ≤ m
    → (pd : Deserialiser) × (deserialise m (request now e) ≡ ok pd)
      × (packet_type pd ≡ 1)
      × (num_fields pd ≡ 3)
      × Reads
          (if same_string e.application_guid guid_null then null else guid e.application_guid)
          pd
          0
      × Reads (if length e.user_data == 0 then null else blob e.user_data) pd 1
      × Reads (dword now) pd 2
unfolding request request_fields
request-Reads m now e h g l k =
    let (pd, p, t, n, reads) =
      deserialise-append_all m 1 (request_fields now e) (omega arith) (omega (arith, l))
        (omega (arith, l, k)) (request_fields-IsField now e h g) in
    (pd, p, t, n, reads 0 _ refl, reads 1 _ refl, reads 2 _ refl)

-- A field that get_data() accepts is not null.
is_null-get_data :
    (pd : Deserialiser) (i : ℕ) (bs : List ℕ) → get_data pd i ≡ ok bs → is_null pd i ≡ ok false
unfolding get_data is_null field_at
is_null-get_data pd i bs h = elim (Option-cases (get_elem? pd.fields i)) [
  | inl p ↦ absurd (ground (arith, h, p))
  | inr (c, p) ↦ ground (arith, h, p)
]

-- A field that may be missing.
abbrev pub optional_field : List ℕ → Field
optional_field [] = null
optional_field (b ∷ bs) = blob (b ∷ bs)

optional_data-Reads :
    (bs : List ℕ) (pd : Deserialiser) (i : ℕ)
    → Reads (optional_field bs) pd i
    → optional_data pd i ≡ ok bs
unfolding optional_data
optional_data-Reads [] pd i h = rw h
optional_data-Reads (b ∷ bs) pd i h = rw (is_null-get_data pd i (b ∷ bs) h, h)

-- The fields of a response, of a host that answers the request with tick count `sent_at`.
abbrev pub response_fields : Found → ℕ → List Field
response_fields f sent_at =
    dword f.flags
    ∷ guid f.instance_guid
    ∷ guid f.application_guid
    ∷ dword f.max_players
    ∷ dword f.current_players
    ∷ wstring f.session_name
    ∷ optional_field f.reserved_data
    ∷ optional_field f.response_data
    ∷ dword sent_at
    ∷ []

read_response-Reads :
    (tick : ℕ) (f : Found) (sent_at : ℕ) (pd : Deserialiser)
    → ((i : ℕ) (g : Field) → get_elem? (response_fields f sent_at) i ≡ some g → Reads g pd i)
    → read_response tick pd
      ≡ ok (record f { round_trip_latency = (tick + 2 ^ 32 - sent_at) % 2 ^ 32 })
unfolding read_response
read_response-Reads tick f sent_at pd reads =
    let flags : get_dword pd 0 ≡ ok f.flags = reads 0 _ refl in
    let instance_guid : get_guid pd 1 ≡ ok f.instance_guid = reads 1 _ refl in
    let application : get_guid pd 2 ≡ ok f.application_guid = reads 2 _ refl in
    let most : get_dword pd 3 ≡ ok f.max_players = reads 3 _ refl in
    let current : get_dword pd 4 ≡ ok f.current_players = reads 4 _ refl in
    let session : get_wstring pd 5 ≡ ok f.session_name = reads 5 _ refl in
    let reserved = optional_data-Reads f.reserved_data pd 6 (reads 6 _ refl) in
    let response = optional_data-Reads f.response_data pd 7 (reads 7 _ refl) in
    let ticks : get_dword pd 8 ≡ ok sent_at = reads 8 _ refl in
    rw (flags, instance_guid, application, most, current, session, reserved, response, ticks)

-- handle_packet() of a response reports what the host put in it, and as the latency the time since the request, also
-- where the clock wrapped in between. The response's length fits its header and a size_t.
pub handle_packet-response :
    (m tick : ℕ) (f : Found) (sent_at : ℕ)
    → All IsField (response_fields f sent_at)
    → 8 + length (encode_all (response_fields f sent_at)) < 2 ^ 32
    → 2 ^ 32 ≤ m
    → handle_packet m tick (append_all (response_fields f sent_at) (serialiser 2))
      ≡ ok (some (record f { round_trip_latency = (tick + 2 ^ 32 - sent_at) % 2 ^ 32 }))
unfolding handle_packet read_response dispatch
handle_packet-response m tick f sent_at h l k =
    let (pd, p, t, n, reads) =
      deserialise-append_all m 2 (response_fields f sent_at) (omega arith) (omega (arith, l))
        (omega (arith, l, k)) h in
    rw (handle_packet, p, dispatch, t, read_response-Reads tick f sent_at pd reads)
