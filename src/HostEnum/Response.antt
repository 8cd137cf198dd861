-- ===== src/HostEnum/Response.antt =====
-- HostEnumerator::handle_packet() of src/HostEnumerator.cpp, up to the call of message_handler.
use directplay_lite.Common.{
  ℕ, ◌+◌, ◌-◌, ◌^◌, ◌%◌, List, [], Option, some, none, ◌==◌, if◌then◌else◌,
}
use directplay_lite.Packet.Deserialiser.{
  Deserialiser, Result, ok, err, fault, stuck, ◌>>=◌, deserialise, packet_type, is_null, get_dword,
  get_data, get_wstring, get_guid,
}

-- What message_handler is told: the application's description, the response data, and the latency.
pub record Found : Type 0 where
  pub flags : ℕ
  pub instance_guid : List ℕ
  pub application_guid : List ℕ
  pub max_players : ℕ
  pub current_players : ℕ
  pub session_name : List ℕ
  pub reserved_data : List ℕ
  pub response_data : List ℕ
  pub round_trip_latency : ℕ

-- `if(!pd->is_null(index)) { ... get_data(index) ... }`; without data the size is 0.
unfoldable pub optional_data : Deserialiser → ℕ → Result (List ℕ)
optional_data pd index = do
  absent ← is_null pd index
  let bytes = get_data pd index in if absent then ok [] else bytes

-- The body of the second `try`; `tick` is the later GetTickCount().
unfoldable pub read_response : ℕ → Deserialiser → Result Found
unfolding optional_data
read_response tick pd = do
  flags ← get_dword pd 0
  instance_guid ← get_guid pd 1
  application ← get_guid pd 2
  max ← get_dword pd 3
  current ← get_dword pd 4
  session ← get_wstring pd 5
  reserved ← optional_data pd 6
  response ← optional_data pd 7
  request_tick_count ← get_dword pd 8
  ok (record {
    flags = flags;
    instance_guid = instance_guid;
    application_guid = application;
    max_players = max;
    current_players = current;
    session_name = session;
    reserved_data = reserved;
    response_data = response;
    round_trip_latency = (tick + 2 ^ 32 - request_tick_count) % 2 ^ 32;
  })

-- `catch(const PacketDeserialiser::Error &) { return; }`
abbrev pub caught {ℓ} : {A : Type ℓ} → Result (Option A) → Result (Option A)
caught (ok a) = ok a
caught (err e) = ok none
caught fault = fault
caught stuck = stuck

-- The test of the packet's type, and the rest.
unfoldable pub dispatch : ℕ → Deserialiser → Result (Option Found)
unfolding read_response
dispatch tick pd =
    let message = read_response tick pd >>= λ found. ok (some found) in
    if packet_type pd == 2 then message else ok none

-- `none` where the packet is dropped. Both `try` blocks return on an error.
unfoldable pub handle_packet : ℕ → ℕ → List ℕ → Result (Option Found)
unfolding dispatch
handle_packet m tick packet = caught (deserialise m packet >>= dispatch tick)
