-- ===== src/HostEnum/Tests.antt =====
-- Runs of the host enumerator on small inputs.
use directplay_lite.Common.{
  ℕ, suc, take, map, ◌-◌, ◌^◌, ◌≡◌, refl, List, [], ◌∷◌, Option, none, some, arith,
}
use directplay_lite.Packet.Bytes.{wide_bytes, le_bytes, le_value}
use directplay_lite.Packet.Serialiser.{append_all, serialiser, chunk_header}
use directplay_lite.Packet.Deserialiser.{ok}
use directplay_lite.Address.Host.{tcpip, class_id, SockAddr, create_host_address}
use directplay_lite.HostEnum.Setup
use directplay_lite.HostEnum.Setup.{Checked, Target, Enumerator, discovery, guid_null, target_of}
use directplay_lite.HostEnum.Loop.{round}
use directplay_lite.HostEnum.Timing.{Timely, round-Timely}
use directplay_lite.HostEnum.Response.{Found, handle_packet}
use directplay_lite.HostEnum.Messages.{response_fields, handle_packet-response}
use directplay_lite.HostEnum.Target.{target_of-create_host_address}

-- Two requests to anyone, 100 apart, with 50 to reply.
abbrev search : Enumerator
search = record {
  service_provider = class_id tcpip;
  send_addr = discovery;
  application_guid = guid_null;
  user_data = [];
  tx_remain = 2;
  tx_interval = 100;
  rx_timeout = 50;
  next_tx_at = 0;
  stop_at = 0;
}

abbrev readings : List ℕ
readings = 10 ∷ 60 ∷ 111 ∷ 170 ∷ []

round-Timely_example : Timely 10 (round 10 search).2 (round 10 search).1
round-Timely_example =
    round-Timely 10 search (omega arith) (omega arith) (omega arith) (omega arith) (omega arith)

abbrev found : Found
found = record {
  flags = 1;
  instance_guid = class_id tcpip;
  application_guid = guid_null;
  max_players = 8;
  current_players = 2;
  session_name = 104 ∷ 105 ∷ [];
  reserved_data = [];
  response_data = 5 ∷ [];
  round_trip_latency = 6;
}

-- The clock wraps between the request and its response.
handle_packet-response_example :
    handle_packet (2 ^ 32) 3 (append_all (response_fields found (2 ^ 32 - 3)) (serialiser 2))
    ≡ ok (some found)
unfolding chunk_header le_bytes wide_bytes
handle_packet-response_example =
    handle_packet-response (2 ^ 32) 3 found (2 ^ 32 - 3)
      (
        omega arith,
        (
          refl,
          (
            refl,
            (
              omega arith,
              (omega arith, ((omega arith, (omega arith, tt)), (tt, (tt, (omega arith, tt))))),
            ),
          ),
        ),
      )
      (omega arith) (omega arith)

-- Stand-ins for the system's converters: one unit for each byte, and a text that has one character for each byte of the address.
abbrev widen : List ℕ → List ℕ
widen bs = bs

abbrev print : List ℕ → List ℕ
print bs = map suc bs

abbrev parse : List ℕ → Option ℕ
parse text = some (le_value (take 4 (map (λ c. c - 1) text)))

abbrev loopback : SockAddr
loopback = record { sin_addr = 127 ∷ 0 ∷ 0 ∷ 1 ∷ []; port_high = 8; port_low = 253 }

target_of-create_host_address_example :
    target_of parse parse
      (class_id tcpip)
      (some (create_host_address widen print none tcpip loopback).0)
    ≡ Setup.ok (record { ip = 16777343; port = 2301 })
unfolding le_value
target_of-create_host_address_example =
    target_of-create_host_address widen print parse parse none loopback 128 (1 ∷ 1 ∷ 2 ∷ [])
      (omega arith) (omega arith) refl
      (
        (omega arith, omega arith),
        (
          (omega arith, omega arith),
          ((omega arith, omega arith), ((omega arith, omega arith), tt)),
        ),
      )
      (omega arith) refl
