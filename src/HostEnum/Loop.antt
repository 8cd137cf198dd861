-- ===== src/HostEnum/Loop.antt =====
-- HostEnumerator::main() of src/HostEnumerator.cpp. A reading is a result of GetTickCount(); DWORDs wrap.
use directplay_lite.Common.{
  ℕ, ◌+◌, ◌-◌, ◌^◌, ◌%◌, Bool, ◌&&◌, List, [], ◌∷◌, Option, some, none, ◌==◌, ltb, leb,
  if◌then◌else◌, length,
}
use directplay_lite.Packet.Serialiser.{Field, null, dword, blob, guid, serialiser, append_all}
use directplay_lite.Address.Object.{same_string}
use directplay_lite.HostEnum.Setup.{Enumerator, guid_null}

abbrev pub infinite : ℕ
infinite = 2 ^ 32 - 1

-- The fields that main() appends to a DPLITE_MSGID_HOST_ENUM_REQUEST.
unfoldable pub request_fields : ℕ → Enumerator → List Field
request_fields now e =
    (if same_string e.application_guid guid_null then null else guid e.application_guid)
    ∷ (if length e.user_data == 0 then null else blob e.user_data)
    ∷ dword now
    ∷ []

unfoldable pub request : ℕ → Enumerator → List ℕ
unfolding request_fields
request now e = append_all (request_fields now e) (serialiser 1)

-- The body of the `if` that transmits: the packet for sendto(), and the state.
unfoldable pub transmit : ℕ → Enumerator → List ℕ × Enumerator
transmit now e = (
  request now e,
  record e {
    next_tx_at = (now + e.tx_interval) % 2 ^ 32;
    tx_remain = e.tx_remain - 1;
    stop_at = if e.rx_timeout == infinite then e.stop_at else (now + e.rx_timeout) % 2 ^ 32;
  },
)

-- a - b and std::min() on DWORDs.
abbrev pub minus : ℕ → ℕ → ℕ
minus a b = (a + 2 ^ 32 - b) % 2 ^ 32

abbrev pub min : ℕ → ℕ → ℕ
min a b = if ltb b a then b else a

-- The timeout for WaitForSingleObject().
unfoldable pub wait_time : ℕ → Enumerator → ℕ
wait_time now e =
    let for_tx = if ltb 0 e.tx_remain then min (minus e.next_tx_at now) infinite else infinite in
    if ltb 0 e.stop_at then min (minus e.stop_at now) for_tx else for_tx

-- How a round ends: it leaves the loop, or it waits.
pub data Next : Type 0 where
  finish : Next
  wait_for : ℕ → Next

-- The second half of a round, behind recvfrom().
unfoldable pub ending : ℕ → Enumerator → Next
unfolding wait_time
ending now e =
    if e.tx_remain == 0 && (ltb 0 e.stop_at && leb e.stop_at now)
    then finish
    else wait_for (wait_time now e)

abbrev pub due : ℕ → Enumerator → Bool
due now e = ltb 0 e.tx_remain && leb e.next_tx_at now

-- One round of the loop: the packet that it sends, if any, its end, and the state.
unfoldable pub round : ℕ → Enumerator → Option (List ℕ) × Next × Enumerator
unfolding transmit ending
round now e =
    let (packet, sent) = transmit now e in
    if due now e then (some packet, ending now sent, sent) else (none, ending now e, e)

-- What complete_cb gets.
pub data Completion : Type 0 where
  complete user_cancel : Completion

abbrev pub keep : Option (List ℕ) → ℕ → List (ℕ × List ℕ) → List (ℕ × List ℕ)
keep none now sent = sent
keep (some packet) now sent = (now, packet) ∷ sent

-- What main() comes to after a round, where the later rounds come to `rest`.
abbrev pub after :
    ℕ
    → Option (List ℕ) × Next × Enumerator
    → List (ℕ × List ℕ) × Completion × Enumerator
    → List (ℕ × List ℕ) × Completion × Enumerator
after now (packet, finish, e) rest = (keep packet now [], complete, e)
after now (packet, wait_for t, e) rest = (keep packet now rest.0, rest.1, rest.2)

-- main(), with the readings of its rounds up to a cancel(): the requests with their readings, the result,
-- and the state.
unfoldable pub main : List ℕ → Enumerator → List (ℕ × List ℕ) × Completion × Enumerator
unfolding round
main [] e = ([], user_cancel, e)
main (now ∷ readings) e = after now (round now e) (main readings (round now e).2)
