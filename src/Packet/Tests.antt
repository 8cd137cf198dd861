-- ===== src/Packet/Tests.antt =====
-- Runs of the packet classes, and their theorems at concrete packets.
use directplay_lite.Common.{
  ◌⊎◌, ℕ, ◌-◌, ◌^◌, ◌≡◌, refl, some, List, [], ◌∷◌, ◌++◌, arith, get_elem?,
}
use directplay_lite.Packet.Bytes.{le_bytes, le_value, wide_bytes}
use directplay_lite.Packet.Serialiser.{
  chunk_header, add_value_length, serialiser, Field, null, dword, blob, wstring, append, append_all,
}
use directplay_lite.Packet.Deserialiser.{
  Deserialiser, Result, ok, err, stuck, type_mismatch, read_chunk, scan, deserialise_within,
  deserialise, packet_type, num_fields, ◌>>=◌, is_null, get_dword, get_data, get_wstring, get_guid,
}
use directplay_lite.Packet.RoundTrip.{Reads, deserialise-append_all}
use directplay_lite.Packet.Safety.{Parsed, Wraps, deserialise-Parsed}
use directplay_lite.Packet.Getters.{Answers, getters-Answers}
use directplay_lite.Packet.Wrap.{deserialise_within-stuck}

abbrev fields : List Field
fields = dword 7 ∷ wstring (104 ∷ 105 ∷ []) ∷ null ∷ blob (1 ∷ 2 ∷ 3 ∷ []) ∷ []

abbrev hello : List ℕ
hello = 5 ∷ 0 ∷ 0 ∷ 0 ∷ 12 ∷ 0 ∷ 0 ∷ 0 ∷ 1 ∷ 0 ∷ 0 ∷ 0 ∷ 4 ∷ 0 ∷ 0 ∷ 0 ∷ 7 ∷ 1 ∷ 0 ∷ 0 ∷ []

one_dword : append_all (dword 263 ∷ []) (serialiser 5) ≡ hello
unfolding append_all append serialiser chunk_header add_value_length le_bytes le_value
one_dword = refl

read_back : (deserialise (2 ^ 32) hello >>= λ pd. get_dword pd 0) ≡ ok 263
unfolding deserialise scan read_chunk get_dword le_value
read_back = refl

not_a_guid : (deserialise (2 ^ 32) hello >>= λ pd. get_guid pd 0) ≡ err type_mismatch
unfolding deserialise scan read_chunk get_guid le_value
not_a_guid = refl

deserialise-append_all_example :
    (pd : Deserialiser) × (deserialise (2 ^ 32) (append_all fields (serialiser 5)) ≡ ok pd)
    × (packet_type pd ≡ 5)
    × (num_fields pd ≡ 4)
    × ((i : ℕ) (f : Field) → get_elem? fields i ≡ some f → Reads f pd i)
unfolding chunk_header le_bytes wide_bytes
deserialise-append_all_example =
    deserialise-append_all (2 ^ 32) 5 fields (omega arith) (omega arith) (omega arith) (omega arith)

deserialise-Parsed_example : Parsed hello (deserialise (2 ^ 32) hello) ⊎ Wraps (2 ^ 32) hello
deserialise-Parsed_example = deserialise-Parsed (2 ^ 32) hello (omega arith)

abbrev hello_fields : Result Deserialiser
hello_fields = deserialise (2 ^ 32) hello

abbrev decoded_hello : Deserialiser
decoded_hello = record {
  header = record {
    type = 5;
    value_length = 12;
    value = 1 ∷ 0 ∷ 0 ∷ 0 ∷ 4 ∷ 0 ∷ 0 ∷ 0 ∷ 7 ∷ 1 ∷ 0 ∷ 0 ∷ [];
  };
  fields = record { type = 1; value_length = 4; value = 7 ∷ 1 ∷ 0 ∷ 0 ∷ [] } ∷ [];
}

getters-Answers_example :
    (Answers decoded_hello 0 (is_null decoded_hello 0)
      × Answers decoded_hello 0 (get_dword decoded_hello 0)
      × Answers decoded_hello 0 (get_data decoded_hello 0)
      × Answers decoded_hello 0 (get_wstring decoded_hello 0)
      × Answers decoded_hello 0 (get_guid decoded_hello 0))
    ⊎ Wraps (2 ^ 32) hello
unfolding deserialise scan read_chunk le_value
getters-Answers_example = getters-Answers (2 ^ 32) hello decoded_hello 0 (omega arith) refl

deserialise_within-stuck_example :
    deserialise_within 1000 (2 ^ 32) (chunk_header 5 8 ++ (chunk_header 1 (2 ^ 32 - 8) ++ []))
    ≡ stuck
deserialise_within-stuck_example =
    deserialise_within-stuck 1000 5 8 1 [] (omega arith) (omega arith) (omega arith) (omega arith)
      (omega arith)
