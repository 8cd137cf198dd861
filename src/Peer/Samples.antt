-- ===== src/Peer/Samples.antt =====
-- A small session and packets for runs of the handlers of src/DirectPlay8Peer.cpp.
use directplay_lite.Common.{ℕ, List, [], ◌∷◌}
use directplay_lite.Packet.Deserialiser.{Chunk, Deserialiser}
use directplay_lite.SendQueue.{init}
use directplay_lite.Peer.Session.{hosting, ps_connected, Peer, Group, Session, Application}

-- An application that does nothing.
abbrev pub silent : Application
silent e s = (0, s)

abbrev pub sample_peer : ℕ → Peer
sample_peer player_id = record {
  state = ps_connected;
  player_id = player_id;
  player_ctx = 0;
  sq = init;
  next_ack_id = 1;
  pending_acks = (3, 9) ∷ [];
}

abbrev pub sample_group : Group
sample_group = record { name = []; bytes = []; ctx = 0; player_ids = (2, tt) ∷ [] }

-- Group 5 was destroyed, and group 6 has player 2 in it.
abbrev pub sample_session : Session
sample_session = record {
  state = hosting;
  local_player_id = 1;
  local_player_ctx = 0;
  next_player_id = 7;
  host_player_id = 1;
  peers = (10, sample_peer 2) ∷ (11, sample_peer 3) ∷ [];
  player_to_peer_id = (2, 10) ∷ (3, 11) ∷ [];
  groups = (6, sample_group) ∷ [];
  destroyed_groups = (5, tt) ∷ [];
  connect_result = 0;
}

abbrev pub dword_chunk : ℕ → Chunk
dword_chunk n = record { type = 1; value_length = 4; value = n ∷ 0 ∷ 0 ∷ 0 ∷ [] }

abbrev pub wstring_chunk : Chunk
wstring_chunk = record { type = 3; value_length = 0; value = [] }

abbrev pub blob_chunk : Chunk
blob_chunk = record { type = 2; value_length = 0; value = [] }

abbrev pub sample_packet : ℕ → List Chunk → Deserialiser
sample_packet type fields = record {
  header = record { type = type; value_length = 0; value = [] };
  fields = fields;
}
