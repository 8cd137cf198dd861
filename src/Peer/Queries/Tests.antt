-- ===== src/Peer/Queries/Tests.antt =====
-- Questions about a session of src/DirectPlay8Peer.cpp.
use directplay_lite.Common.{◌≤◌, ◌<◌, ◌≡◌, ◌⊎◌, refl, true, [], ◌∷◌, length, find}
use directplay_lite.Packet.Deserialiser.{ok}
use directplay_lite.Peer.Queries.{
  err_buffer_too_small, num_results, results, enum_players_and_groups, enum_group_members,
  enum_players_and_groups-retry,
}
use directplay_lite.Peer.Samples.{sample_session}

members : enum_group_members 6 1 sample_session ≡ record { code = 0; count = 1; ids = 2 ∷ [] }
unfolding enum_group_members find
members = refl

enum_players_and_groups-retry_example :
    ((2 < num_results true true sample_session)
      × (enum_players_and_groups true true 2 sample_session
          ≡ ok (record {
            code = err_buffer_too_small;
            count = num_results true true sample_session;
            ids = [];
          }))
      × (enum_players_and_groups true true (num_results true true sample_session) sample_session
          ≡ ok (record {
            code = 0;
            count = num_results true true sample_session;
            ids = results true true sample_session;
          }))
      × (length (results true true sample_session) ≡ num_results true true sample_session))
    ⊎ ((length (results true true sample_session) ≤ 2)
        × (enum_players_and_groups true true 2 sample_session
            ≡ ok (record {
              code = 0;
              count = num_results true true sample_session;
              ids = results true true sample_session;
            })))
enum_players_and_groups-retry_example =
    enum_players_and_groups-retry true true sample_session refl 2
