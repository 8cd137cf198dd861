-- ===== src/Peer/Closing/Tests.antt =====
-- A run of group_destroy_all() of src/DirectPlay8Peer.cpp.
use directplay_lite.Common.{◌≡◌, refl, true, [], arith, has_key, find}
use directplay_lite.Packet.Deserialiser.{ok}
use directplay_lite.Peer.Session.{Session}
use directplay_lite.Peer.Closing.{group_destroy_all, group_destroy_all_lem}
use directplay_lite.Peer.Samples.{silent, sample_session}

group_destroy_all_lem_example :
    (s' : Session) × (group_destroy_all silent 1 1 sample_session ≡ ok s')
    × (s'.groups ≡ [])
    × (has_key 6 s'.destroyed_groups ≡ true)
unfolding has_key find
group_destroy_all_lem_example =
    group_destroy_all_lem silent 6 (λ e s. refl) (λ e s h. h) 1 1 sample_session (omega arith) refl
