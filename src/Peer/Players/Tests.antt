-- ===== src/Peer/Players/Tests.antt =====
-- Runs of dispatch_destroy_player() of src/DirectPlay8Peer.cpp.
use directplay_lite.Common.{◌≡◌, arith, has_key, find}
use directplay_lite.Packet.Deserialiser.{ok}
use directplay_lite.Peer.Session.{Session, destroy_player}
use directplay_lite.Peer.Players.{dispatch_destroy_player}
use directplay_lite.Peer.Players.Leaving.{memberships, dispatch_destroy_player-memberships}
use directplay_lite.Peer.Samples.{silent, sample_session}

dispatch_destroy_player-memberships_example :
    (s' : Session) × (dispatch_destroy_player silent 2 2 0 1 sample_session
      ≡ ok (silent (destroy_player 2 0 1) s').1)
    × (memberships 2 s'.groups ≡ 0)
    × (memberships 2 (silent (destroy_player 2 0 1) s').1.groups ≡ 0)
unfolding memberships has_key find
dispatch_destroy_player-memberships_example =
    dispatch_destroy_player-memberships silent 2 (λ e s. omega arith) 2 0 1 sample_session
      (omega arith)
