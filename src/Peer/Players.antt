-- ===== src/Peer/Players.antt =====
-- Messages to the application about players and the connection: dispatch_destroy_player() and connect_check() of
-- src/DirectPlay8Peer.cpp.
pub mod Leaving
mod Tests
use directplay_lite.Common.{
  ℕ, zero, suc, Bool, true, false, List, [], ◌∷◌, Option, none, some, if◌then◌else◌, update,
  has_key,
}
use directplay_lite.Packet.Deserialiser.{Result, ok, fault, stuck, ◌>>=◌}
use directplay_lite.Peer.Session.{
  State, connecting_to_host, connecting_to_peers, connected, Peer, ps_connecting_host,
  ps_requesting_host, ps_connecting_peer, ps_requesting_peer, Group, Session,
  remove_player_from_group, destroy_player, connect_complete, Application,
}
use directplay_lite.Peer.Groups.{erase_player}

-- Where the loop over `groups` next finds the player; it starts again from the first group after each removal.
unfoldable pub first_with : ℕ → List (ℕ × Group) → Option (ℕ × Group)
first_with id [] = none
first_with id (g ∷ groups) =
    let rest = first_with id groups in if has_key id g.1.player_ids then some g else rest

unfoldable pub is_connecting : Peer → Bool
is_connecting peer = elim peer.state [
  | ps_connecting_host ↦ true
  | ps_requesting_host ↦ true
  | ps_connecting_peer ↦ true
  | ps_requesting_peer ↦ true
  | _ ↦ false
]

-- The loop of connect_check() over `peers`.
unfoldable pub any_connecting : List (ℕ × Peer) → Bool
unfolding is_connecting
any_connecting [] = false
any_connecting (p ∷ peers) =
    let rest = any_connecting peers in if is_connecting p.1 then true else rest

abbrev pub is_joining : State → Bool
is_joining state = elim state [ connecting_to_host ↦ true | connecting_to_peers ↦ true | _ ↦ false ]

module _ (app : Application) where
  -- The loop, on fuel; the removal from a group that the loop found.
  abbrev pub removed : ℕ → ℕ → ℕ × Group → Session → Session
  removed player_id player_ctx g s =
      (app (remove_player_from_group g.0 g.1.ctx player_id player_ctx)
        (record s { groups = update g.0 (erase_player player_id) s.groups })).1

  unfoldable pub remove_from_groups : ℕ → ℕ → ℕ → Session → Result Session
  unfolding first_with
  remove_from_groups zero player_id player_ctx s = stuck
  remove_from_groups (suc fuel) player_id player_ctx s = elim (first_with player_id s.groups) [
    | none ↦ ok s
    | some g ↦ remove_from_groups fuel player_id player_ctx (removed player_id player_ctx g s)
  ]

  unfoldable pub dispatch_destroy_player : ℕ → ℕ → ℕ → ℕ → Session → Result Session
  unfolding remove_from_groups
  dispatch_destroy_player fuel player_id player_ctx reason s = do
    s' ← remove_from_groups fuel player_id player_ctx s
    ok (app (destroy_player player_id player_ctx reason) s').1

  -- The message to the application, and then the result of a Connect() that waits.
  abbrev pub complete_connect : ℕ → Session → Session
  complete_connect result s =
      let s' = (app (connect_complete result s.local_player_id) s).1 in
      record s' { connect_result = result }

  unfoldable pub connect_check : Session → Result Session
  unfolding any_connecting
  connect_check s =
      if is_joining s.state
      then (if any_connecting s.peers
          then ok s
          else ok (complete_connect 0 (record s { state = connected })))
      else fault
