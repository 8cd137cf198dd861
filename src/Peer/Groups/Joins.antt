-- ===== src/Peer/Groups/Joins.antt =====
-- Players in groups: what handle_group_join() sends, and what handle_group_joined() of another peer makes of it
-- (src/DirectPlay8Peer.cpp).
use directplay_lite.Common.{
  ℕ, ◌+◌, ◌^◌, ◌<◌, ◌≡◌, ◌≢◌, refl, ap, ◌∙◌, true, false, List, [], ◌∷◌, some, All, arith, length,
  find, update, has_key, has_key-some, find-update_other, find-update_same,
}
use directplay_lite.Packet.Serialiser.{Field, dword, wstring, blob, append_all, append, serialiser}
use directplay_lite.Packet.Wire.{encode_all}
use directplay_lite.Packet.RoundTrip.{deserialise-append_all}
use directplay_lite.Packet.Deserialiser.{
  Deserialiser, ok, packet_type, deserialise, get_dword, get_wstring, get_data,
}
use directplay_lite.Peer.Session.{
  Peer, Group, Session, add_player_to_group, Application, is_connected, from_peer,
}
use directplay_lite.Peer.Groups.{
  group_joined, insert_player, join, join_known, joined, joined_known, handle_group_join,
  handle_group_joined,
}
use directplay_lite.Peer.Groups.Steps.{
  posted, posted_all, find-posted_all_for, post_all_lem, ack, on_peer-send_ack,
}

abbrev group_fields : ℕ → Group → List Field
group_fields id group = dword id ∷ wstring group.name ∷ blob group.bytes ∷ []

abbrev pub FitsPacket : ℕ → ℕ → Group → Type 0
FitsPacket m id group =
    (id < 2 ^ 32)
    × All (λ c. c < 2 ^ 16) group.name
    × (length (encode_all (group_fields id group)) < 2 ^ 32)
    × (8 + length (encode_all (group_fields id group)) < m)

group_joined-append_all :
    (id : ℕ) (group : Group)
    → group_joined id group ≡ append_all (group_fields id group) (serialiser 19)
unfolding group_joined append_all append
group_joined-append_all id group = refl

module _ (app : Application) where
  -- A peer tells another that its player joined a group, over the wire: the receiver, which knows the group, adds the
  -- sender's player to it, and tells the application so. The packet holds the group's number, name and data, all of which
  -- fit it; the sender is a connected peer whose player is not yet in the group, and the group was not destroyed.
  pub handle_group_joined-group_joined :
      (m id peer_id : ℕ) (sent group : Group) (peer : Peer) (s : Session)
      → FitsPacket m id sent
      → find peer_id s.peers ≡ some peer
      → is_connected peer ≡ true
      → has_key id s.destroyed_groups ≡ false
      → find id s.groups ≡ some group
      → has_key peer.player_id group.player_ids ≡ false
      → (pd : Deserialiser) × (deserialise m (group_joined id sent) ≡ ok pd)
        × (packet_type pd ≡ 19)
        × (handle_group_joined app peer_id pd s
            ≡ ok
                (app
                  (add_player_to_group id group.ctx peer.player_id peer.player_ctx)
                  (record s { groups = update id (insert_player peer.player_id) s.groups })).1)
  unfolding handle_group_joined joined joined_known
  handle_group_joined-group_joined m id peer_id sent group peer s (small, wide, fits, room) e c d g
        n =
      let (pd, made, type, num, reads) =
        deserialise-append_all m 19 (group_fields id sent) (omega arith) fits room
          (small, (wide, (tt, tt))) in
      let r0 : get_dword pd 0 ≡ ok id = reads 0 (dword id) refl in
      let r1 : get_wstring pd 1 ≡ ok sent.name = reads 1 (wstring sent.name) refl in
      let r2 : get_data pd 2 ≡ ok sent.bytes = reads 2 (blob sent.bytes) refl in
      (
        pd,
        ap (deserialise m) (group_joined-append_all id sent) ∙ made,
        type,
        rw (handle_group_joined, from_peer, e, r0, r1, r2, joined, c, d, g, joined_known, n) refl,
      )

  -- The session when the application hears of an accepted join.
  abbrev pub accepted : ℕ → ℕ → ℕ → Peer → Group → Session → Session
  accepted id ack_id peer_id peer group s = record s {
    peers =
        update peer_id (λ _. posted (ack ack_id 0 []) (posted (group_joined id group) peer))
          (posted_all (group_joined id group) s.peers);
    groups = update id (insert_player s.local_player_id) s.groups;
  }

  pub handle_group_join-accepted :
      (id ack_id peer_id : ℕ) (name bytes : List ℕ) (pd : Deserialiser) (peer : Peer)
      (group : Group) (s : Session)
      → find peer_id s.peers ≡ some peer
      → is_connected peer ≡ true
      → get_dword pd 0 ≡ ok id
      → get_dword pd 1 ≡ ok ack_id
      → get_wstring pd 2 ≡ ok name
      → get_data pd 3 ≡ ok bytes
      → has_key id s.destroyed_groups ≡ false
      → find id s.groups ≡ some group
      → has_key s.local_player_id group.player_ids ≡ false
      → (handle_group_join app peer_id pd s
          ≡ ok
              (app
                (add_player_to_group id group.ctx s.local_player_id s.local_player_ctx)
                (accepted id ack_id peer_id peer group s)).1)
        × (find peer_id (accepted id ack_id peer_id peer group s).peers
            ≡ some (posted (ack ack_id 0 []) (posted (group_joined id group) peer)))
        × (find id (accepted id ack_id peer_id peer group s).groups
            ≡ some (insert_player s.local_player_id group))
  unfolding handle_group_join join join_known
  handle_group_join-accepted id ack_id peer_id name bytes pd peer group s e c r0 r1 r2 r3 d g m =
      let packet = group_joined id group in
      let peers = posted_all packet s.peers in
      let asked : find peer_id peers ≡ some (posted packet peer) =
        rw c at (find-posted_all_for peer_id 0 packet s.peers peer e) in
      let there = has_key-some peer_id (posted packet peer) peers asked in
      let acked =
        on_peer-send_ack peer_id ack_id 0 [] (posted packet peer) (record s { peers = peers })
          asked in
      (
        rw
            (
              handle_group_join,
              from_peer,
              e,
              r0,
              r1,
              r2,
              r3,
              join,
              c,
              d,
              g,
              join_known,
              m,
              post_all_lem packet s.peers,
              there,
              acked,
            )
            refl,
        find-update_same peer_id _ peers ∙ rw asked refl,
        find-update_same id _ s.groups ∙ rw g refl,
      )

  -- A GROUP_JOIN that is accepted: every connected peer is sent GROUP_JOINED, the one that asked for it is sent the ACK behind it,
  -- and the local player is in the group before the application hears of it. The sender and the other peer are
  -- connected, the group is known and not destroyed, and the local player is not yet in it.
  pub handle_group_join-announces :
      (id ack_id peer_id j : ℕ) (name bytes : List ℕ) (pd : Deserialiser) (peer other : Peer)
      (group : Group) (s : Session)
      → find peer_id s.peers ≡ some peer
      → is_connected peer ≡ true
      → j ≢ peer_id
      → find j s.peers ≡ some other
      → is_connected other ≡ true
      → get_dword pd 0 ≡ ok id
      → get_dword pd 1 ≡ ok ack_id
      → get_wstring pd 2 ≡ ok name
      → get_data pd 3 ≡ ok bytes
      → has_key id s.destroyed_groups ≡ false
      → find id s.groups ≡ some group
      → has_key s.local_player_id group.player_ids ≡ false
      → (s' : Session) × (handle_group_join app peer_id pd s
          ≡ ok (app (add_player_to_group id group.ctx s.local_player_id s.local_player_ctx) s').1)
        × (find peer_id s'.peers
            ≡ some (posted (ack ack_id 0 []) (posted (group_joined id group) peer)))
        × (find j s'.peers ≡ some (posted (group_joined id group) other))
        × (find id s'.groups ≡ some (insert_player s.local_player_id group))
  handle_group_join-announces id ack_id peer_id j name bytes pd peer other group s e c n o oc r0 r1
        r2 r3 d g m =
      let (run, asked, joined) =
        handle_group_join-accepted id ack_id peer_id name bytes pd peer group s e c r0 r1 r2 r3 d g
          m in
      let packet = group_joined id group in
      let heard : find j (posted_all packet s.peers) ≡ some (posted packet other) =
        rw oc at (find-posted_all_for j 0 packet s.peers other o) in
      (
        accepted id ack_id peer_id peer group s,
        run,
        asked,
        find-update_other j peer_id _ (posted_all packet s.peers) n ∙ heard,
        joined,
      )
