-- ===== src/Peer/Actions/Requests.antt =====
-- AddPlayerToGroup() for a player at another peer, and what that peer makes of it: src/DirectPlay8Peer.cpp.
use directplay_lite.Common.{
  ℕ, ◌+◌, ◌^◌, ◌<◌, ◌≡◌, refl, ap, ◌∙◌, Bool, true, false, none, some, List, [], ◌∷◌, ◌==◌,
  if◌then◌else◌, All, arith, length, find, update, has_key, find-update_same,
}
use directplay_lite.Packet.Serialiser.{Field, dword, wstring, blob, append_all, append, serialiser}
use directplay_lite.Packet.Wire.{encode_all}
use directplay_lite.Packet.RoundTrip.{deserialise-append_all}
use directplay_lite.Packet.Deserialiser.{
  Deserialiser, ok, packet_type, deserialise, get_dword, get_wstring, get_data,
}
use directplay_lite.Handles.{Allocator, apgroup, alloc}
use directplay_lite.Peer.Session.{
  Peer, Group, Session, Application, add_player_to_group, is_connected,
}
use directplay_lite.Peer.Groups.{group_joined, insert_player, handle_group_join}
use directplay_lite.Peer.Groups.Steps.{posted, posted_for, post_for_lem, ack}
use directplay_lite.Peer.Groups.Joins.{accepted, handle_group_join-accepted}
use directplay_lite.Peer.Acks.{alloc_ack_id}
use directplay_lite.Peer.Queries.{refuses_enum}
use directplay_lite.Peer.Actions.{
  Started, with_group, ask_peer, group_join, add_player_to_group_call, success_pending,
}

abbrev join_fields : ℕ → ℕ → Group → List Field
join_fields id ack_id group = dword id ∷ dword ack_id ∷ wstring group.name ∷ blob group.bytes ∷ []

abbrev pub FitsJoin : ℕ → ℕ → ℕ → Group → Type 0
FitsJoin m id ack_id group =
    (id < 2 ^ 32)
    × (ack_id < 2 ^ 32)
    × All (λ c. c < 2 ^ 16) group.name
    × (length (encode_all (join_fields id ack_id group)) < 2 ^ 32)
    × (8 + length (encode_all (join_fields id ack_id group)) < m)

group_join-append_all :
    (id ack_id : ℕ) (group : Group)
    → group_join id ack_id group ≡ append_all (join_fields id ack_id group) (serialiser 18)
unfolding group_join append_all append
group_join-append_all id ack_id group = refl

group_join-packet :
    (m id ack_id : ℕ) (group : Group)
    → FitsJoin m id ack_id group
    → (pd : Deserialiser) × (deserialise m (group_join id ack_id group) ≡ ok pd)
      × (packet_type pd ≡ 18)
      × (get_dword pd 0 ≡ ok id)
      × (get_dword pd 1 ≡ ok ack_id)
      × (get_wstring pd 2 ≡ ok group.name)
      × (get_data pd 3 ≡ ok group.bytes)
group_join-packet m id ack_id group (small, word, text, fits, room) =
    let (pd, made, type, num, reads) =
      deserialise-append_all m 18 (join_fields id ack_id group) (omega arith) fits room
        (small, (word, (text, (tt, tt)))) in
    (
      pd,
      ap (deserialise m) (group_join-append_all id ack_id group) ∙ made,
      type,
      reads 0 (dword id) refl,
      reads 1 (dword ack_id) refl,
      reads 2 (wstring group.name) refl,
      reads 3 (blob group.bytes) refl,
    )

-- The session after a request to a peer.
abbrev asked : ℕ → ℕ → List ℕ → Peer → Session → Session
asked callback peer_id packet peer s = record s {
  peers = update peer_id (λ _. posted_for callback packet (alloc_ack_id peer).1) s.peers;
}

module _ (app : Application) where
  -- AddPlayerToGroup() for the player of another peer, from the call to the other peer's answer: the call sends a GROUP_JOIN with a
  -- number that the sender's alloc_ack_id() gives out and leaves its own membership as it is; the other peer puts its
  -- player into the group and sends an ACK with that number and S_OK. The caller's session allows the call, knows the group
  -- and the player, who is another and is not in the group; the other peer is connected to the caller and knows the group, without
  -- itself in it; the group is destroyed at neither, and its number, name and data fit a packet.
  pub add_player_to_group_call-handle_group_join :
      (m callback id client j from : ℕ) (sync : Bool) (h : Allocator) (s t : Session)
      (group known : Group) (other sender : Peer)
      → FitsJoin m id other.next_ack_id group
      → refuses_enum s.state ≡ none
      → find id s.groups ≡ some group
      → has_key id s.destroyed_groups ≡ false
      → has_key client group.player_ids ≡ false
      → (client == s.local_player_id) ≡ false
      → find client s.player_to_peer_id ≡ some j
      → find j s.peers ≡ some other
      → find from t.peers ≡ some sender
      → is_connected sender ≡ true
      → has_key id t.destroyed_groups ≡ false
      → find id t.groups ≡ some known
      → has_key t.local_player_id known.player_ids ≡ false
      → (started : Started) × (add_player_to_group_call sync callback id client h s ≡ ok started)
        × (started.session.groups ≡ s.groups)
        × ((packet : List ℕ) × (find j started.session.peers
              ≡ some (posted_for callback packet (alloc_ack_id other).1))
            × ((pd : Deserialiser) × (deserialise m packet ≡ ok pd)
                × (packet_type pd ≡ 18)
                × ((t' : Session) × (handle_group_join app from pd t
                      ≡ ok
                          (app
                            (add_player_to_group id known.ctx t.local_player_id t.local_player_ctx)
                            t').1)
                    × (find from t'.peers
                        ≡ some (
                            posted
                              (ack other.next_ack_id 0 [])
                              (posted (group_joined id known) sender)))
                    × (find id t'.groups ≡ some (insert_player t.local_player_id known)))))
  unfolding add_player_to_group_call with_group ask_peer alloc_ack_id
  add_player_to_group_call-handle_group_join m callback id client j from sync h s t group known
        other sender fits active there fresh out remote at o e c d g n =
      let packet = group_join id other.next_ack_id group in
      let (pd, made, type, r0, r1, r2, r3) = group_join-packet m id other.next_ack_id group fits in
      let (run, answer, joined) =
        handle_group_join-accepted app id other.next_ack_id from group.name group.bytes pd sender
          known t e c r0 r1 r2 r3 d g n in
      let sent = post_for_lem callback packet (alloc_ack_id other).1 in
      let started : Started = record {
        code = if sync then 0 else success_pending;
        handle = if sync then none else some (alloc apgroup h).0;
        pending = 1;
        handles = if sync then h else (alloc apgroup h).1;
        session = asked callback j packet other s;
      } in
      (
        started,
        rw
            (
              add_player_to_group_call, with_group, active, there, fresh, out, remote, ask_peer, at,
              o, sent,
            )
            refl,
        refl,
        (
          packet,
          find-update_same j _ s.peers ∙ rw o refl,
          (
            pd,
            made,
            type,
            (accepted app id other.next_ack_id from sender known t, run, answer, joined),
          ),
        ),
      )
