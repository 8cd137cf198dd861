-- ===== src/Peer/Actions/Removal.antt =====
-- RemovePlayerFromGroup() of src/DirectPlay8Peer.cpp, up to the wait of a SYNC call, and what the peer of a removed player makes of
-- the request. The method does not look at the destroyed groups.
use directplay_lite.Common.{
  ℕ, ◌^◌, ◌<◌, ◌≡◌, refl, ◌∙◌, Bool, true, false, not, none, some, List, [], ◌∷◌, ◌==◌,
  if◌then◌else◌, arith, find, update, has_key, has_key-some, find-update_same,
}
use directplay_lite.Packet.Serialiser.{
  dword, append_dword, append_all, append, serialiser, chunk_header,
}
use directplay_lite.Packet.Bytes.{le_bytes}
use directplay_lite.Packet.RoundTrip.{deserialise-append_all}
use directplay_lite.Packet.Deserialiser.{
  Result, Deserialiser, ok, packet_type, deserialise, get_dword,
}
use directplay_lite.Handles.{Allocator, rpgroup, alloc}
use directplay_lite.Peer.Session.{
  Peer, Group, Session, Application, remove_player_from_group, is_connected, from_peer,
}
use directplay_lite.Peer.Groups.{
  err_invalid_group, err_player_not_in_group, group_left, erase_player, leave, leave_known,
  handle_group_leave,
}
use directplay_lite.Peer.Groups.Steps.{
  posted, posted_for, post_for_lem, posted_all, find-posted_all_for, post_all_lem, ack,
  on_peer-send_ack,
}
use directplay_lite.Peer.Acks.{alloc_ack_id}
use directplay_lite.Peer.Queries.{refuses_enum}
use directplay_lite.Peer.Actions.{Started, refused, start, ask_peer, success_pending}

unfoldable pub group_leave : ℕ → ℕ → List ℕ
group_leave id ack_id = append_dword ack_id (append_dword id (serialiser 20))

-- RemovePlayerFromGroup() for the local player, up to the thread that tells the application.
unfoldable pub remove_local_player : Bool → ℕ → ℕ → Allocator → Session → Result Started
unfolding start
remove_local_player sync callback id h s =
    start sync rpgroup callback (group_left id) h
      (record s { groups = update id (erase_player s.local_player_id) s.groups })

unfoldable pub remove_player_from_group_call :
    Bool → ℕ → ℕ → ℕ → Allocator → Session → Result Started
unfolding remove_local_player ask_peer
remove_player_from_group_call sync callback id client h s = elim (refuses_enum s.state) [
  | some code ↦ refused code h s
  | none ↦ elim (find id s.groups) [
    | none ↦ refused err_invalid_group h s
    | some group ↦
        if not (has_key client group.player_ids)
        then refused err_player_not_in_group h s
        else if client == s.local_player_id
        then remove_local_player sync callback id h s
        else ask_peer sync rpgroup callback (group_leave id) client h s
  ]
]

group_leave-packet :
    (m id ack_id : ℕ)
    → id < 2 ^ 32
    → ack_id < 2 ^ 32
    → 32 < m
    → (pd : Deserialiser) × (deserialise m (group_leave id ack_id) ≡ ok pd)
      × (packet_type pd ≡ 20)
      × (get_dword pd 0 ≡ ok id)
      × (get_dword pd 1 ≡ ok ack_id)
unfolding group_leave append_all append chunk_header le_bytes
group_leave-packet m id ack_id small word room =
    let (pd, made, type, num, reads) =
      deserialise-append_all m 20 (dword id ∷ dword ack_id ∷ []) (omega arith) (omega arith)
        (omega (arith, room)) (small, (word, tt)) in
    (pd, made, type, reads 0 (dword id) refl, reads 1 (dword ack_id) refl)

module _ (app : Application) where
  -- The session when the application hears that its player left a group.
  abbrev pub left_group : ℕ → ℕ → ℕ → Peer → Session → Session
  left_group id ack_id peer_id peer s = record s {
    peers =
        update peer_id (λ _. posted (ack ack_id 0 []) (posted (group_left id) peer))
          (posted_all (group_left id) s.peers);
    groups = update id (erase_player s.local_player_id) s.groups;
  }

  pub handle_group_leave-accepted :
      (id ack_id peer_id : ℕ) (pd : Deserialiser) (peer : Peer) (group : Group) (s : Session)
      → find peer_id s.peers ≡ some peer
      → is_connected peer ≡ true
      → get_dword pd 0 ≡ ok id
      → get_dword pd 1 ≡ ok ack_id
      → has_key id s.destroyed_groups ≡ false
      → find id s.groups ≡ some group
      → has_key s.local_player_id group.player_ids ≡ true
      → handle_group_leave app peer_id pd s
        ≡ ok
            (app
              (remove_player_from_group id group.ctx s.local_player_id s.local_player_ctx)
              (left_group id ack_id peer_id peer s)).1
  unfolding handle_group_leave leave leave_known
  handle_group_leave-accepted id ack_id peer_id pd peer group s e c r0 r1 d g m =
      let packet = group_left id in
      let peers = posted_all packet s.peers in
      let asked : find peer_id peers ≡ some (posted packet peer) =
        rw c at (find-posted_all_for peer_id 0 packet s.peers peer e) in
      let there = has_key-some peer_id (posted packet peer) peers asked in
      let acked =
        on_peer-send_ack peer_id ack_id 0 [] (posted packet peer) (record s { peers = peers })
          asked in
      rw
        (
          handle_group_leave,
          from_peer,
          e,
          r0,
          r1,
          leave,
          c,
          d,
          g,
          leave_known,
          m,
          post_all_lem packet s.peers,
          there,
          acked,
        )
        refl

  -- RemovePlayerFromGroup() for the player of another peer, from the call to the other peer's answer: the call sends a GROUP_LEAVE
  -- with a number that alloc_ack_id() gives out and leaves its own membership as it is; the other peer takes its player out of the
  -- group, tells the sender so with a GROUP_LEFT, and sends it behind that an ACK with the number and S_OK. The caller's session
  -- allows the call and knows the group and the player, who is another and is in the group; the other peer is connected to the
  -- caller and knows the group, with itself in it and not destroyed; the numbers are 32 bits wide.
  pub remove_player_from_group_call-handle_group_leave :
      (m callback id client j from : ℕ) (sync : Bool) (h : Allocator) (s t : Session)
      (group known : Group) (other sender : Peer)
      → id < 2 ^ 32
      → other.next_ack_id < 2 ^ 32
      → 32 < m
      → refuses_enum s.state ≡ none
      → find id s.groups ≡ some group
      → has_key client group.player_ids ≡ true
      → (client == s.local_player_id) ≡ false
      → find client s.player_to_peer_id ≡ some j
      → find j s.peers ≡ some other
      → find from t.peers ≡ some sender
      → is_connected sender ≡ true
      → has_key id t.destroyed_groups ≡ false
      → find id t.groups ≡ some known
      → has_key t.local_player_id known.player_ids ≡ true
      → (started : Started) × (remove_player_from_group_call sync callback id client h s
          ≡ ok started)
        × (started.session.groups ≡ s.groups)
        × ((packet : List ℕ) × (find j started.session.peers
              ≡ some (posted_for callback packet (alloc_ack_id other).1))
            × ((pd : Deserialiser) × (deserialise m packet ≡ ok pd)
                × (packet_type pd ≡ 20)
                × ((t' : Session) × (handle_group_leave app from pd t
                      ≡ ok
                          (app
                            (remove_player_from_group id known.ctx t.local_player_id
                              t.local_player_ctx)
                            t').1)
                    × (find from t'.peers
                        ≡ some
                            (posted (ack other.next_ack_id 0 []) (posted (group_left id) sender)))
                    × (find id t'.groups ≡ some (erase_player t.local_player_id known)))))
  unfolding remove_player_from_group_call ask_peer alloc_ack_id
  remove_player_from_group_call-handle_group_leave m callback id client j from sync h s t group
        known other sender small word room active there inside remote at o e c d g n =
      let packet = group_leave id other.next_ack_id in
      let (pd, made, type, r0, r1) = group_leave-packet m id other.next_ack_id small word room in
      let run =
        handle_group_leave-accepted id other.next_ack_id from pd sender known t e c r0 r1 d g n in
      let sent = post_for_lem callback packet (alloc_ack_id other).1 in
      let told : find from (posted_all (group_left id) t.peers)
          ≡ some (posted (group_left id) sender) =
        rw c at (find-posted_all_for from 0 (group_left id) t.peers sender e) in
      let started : Started = record {
        code = if sync then 0 else success_pending;
        handle = if sync then none else some (alloc rpgroup h).0;
        pending = 1;
        handles = if sync then h else (alloc rpgroup h).1;
        session = record s {
          peers = update j (λ _. posted_for callback packet (alloc_ack_id other).1) s.peers;
        };
      } in
      (
        started,
        rw (remove_player_from_group_call, active, there, inside, remote, ask_peer, at, o, sent)
            refl,
        refl,
        (
          packet,
          find-update_same j _ s.peers ∙ rw o refl,
          (
            pd,
            made,
            type,
            (
              left_group id other.next_ack_id from sender t,
              run,
              find-update_same from _ (posted_all (group_left id) t.peers) ∙ rw told refl,
              find-update_same id _ t.groups ∙ rw g refl,
            ),
          ),
        ),
      )
