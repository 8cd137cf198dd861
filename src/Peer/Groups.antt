-- ===== src/Peer/Groups.antt =====
-- The handlers of the group messages of DirectPlay8Peer, handle_group_allocate() to handle_group_left() of
-- src/DirectPlay8Peer.cpp: each is called with the lock, for a packet from the peer `peer_id`.
pub mod Steps
pub mod Destroyed
pub mod Permanent
pub mod Joins
mod Tests
use directplay_lite.Common.{
  ℕ, ◌+◌, ◌%◌, ◌^◌, Bool, true, false, not, List, [], ◌∷◌, Option, none, some, ◌==◌, if◌then◌else◌,
  find, emplace, erase, update, has_key,
}
use directplay_lite.Packet.Bytes.{le_bytes}
use directplay_lite.Packet.Serialiser.{serialiser, append_dword, append_wstring, append_data}
use directplay_lite.Packet.Deserialiser.{
  Deserialiser, Result, ok, err, fault, stuck, ◌>>=◌, packet_type, get_dword, get_wstring, get_data,
}
use directplay_lite.Peer.Session.{
  Peer, PeerState, ps_connected, ps_requesting_host, ps_requesting_peer, Group, Session, Event,
  create_group, destroy_group, add_player_to_group, remove_player_from_group, Application,
  is_connected, send_ack, on_peer, post_all, from_peer,
}

abbrev pub err_invalid_group : ℕ
err_invalid_group = 0x80158350

abbrev pub err_player_already_in_group : ℕ
err_player_already_in_group = 0x80158560

abbrev pub err_player_not_in_group : ℕ
err_player_not_in_group = 0x80158580

-- The states in which a peer's GROUP_CREATE and GROUP_DESTROY count.
abbrev pub hears_groups : Peer → Bool
hears_groups peer = elim peer.state [
  | ps_connected ↦ true
  | ps_requesting_host ↦ true
  | ps_requesting_peer ↦ true
  | _ ↦ false
]

abbrev pub new_group : List ℕ → List ℕ → Group
new_group name bytes = record { name = name; bytes = bytes; ctx = 0; player_ids = [] }

abbrev pub set_ctx : ℕ → Group → Group
set_ctx ctx group = record group { ctx = ctx }

abbrev pub insert_player : ℕ → Group → Group
insert_player id group = record group { player_ids = emplace id tt group.player_ids }

abbrev pub erase_player : ℕ → Group → Group
erase_player id group = record group { player_ids = erase id group.player_ids }

unfoldable pub group_joined : ℕ → Group → List ℕ
group_joined group_id group =
    append_data group.bytes (append_wstring group.name (append_dword group_id (serialiser 19)))

unfoldable pub group_left : ℕ → List ℕ
group_left group_id = append_dword group_id (serialiser 21)

unfoldable pub allocate : ℕ → ℕ → Peer → Session → Result Session
allocate ack_id peer_id peer s =
    if not (is_connected peer)
    then ok s
    else on_peer peer_id (send_ack ack_id 0 (le_bytes 4 s.next_player_id))
        (record s { next_player_id = (s.next_player_id + 1) % 2 ^ 32 })

module _ (app : Application) where
  -- groups.emplace() and DPNMSG_CREATE_GROUP.
  abbrev pub emplace_group : ℕ → List ℕ → List ℕ → Peer → Session → ℕ × Session
  emplace_group group_id name bytes peer s =
      app (create_group group_id peer.player_ctx)
        (record s { groups = emplace group_id (new_group name bytes) s.groups })

  -- The writing of the context where the group is still there.
  abbrev pub keep_ctx : ℕ → ℕ × Session → Session
  keep_ctx group_id r = record r.1 { groups = update group_id (set_ctx r.0) r.1.groups }

  unfoldable pub create : ℕ → List ℕ → List ℕ → Peer → Session → Session
  create group_id name bytes peer s =
      if not (hears_groups peer)
      then s
      else if has_key group_id s.groups
      then s
      else if has_key group_id s.destroyed_groups
      then s
      else keep_ctx group_id (emplace_group group_id name bytes peer s)

  -- What is left of a group whose destruction is announced.
  abbrev pub drop_group : ℕ → Option Group → Session → Session
  drop_group group_id none s = s
  drop_group group_id (some group) s =
      let s' = (app (destroy_group group_id group.ctx 1) s).1 in
      record s' { groups = erase group_id s'.groups }

  unfoldable pub destroy : ℕ → Peer → Session → Session
  destroy group_id peer s =
      if not (hears_groups peer)
      then s
      else if has_key group_id s.destroyed_groups
      then s
      else drop_group group_id (find group_id s.groups)
          (record s { destroyed_groups = emplace group_id tt s.destroyed_groups })

  -- The end of handle_group_join() for a group that the session had before.
  unfoldable pub join_known : ℕ → ℕ → ℕ → Group → Session → Result Session
  join_known group_id ack_id peer_id group s =
      if has_key s.local_player_id group.player_ids
      then on_peer peer_id (send_ack ack_id err_player_already_in_group []) s
      else do
        peers ← post_all (group_joined group_id group) s.peers
        s' ←
            if has_key peer_id peers
            then on_peer peer_id (send_ack ack_id 0 []) (record s { peers = peers })
            else ok (record s { peers = peers })
        ok
            (app (add_player_to_group group_id group.ctx s.local_player_id s.local_player_ctx)
              (record s' {
                groups = update group_id (insert_player s.local_player_id) s'.groups;
              })).1

  -- What follows the test of the outer pointer `group` in handle_group_join(); NULL is `none`.
  abbrev pub join_at : ℕ → ℕ → ℕ → Option Group → Session → Result Session
  join_at group_id ack_id peer_id none s = fault
  join_at group_id ack_id peer_id (some group) s = join_known group_id ack_id peer_id group s

  -- What follows the making of a group, by the inner pointer `group`, which hides the outer one up to the end of its block. The
  -- outer one is still NULL.
  unfoldable pub join_unknown : ℕ → ℕ → ℕ → Option Group → Session → Result Session
  join_unknown group_id ack_id peer_id none s =
      on_peer peer_id (send_ack ack_id err_invalid_group []) s
  join_unknown group_id ack_id peer_id (some inner) s = join_at group_id ack_id peer_id none s

  unfoldable pub join : ℕ → ℕ → List ℕ → List ℕ → ℕ → Peer → Session → Result Session
  unfolding join_known join_unknown
  join group_id ack_id name bytes peer_id peer s =
      if not (is_connected peer)
      then ok s
      else if has_key group_id s.destroyed_groups
      then on_peer peer_id (send_ack ack_id err_invalid_group []) s
      else elim (find group_id s.groups) [
        | some group ↦ join_at group_id ack_id peer_id (some group) s
        | none ↦
            let s' = (emplace_group group_id name bytes peer s).1 in
            join_unknown group_id ack_id peer_id (find group_id s'.groups) s'
      ]

  unfoldable pub joined_known : ℕ → Peer → Group → Session → Session
  joined_known group_id peer group s =
      if has_key peer.player_id group.player_ids
      then s
      else (app (add_player_to_group group_id group.ctx peer.player_id peer.player_ctx)
          (record s { groups = update group_id (insert_player peer.player_id) s.groups })).1

  -- The same in handle_group_joined().
  abbrev pub joined_at : ℕ → Peer → Option Group → Session → Result Session
  joined_at group_id peer none s = fault
  joined_at group_id peer (some group) s = ok (joined_known group_id peer group s)

  unfoldable pub joined_unknown : ℕ → Peer → Option Group → Session → Result Session
  joined_unknown group_id peer none s = ok s
  joined_unknown group_id peer (some inner) s = joined_at group_id peer none s

  unfoldable pub joined : ℕ → List ℕ → List ℕ → Peer → Session → Result Session
  unfolding joined_known joined_unknown
  joined group_id name bytes peer s =
      if not (is_connected peer)
      then ok s
      else if has_key group_id s.destroyed_groups
      then ok s
      else elim (find group_id s.groups) [
        | some group ↦ joined_at group_id peer (some group) s
        | none ↦
            let s' = (emplace_group group_id name bytes peer s).1 in
            joined_unknown group_id peer (find group_id s'.groups) s'
      ]

  unfoldable pub leave_known : ℕ → ℕ → ℕ → Group → Session → Result Session
  leave_known group_id ack_id peer_id group s =
      if not (has_key s.local_player_id group.player_ids)
      then on_peer peer_id (send_ack ack_id err_player_not_in_group []) s
      else do
        peers ← post_all (group_left group_id) s.peers
        s' ←
            if has_key peer_id peers
            then on_peer peer_id (send_ack ack_id 0 []) (record s { peers = peers })
            else ok (record s { peers = peers })
        ok
            (app (remove_player_from_group group_id group.ctx s.local_player_id s.local_player_ctx)
              (record s' { groups = update group_id (erase_player s.local_player_id) s'.groups })).1

  unfoldable pub leave : ℕ → ℕ → ℕ → Peer → Session → Result Session
  unfolding leave_known
  leave group_id ack_id peer_id peer s =
      if not (is_connected peer)
      then ok s
      else if has_key group_id s.destroyed_groups
      then on_peer peer_id (send_ack ack_id err_invalid_group []) s
      else elim (find group_id s.groups) [
        | none ↦ ok s
        | some group ↦ leave_known group_id ack_id peer_id group s
      ]

  unfoldable pub left_known : ℕ → Peer → Group → Session → Session
  left_known group_id peer group s =
      if not (has_key peer.player_id group.player_ids)
      then s
      else (app (remove_player_from_group group_id group.ctx peer.player_id peer.player_ctx)
          (record s { groups = update group_id (erase_player peer.player_id) s.groups })).1

  unfoldable pub left : ℕ → Peer → Session → Session
  unfolding left_known
  left group_id peer s =
      if not (is_connected peer)
      then s
      else if has_key group_id s.destroyed_groups
      then s
      else elim (find group_id s.groups) [
        | none ↦ s
        | some group ↦ left_known group_id peer group s
      ]

  unfoldable pub handle_group_allocate : ℕ → Deserialiser → Session → Result Session
  unfolding allocate
  handle_group_allocate peer_id pd s =
      from_peer peer_id (λ peer. do ack_id ← get_dword pd 0; allocate ack_id peer_id peer s) s

  unfoldable pub handle_group_create : ℕ → Deserialiser → Session → Result Session
  unfolding create
  handle_group_create peer_id pd s =
      from_peer peer_id
        (λ peer. do
          group_id ← get_dword pd 0
          group_name ← get_wstring pd 1
          group_data ← get_data pd 2
          ok (create group_id group_name group_data peer s))
        s

  unfoldable pub handle_group_destroy : ℕ → Deserialiser → Session → Result Session
  unfolding destroy
  handle_group_destroy peer_id pd s =
      from_peer peer_id (λ peer. do group_id ← get_dword pd 0; ok (destroy group_id peer s)) s

  unfoldable pub handle_group_join : ℕ → Deserialiser → Session → Result Session
  unfolding join
  handle_group_join peer_id pd s =
      from_peer peer_id
        (λ peer. do
          group_id ← get_dword pd 0
          ack_id ← get_dword pd 1
          group_name ← get_wstring pd 2
          group_data ← get_data pd 3
          join group_id ack_id group_name group_data peer_id peer s)
        s

  unfoldable pub handle_group_joined : ℕ → Deserialiser → Session → Result Session
  unfolding joined
  handle_group_joined peer_id pd s =
      from_peer peer_id
        (λ peer. do
          group_id ← get_dword pd 0
          group_name ← get_wstring pd 1
          group_data ← get_data pd 2
          joined group_id group_name group_data peer s)
        s

  unfoldable pub handle_group_leave : ℕ → Deserialiser → Session → Result Session
  unfolding leave
  handle_group_leave peer_id pd s =
      from_peer peer_id
        (λ peer. do
          group_id ← get_dword pd 0
          ack_id ← get_dword pd 1
          leave group_id ack_id peer_id peer s)
        s

  unfoldable pub handle_group_left : ℕ → Deserialiser → Session → Result Session
  unfolding left
  handle_group_left peer_id pd s =
      from_peer peer_id (λ peer. do group_id ← get_dword pd 0; ok (left group_id peer s)) s

  -- The cases of the switch in io_peer_recv() for the group messages; `other` are the other cases.
  unfoldable pub dispatch_group :
      (Deserialiser → Session → Result Session) → ℕ → Deserialiser → Session → Result Session
  unfolding handle_group_allocate handle_group_create handle_group_destroy handle_group_join
      handle_group_joined handle_group_leave handle_group_left
  dispatch_group other peer_id pd s =
      if packet_type pd == 15
      then handle_group_allocate peer_id pd s
      else if packet_type pd == 16
      then handle_group_create peer_id pd s
      else if packet_type pd == 17
      then handle_group_destroy peer_id pd s
      else if packet_type pd == 18
      then handle_group_join peer_id pd s
      else if packet_type pd == 19
      then handle_group_joined peer_id pd s
      else if packet_type pd == 20
      then handle_group_leave peer_id pd s
      else if packet_type pd == 21
      then handle_group_left peer_id pd s
      else other pd s
