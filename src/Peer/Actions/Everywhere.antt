-- ===== src/Peer/Actions/Everywhere.antt =====
-- DestroyGroup() at one peer and handle_group_destroy() at another: src/DirectPlay8Peer.cpp.
use directplay_lite.Common.{
  ℕ, ◌+◌, ◌^◌, ◌<◌, ◌≡◌, refl, ap, ◌∙◌, Bool, true, false, none, some, [], ◌∷◌, arith, length, find,
  emplace, has_key, has_key-emplace_same,
}
use directplay_lite.Packet.Bytes.{le_bytes}
use directplay_lite.Packet.Serialiser.{dword, append_all, append, serialiser, chunk_header}
use directplay_lite.Packet.Wire.{encode_all}
use directplay_lite.Packet.RoundTrip.{deserialise-append_all}
use directplay_lite.Packet.Deserialiser.{Deserialiser, ok, packet_type, deserialise, get_dword}
use directplay_lite.Handles.{Allocator, dgroup}
use directplay_lite.Peer.Session.{Peer, Group, Session, Event, Application, is_connected}
use directplay_lite.Peer.Groups.{hears_groups, handle_group_destroy}
use directplay_lite.Peer.Groups.Steps.{posted_for, posted_all_for, find-posted_all_for}
use directplay_lite.Peer.Groups.Destroyed.{IsGone}
use directplay_lite.Peer.Groups.Permanent.{handle_group_destroy-IsGone, drop_group-IsGone}
use directplay_lite.Peer.Queries.{refuses_enum, count_connected}
use directplay_lite.Peer.Actions.Begun.{begun, start_lem}
use directplay_lite.Peer.Actions.{
  Started, with_group, group_destroy, destroy_group_call, destroy_thread,
}

group_destroy-append_all : (id : ℕ) → group_destroy id ≡ append_all (dword id ∷ []) (serialiser 17)
unfolding group_destroy append_all append
group_destroy-append_all id = refl

length-group_destroy : (id : ℕ) → length (encode_all (dword id ∷ [])) ≡ 12
unfolding le_bytes chunk_header
length-group_destroy id = refl

-- The packet of DestroyGroup() over the wire.
group_destroy-packet :
    (m id : ℕ)
    → 20 < m
    → id < 2 ^ 32
    → (pd : Deserialiser) × (deserialise m (group_destroy id) ≡ ok pd)
      × (packet_type pd ≡ 17)
      × (get_dword pd 0 ≡ ok id)
group_destroy-packet m id wide small =
    let size = length-group_destroy id in
    let (pd, made, type, num, reads) =
      deserialise-append_all m 17 (dword id ∷ []) (omega arith) (omega (arith, size))
        (omega (arith, size, wide)) (small, tt) in
    (pd, ap (deserialise m) (group_destroy-append_all id) ∙ made, type, reads 0 (dword id) refl)

module _ (app : Application) (id : ℕ)
    (keeps : (e : Event) (s : Session)
      → has_key id s.destroyed_groups ≡ true
      → has_key id (app e s).1.destroyed_groups ≡ true) where
  -- DestroyGroup() destroys the group for good at both ends. When the call returns the group counts as destroyed at the caller, and
  -- the operation waits for one callback of each connected peer and for the thread; when the thread has run next, the group is
  -- gone there. Each connected peer has the packet in its queue, and the group is gone at a peer that has handled it. The caller's
  -- session allows the call, the group is there and not yet destroyed at either end, the receiving session knows the sender in a
  -- fitting state, the group's number is a word, a size_t holds the packet's 20 bytes, and no application takes a group out of the destroyed ones.
  pub destroy_group_call-IsGone :
      (m callback j from : ℕ) (sync : Bool) (h : Allocator) (s t : Session) (group : Group)
      (other sender : Peer)
      → 20 < m
      → id < 2 ^ 32
      → refuses_enum s.state ≡ none
      → find id s.groups ≡ some group
      → has_key id s.destroyed_groups ≡ false
      → find j s.peers ≡ some other
      → is_connected other ≡ true
      → find from t.peers ≡ some sender
      → hears_groups sender ≡ true
      → has_key id t.destroyed_groups ≡ false
      → (started : Started) × (destroy_group_call sync callback id h s ≡ ok started)
        × (started.pending ≡ 1 + count_connected s.peers)
        × (has_key id started.session.destroyed_groups ≡ true)
        × IsGone id (destroy_thread app id started.session)
        × (find j started.session.peers ≡ some (posted_for callback (group_destroy id) other))
        × ((pd : Deserialiser) × (deserialise m (group_destroy id) ≡ ok pd)
            × (packet_type pd ≡ 17)
            × ((t' : Session) × (handle_group_destroy app from pd t ≡ ok t') × IsGone id t'))
  unfolding destroy_group_call with_group
  destroy_group_call-IsGone m callback j from sync h s t group other sender wide small active there
        fresh o oc f hears new =
      let marked = record s { destroyed_groups = emplace id tt s.destroyed_groups } in
      let peers = posted_all_for callback (group_destroy id) s.peers in
      let s' = record marked { peers = peers } in
      let (pd, made, type, r) = group_destroy-packet m id wide small in
      let sent : find j peers ≡ some (posted_for callback (group_destroy id) other) =
        rw oc at (find-posted_all_for j callback (group_destroy id) s.peers other o) in
      let mark = has_key-emplace_same id tt s.destroyed_groups in
      (
        begun sync dgroup callback (group_destroy id) h marked,
        rw (destroy_group_call, with_group, active, there, fresh)
            (start_lem sync dgroup callback (group_destroy id) h marked),
        refl,
        mark,
        drop_group-IsGone app id keeps (find id s'.groups) s' refl mark,
        sent,
        (pd, made, type, handle_group_destroy-IsGone app id keeps from pd sender t f hears r new),
      )
