-- ===== src/Peer/Groups/Permanent.antt =====
-- The handlers of src/DirectPlay8Peer.cpp on whatever group message a peer sends.
use directplay_lite.Common.{
  ℕ, ◌≡◌, refl, true, false, some, none, Option, All, find, emplace, has_key, has_key-emplace_same,
  find-erase_same,
}
use directplay_lite.Packet.Deserialiser.{Deserialiser, Result, ok, get_dword}
use directplay_lite.Packet.Chunks.{InBounds}
use directplay_lite.Peer.Session.{Peer, Group, Session, Event, Application, from_peer}
use directplay_lite.Peer.Groups.{hears_groups, destroy, drop_group, handle_group_destroy}
use directplay_lite.Peer.Groups.Steps.{Ends}
use directplay_lite.Peer.Groups.Destroyed.{IsGone, IsNews}

module _ (app : Application) (g : ℕ)
    (keeps : (e : Event) (s : Session) → IsGone g s → IsGone g (app e s).1)
    (other : Deserialiser → Session → Result Session) (pd : Deserialiser)
    (bounds : All InBounds pd.fields) (peer_id : ℕ) (s : Session) where
  abbrev Safe : Result Session → Type 0
  Safe = Ends (IsGone g) (IsNews pd s) ⊥

  abbrev Reading : Result Session → Type 0
  Reading = Ends (IsGone g) (IsNews pd s) (Unit {0})

module _ (app : Application) (id : ℕ)
    (keeps : (e : Event) (s : Session)
      → has_key id s.destroyed_groups ≡ true
      → has_key id (app e s).1.destroyed_groups ≡ true) where
  pub drop_group-IsGone :
      (o : Option Group) (s : Session)
      → find id s.groups ≡ o
      → has_key id s.destroyed_groups ≡ true
      → IsGone id (drop_group app id o s)
  drop_group-IsGone none s e h = (e, h)
  drop_group-IsGone (some group) s e h = (find-erase_same id _, keeps _ s h)

  -- A GROUP_DESTROY that a peer in a fitting state sends destroys the group for good: afterwards it is not there, and it is among those that
  -- may not come back, also where it was not known before. It was not destroyed before, and the application
  -- does not take it out of those that were.
  pub handle_group_destroy-IsGone :
      (peer_id : ℕ) (pd : Deserialiser) (peer : Peer) (s : Session)
      → find peer_id s.peers ≡ some peer
      → hears_groups peer ≡ true
      → get_dword pd 0 ≡ ok id
      → has_key id s.destroyed_groups ≡ false
      → (s' : Session) × (handle_group_destroy app peer_id pd s ≡ ok s') × IsGone id s'
  unfolding handle_group_destroy destroy
  handle_group_destroy-IsGone peer_id pd peer s e c r q =
      let marked = record s { destroyed_groups = emplace id tt s.destroyed_groups } in
      let gone =
        drop_group-IsGone (find id s.groups) marked refl
          (has_key-emplace_same id tt s.destroyed_groups) in
      (
        drop_group app id (find id s.groups) marked,
        rw (handle_group_destroy, from_peer, e, r, destroy, c, q) refl,
        gone,
      )
