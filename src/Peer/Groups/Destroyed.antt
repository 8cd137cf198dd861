-- ===== src/Peer/Groups/Destroyed.antt =====
-- A group that was destroyed does not come back: the group handlers of src/DirectPlay8Peer.cpp against what src/Messages.hpp
-- says of GROUP_DESTROY.
use directplay_lite.Common.{
  ℕ, ◌≡◌, ◌⊎◌, inl, inr, ◌∙◌, true, false, List, [], Option, none, some, if◌then◌else◌, Bool-cases,
  Option-cases, find, emplace, has_key, find-emplace_other, find-update-none, find-erase-none,
  has_key-differ, has_key-emplace, has_key-cases,
}
use directplay_lite.Packet.Deserialiser.{Deserialiser, Result, ok, ◌>>=◌, packet_type, get_dword}
use directplay_lite.Packet.Bytes.{le_bytes}
use directplay_lite.Peer.Session.{
  Peer, Group, Session, Event, create_group, Application, is_connected, send_ack, on_peer, post_all,
}
use directplay_lite.Peer.Groups.{
  hears_groups, new_group, allocate, create, destroy, drop_group, emplace_group, join, join_known,
  join_unknown, joined, joined_known, joined_unknown, leave, leave_known, left, left_known,
  err_invalid_group, err_player_already_in_group, err_player_not_in_group, group_joined, group_left,
}
use directplay_lite.Peer.Groups.Steps.{posted_all, post_all_lem, on_peer-send_ack, Ends}

abbrev pub IsGone : ℕ → Session → Type 0
IsGone g s = (find g s.groups ≡ none) × (has_key g s.destroyed_groups ≡ true)

-- A GROUP_JOIN or GROUP_JOINED about a group of which the session does not know.
abbrev pub IsNews : Deserialiser → Session → Type 0
IsNews pd s =
    ((packet_type pd ≡ 18) ⊎ (packet_type pd ≡ 19))
    × ((id : ℕ) × (get_dword pd 0 ≡ ok id)
        × (find id s.groups ≡ none)
        × (has_key id s.destroyed_groups ≡ false))

module _ (app : Application) (g : ℕ)
    (keeps : (e : Event) (s : Session) → IsGone g s → IsGone g (app e s).1) where
  pub create-IsGone :
      (id : ℕ) (name bytes : List ℕ) (peer : Peer) (s : Session)
      → IsGone g s
      → IsGone g (create app id name bytes peer s)
  unfolding create
  create-IsGone id name bytes peer s h = elim (Bool-cases (hears_groups peer)) [
    | inr p ↦ rw (create, p) h
    | inl p ↦ elim (Bool-cases (has_key id s.groups)) [
      | inl q ↦ rw (create, p, q) h
      | inr q ↦ elim (Bool-cases (has_key id s.destroyed_groups)) [
        | inl r ↦ rw (create, p, q, r) h
        | inr r ↦
            let other = has_key-differ g id s.destroyed_groups h.1 r in
            let made : IsGone g (record s { groups = emplace id (new_group name bytes) s.groups }) =
              (find-emplace_other g id (new_group name bytes) s.groups other ∙ h.0, h.1) in
            let after = keeps (create_group id peer.player_ctx) _ made in
            rw (create, p, q, r) (find-update-none g id _ _ after.0, after.1)
      ]
    ]
  ]

  drop_group-IsGone :
      (id : ℕ) (o : Option Group) (s : Session) → IsGone g s → IsGone g (drop_group app id o s)
  drop_group-IsGone id none s h = h
  drop_group-IsGone id (some group) s h =
      let after = keeps _ s h in (find-erase-none g id _ after.0, after.1)

  pub destroy-IsGone :
      (id : ℕ) (peer : Peer) (s : Session) → IsGone g s → IsGone g (destroy app id peer s)
  unfolding destroy
  destroy-IsGone id peer s h = elim (Bool-cases (hears_groups peer)) [
    | inr p ↦ rw (destroy, p) h
    | inl p ↦ elim (Bool-cases (has_key id s.destroyed_groups)) [
      | inl r ↦ rw (destroy, p, r) h
      | inr r ↦
          rw (destroy, p, r)
            (drop_group-IsGone id (find id s.groups) _
              (h.0, has_key-emplace g id tt s.destroyed_groups h.1))
    ]
  ]

  module _ (F : Type 0) where
    abbrev pub Kept : Result Session → Type 0
    Kept = Ends (IsGone g) F (Unit {0})

    ack-Kept :
        (peer_id a r : ℕ) (bytes : List ℕ) (peer : Peer) (s : Session)
        → find peer_id s.peers ≡ some peer
        → IsGone g s
        → Kept (on_peer peer_id (send_ack a r bytes) s)
    ack-Kept peer_id a r bytes peer s e h = rw (on_peer-send_ack peer_id a r bytes peer s e) h

    -- The sending to all peers, the acknowledgement and what follows it.
    announce-Kept :
        (packet : List ℕ) (peer_id ack_id : ℕ) (s : Session) (f : Session → Session)
        → ((s' : Session) → IsGone g s' → IsGone g (f s'))
        → IsGone g s
        → Kept (do
          peers ← post_all packet s.peers
          s' ←
              if has_key peer_id peers
              then on_peer peer_id (send_ack ack_id 0 []) (record s { peers = peers })
              else ok (record s { peers = peers })
          ok (f s'))
    announce-Kept packet peer_id ack_id s f k h =
        let peers = posted_all packet s.peers in
        rw (post_all_lem packet s.peers) (elim (Bool-cases (has_key peer_id peers)) [
          | inl p ↦
              let (peer, e) = has_key-cases peer_id peers p in
              rw (p, on_peer-send_ack peer_id ack_id 0 [] peer (record s { peers = peers }) e)
                (k _ h)
          | inr p ↦ rw p (k (record s { peers = peers }) h)
        ])

    join_known-Kept :
        (id ack_id peer_id : ℕ) (group : Group) (peer : Peer) (s : Session)
        → find peer_id s.peers ≡ some peer
        → IsGone g s
        → Kept (join_known app id ack_id peer_id group s)
    unfolding join_known
    join_known-Kept id ack_id peer_id group peer s e h =
        elim (Bool-cases (has_key s.local_player_id group.player_ids)) [
          | inl p ↦
              rw (join_known, p) (ack-Kept peer_id ack_id err_player_already_in_group [] peer s e h)
          | inr p ↦
              rw (join_known, p)
                (announce-Kept (group_joined id group) peer_id ack_id s _
                  (λ s' h'. keeps _ _ (find-update-none g id _ s'.groups h'.0, h'.1)) h)
        ]

    join_unknown-Kept :
        F
        → (id ack_id peer_id : ℕ) (o : Option Group) (s : Session) → IsGone g s
        → Kept (join_unknown app id ack_id peer_id o s)
    unfolding join_unknown on_peer
    join_unknown-Kept news id ack_id peer_id (some group) s h = news
    join_unknown-Kept news id ack_id peer_id none s h = elim (Option-cases (find peer_id s.peers)) [
      | inl e ↦ rw (on_peer, e) news
      | inr (peer, e) ↦ ack-Kept peer_id ack_id err_invalid_group [] peer s e h
    ]

    pub join-Kept :
        (id ack_id : ℕ) (name bytes : List ℕ) (peer_id : ℕ) (peer : Peer) (s : Session)
        → (find id s.groups ≡ none → has_key id s.destroyed_groups ≡ false → F)
        → find peer_id s.peers ≡ some peer
        → IsGone g s
        → Kept (join app id ack_id name bytes peer_id peer s)
    unfolding join
    join-Kept id ack_id name bytes peer_id peer s news e h = elim (Bool-cases (is_connected peer)) [
      | inr p ↦ rw (join, p) h
      | inl p ↦ elim (Bool-cases (has_key id s.destroyed_groups)) [
        | inl q ↦ rw (join, p, q) (ack-Kept peer_id ack_id err_invalid_group [] peer s e h)
        | inr q ↦ elim (Option-cases (find id s.groups)) [
          | inr (group, r) ↦ rw (join, p, q, r) (join_known-Kept id ack_id peer_id group peer s e h)
          | inl r ↦
              let other = has_key-differ g id s.destroyed_groups h.1 q in
              rw (join, p, q, r)
                (join_unknown-Kept (news r q) id ack_id peer_id _ _ (
                  keeps _ _
                    (find-emplace_other g id (new_group name bytes) s.groups other ∙ h.0, h.1)))
        ]
      ]
    ]

    pub joined-Kept :
        (id : ℕ) (name bytes : List ℕ) (peer : Peer) (s : Session)
        → (find id s.groups ≡ none → has_key id s.destroyed_groups ≡ false → F)
        → IsGone g s
        → Kept (joined app id name bytes peer s)
    unfolding joined joined_known joined_unknown
    joined-Kept id name bytes peer s news h = elim (Bool-cases (is_connected peer)) [
      | inr p ↦ rw (joined, p) h
      | inl p ↦ elim (Bool-cases (has_key id s.destroyed_groups)) [
        | inl q ↦ rw (joined, p, q) h
        | inr q ↦ elim (Option-cases (find id s.groups)) [
          | inr (group, r) ↦ elim (Bool-cases (has_key peer.player_id group.player_ids)) [
            | inl u ↦ rw (joined, p, q, r, joined_known, u) h
            | inr u ↦
                rw (joined, p, q, r, joined_known, u)
                  (keeps _ _ (find-update-none g id _ s.groups h.0, h.1))
          ]
          | inl r ↦
              let other = has_key-differ g id s.destroyed_groups h.1 q in
              let after =
                keeps (create_group id peer.player_ctx) _
                  (find-emplace_other g id (new_group name bytes) s.groups other ∙ h.0, h.1) in
              rw (joined, p, q, r)
                (elim (Option-cases (find id (emplace_group app id name bytes peer s).1.groups)) [
                  | inl u ↦ rw (joined_unknown, u) after
                  | inr (group, u) ↦ rw (joined_unknown, u) (news r q)
                ])
        ]
      ]
    ]

    pub leave-Kept :
        (id ack_id peer_id : ℕ) (peer : Peer) (s : Session)
        → find peer_id s.peers ≡ some peer
        → IsGone g s
        → Kept (leave app id ack_id peer_id peer s)
    unfolding leave leave_known
    leave-Kept id ack_id peer_id peer s e h = elim (Bool-cases (is_connected peer)) [
      | inr p ↦ rw (leave, p) h
      | inl p ↦ elim (Bool-cases (has_key id s.destroyed_groups)) [
        | inl q ↦ rw (leave, p, q) (ack-Kept peer_id ack_id err_invalid_group [] peer s e h)
        | inr q ↦ elim (Option-cases (find id s.groups)) [
          | inl r ↦ rw (leave, p, q, r) h
          | inr (group, r) ↦ elim (Bool-cases (has_key s.local_player_id group.player_ids)) [
            | inr u ↦
                rw (leave, p, q, r, leave_known, u)
                  (ack-Kept peer_id ack_id err_player_not_in_group [] peer s e h)
            | inl u ↦
                rw (leave, p, q, r, leave_known, u)
                  (announce-Kept (group_left id) peer_id ack_id s _
                    (λ s' h'. keeps _ _ (find-update-none g id _ s'.groups h'.0, h'.1)) h)
          ]
        ]
      ]
    ]

    pub left-IsGone :
        (id : ℕ) (peer : Peer) (s : Session) → IsGone g s → IsGone g (left app id peer s)
    unfolding left left_known
    left-IsGone id peer s h = elim (Bool-cases (is_connected peer)) [
      | inr p ↦ rw (left, p) h
      | inl p ↦ elim (Bool-cases (has_key id s.destroyed_groups)) [
        | inl q ↦ rw (left, p, q) h
        | inr q ↦ elim (Option-cases (find id s.groups)) [
          | inl r ↦ rw (left, p, q, r) h
          | inr (group, r) ↦ elim (Bool-cases (has_key peer.player_id group.player_ids)) [
            | inr u ↦ rw (left, p, q, r, left_known, u) h
            | inl u ↦
                rw (left, p, q, r, left_known, u)
                  (keeps _ _ (find-update-none g id _ s.groups h.0, h.1))
          ]
        ]
      ]
    ]

    pub allocate-Kept :
        (ack_id peer_id : ℕ) (peer : Peer) (s : Session)
        → find peer_id s.peers ≡ some peer
        → IsGone g s
        → Kept (allocate ack_id peer_id peer s)
    unfolding allocate
    allocate-Kept ack_id peer_id peer s e h = elim (Bool-cases (is_connected peer)) [
      | inr p ↦ rw (allocate, p) h
      | inl p ↦
          rw (allocate, p) (ack-Kept peer_id ack_id 0 (le_bytes 4 s.next_player_id) peer _ e h)
    ]
