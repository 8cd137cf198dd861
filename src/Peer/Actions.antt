-- ===== src/Peer/Actions.antt =====
-- What an application does to groups: DestroyGroup() and AddPlayerToGroup() of src/DirectPlay8Peer.cpp, and RemovePlayerFromGroup() in Removal. `sync` says whether dwFlags has the SYNC flag, and `callback` stands for the callback that each send gets,
-- which calls `complete`. The thread of DestroyGroup() is a function of its own; that of AddPlayerToGroup(),
-- which tells the application, is left out.
pub mod Begun
pub mod Everywhere
pub mod Completion
pub mod Requests
pub mod Removal
mod Tests
use directplay_lite.Common.{
  ℕ, ◌+◌, ◌-◌, Bool, true, false, not, List, [], ◌∷◌, Option, none, some, ◌==◌, if◌then◌else◌, find,
  emplace, update, has_key,
}
use directplay_lite.Packet.Serialiser.{serialiser, append_dword, append_wstring, append_data}
use directplay_lite.Packet.Deserialiser.{Result, ok, ◌>>=◌}
use directplay_lite.Handles.{Allocator, Kind, dgroup, apgroup, alloc}
use directplay_lite.Peer.Session.{Group, Session, Application, post_for, is_connected, Peer}
use directplay_lite.Peer.Groups.{
  err_invalid_group, err_player_already_in_group, insert_player, group_joined, drop_group,
}
use directplay_lite.Peer.Queries.{err_invalid_player, refuses_enum}
use directplay_lite.Peer.Acks.{alloc_ack_id}

abbrev pub success_pending : ℕ
success_pending = 0x0015800E

-- What a method returns, the handle that it gives out, and *pending when it has sent its messages. With SYNC the method goes on to
-- wait for its completion, and the code is that of the result so far.
pub record Started : Type 0 where
  pub code : ℕ
  pub handle : Option ℕ
  pub pending : ℕ
  pub handles : Allocator
  pub session : Session

abbrev pub refused : ℕ → Allocator → Session → Result Started
refused code h s = ok (record { code = code; handle = none; pending = 0; handles = h; session = s })

-- The loop over `peers`: ++(*pending) and sq.send() for those in PS_CONNECTED.
unfoldable pub send_connected : ℕ → List ℕ → ℕ → List (ℕ × Peer) → Result (ℕ × List (ℕ × Peer))
unfolding post_for
send_connected callback packet pending [] = ok (pending, [])
send_connected callback packet pending (p ∷ peers) =
    let count = if is_connected p.1 then pending + 1 else pending in
    do
      peer ← if is_connected p.1 then post_for callback packet p.1 else ok p.1
      sent ← send_connected callback packet count peers
      ok (sent.0, (p.0, peer) ∷ sent.1)

-- The end of a method that goes on: *pending is 1, and then come the sends to all connected peers; with SYNC the method waits and then returns S_OK.
unfoldable pub start : Bool → Kind → ℕ → List ℕ → Allocator → Session → Result Started
unfolding send_connected
start sync kind callback packet h s = do
  sent ← send_connected callback packet 1 s.peers
  ok (record {
    code = if sync then 0 else success_pending;
    handle = if sync then none else some (alloc kind h).0;
    pending = sent.0;
    handles = if sync then h else (alloc kind h).1;
    session = record s { peers = sent.1 };
  })

unfoldable pub group_destroy : ℕ → List ℕ
group_destroy id = append_dword id (serialiser 17)

-- The checks that the two methods share; `body` goes on with the group.
unfoldable pub with_group : ℕ → Allocator → (Group → Result Started) → Session → Result Started
with_group id h body s = elim (refuses_enum s.state) [
  | some code ↦ refused code h s
  | none ↦ elim (find id s.groups) [
    | none ↦ refused err_invalid_group h s
    | some group ↦
        if has_key id s.destroyed_groups then refused err_invalid_group h s else body group
  ]
]

unfoldable pub destroy_group_call : Bool → ℕ → ℕ → Allocator → Session → Result Started
unfolding with_group start
destroy_group_call sync callback id h s =
    with_group id h
      (λ group.
        start sync dgroup callback (group_destroy id) h
          (record s { destroyed_groups = emplace id tt s.destroyed_groups }))
      s

-- AddPlayerToGroup() for the local player. The loop sends before the player is put into the group; the two touch different
-- parts of the session.
unfoldable pub add_local_player : Bool → ℕ → ℕ → Group → Allocator → Session → Result Started
unfolding start
add_local_player sync callback id group h s =
    start sync apgroup callback (group_joined id group) h
      (record s { groups = update id (insert_player s.local_player_id) s.groups })

unfoldable pub group_join : ℕ → ℕ → Group → List ℕ
group_join id ack_id group =
    append_data group.bytes
      (append_wstring group.name (append_dword ack_id (append_dword id (serialiser 18))))

-- A request to another peer: the packet is made with the number that its acknowledgement will have.
unfoldable pub ask_peer : Bool → Kind → ℕ → (ℕ → List ℕ) → ℕ → Allocator → Session → Result Started
ask_peer sync kind callback packet client h s =
    let handle = if sync then none else some (alloc kind h).0 in
    let h' = if sync then h else (alloc kind h).1 in
    elim (find client s.player_to_peer_id) [
      | none ↦ ok (record {
        code = err_invalid_player;
        handle = handle;
        pending = 1;
        handles = h';
        session = s;
      })
      | some peer_id ↦ elim (find peer_id s.peers) [
        | none ↦ ok (record {
          code = err_invalid_player;
          handle = handle;
          pending = 1;
          handles = h';
          session = s;
        })
        | some peer ↦ do
          peer' ← post_for callback (packet (alloc_ack_id peer).0) (alloc_ack_id peer).1
          ok (record {
            code = if sync then 0 else success_pending;
            handle = handle;
            pending = 1;
            handles = h';
            session = record s { peers = update peer_id (λ _. peer') s.peers };
          })
      ]
    ]

-- AddPlayerToGroup(idGroup, idClient, ...), up to the wait of a SYNC call. The callback of a request calls register_ack().
unfoldable pub add_player_to_group_call : Bool → ℕ → ℕ → ℕ → Allocator → Session → Result Started
unfolding with_group add_local_player ask_peer
add_player_to_group_call sync callback id client h s =
    with_group id h
      (λ group.
        if has_key client group.player_ids
        then refused err_player_already_in_group h s
        else if client == s.local_player_id
        then add_local_player sync callback id group h s
        else ask_peer sync apgroup callback (λ ack_id. group_join id ack_id group) client h s)
      s

-- The thread of DestroyGroup(), up to its call of `complete`.
abbrev pub destroy_thread : Application → ℕ → Session → Session
destroy_thread app id s = drop_group app id (find id s.groups) s

-- *pending, and how often the application was told that the operation is complete. The last call frees `pending`; no
-- later one is modelled.
pub record Operation : Type 0 where
  pub pending : ℕ
  pub told : ℕ

unfoldable pub complete : Operation → Operation
complete op = record {
  pending = op.pending - 1;
  told = if op.pending == 1 then op.told + 1 else op.told;
}
