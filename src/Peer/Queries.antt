-- ===== src/Peer/Queries.antt =====
-- Questions about a session: EnumPlayersAndGroups() and EnumGroupMembers() of src/DirectPlay8Peer.cpp. `capacity` is *pcdpnid at the call; the counts stay below 2 ^ 32.
mod Tests
use directplay_lite.Common.{
  ℕ, suc, ◌+◌, ◌≤◌, ◌<◌, ◌≡◌, ◌⊎◌, inl, inr, refl, sym, ap, ◌∙◌, Bool, true, false, List, [], ◌∷◌,
  ◌++◌, Option, none, some, map, ◌==◌, ltb, if◌then◌else◌, Bool-cases, arith, length, length-append,
  find,
}
use directplay_lite.Packet.Deserialiser.{Result, ok, fault}
use directplay_lite.Peer.Session.{
  State, new, initialised, hosting, connecting_to_host, connecting_to_peers, connect_failed,
  connected, closing, terminated, Peer, Group, Session, is_connected, get_peer_by_player_id,
}
use directplay_lite.Peer.Groups.{err_invalid_group}

abbrev pub err_buffer_too_small : ℕ
err_buffer_too_small = 0x80158100

abbrev pub err_connecting : ℕ
err_connecting = 0x80158150

abbrev pub err_connection_lost : ℕ
err_connection_lost = 0x80158160

abbrev pub err_invalid_player : ℕ
err_invalid_player = 0x80158420

abbrev pub err_no_connection : ℕ
err_no_connection = 0x80158480

abbrev pub err_not_ready : ℕ
err_not_ready = 0x80158540

abbrev pub err_uninitialized : ℕ
err_uninitialized = 0x80158640

-- The switch of EnumPlayersAndGroups(): what it returns at once.
abbrev pub refuses_enum : State → Option ℕ
refuses_enum new = some err_uninitialized
refuses_enum initialised = some err_no_connection
refuses_enum hosting = none
refuses_enum connecting_to_host = some err_connecting
refuses_enum connecting_to_peers = some err_connecting
refuses_enum connect_failed = some err_connecting
refuses_enum connected = none
refuses_enum closing = some err_connection_lost
refuses_enum terminated = some err_connection_lost

-- The switch of EnumGroupMembers().
abbrev pub refuses_members : State → Option ℕ
refuses_members new = some err_uninitialized
refuses_members initialised = some err_no_connection
refuses_members hosting = none
refuses_members connecting_to_host = none
refuses_members connecting_to_peers = none
refuses_members connect_failed = some err_connection_lost
refuses_members connected = none
refuses_members closing = some err_connection_lost
refuses_members terminated = some err_connection_lost

-- The returned code, *pcdpnid afterwards, and what was written to prgdpnid.
pub record Answer : Type 0 where
  pub code : ℕ
  pub count : ℕ
  pub ids : List ℕ

-- The loops over `peers`: the first counts, the second writes.
unfoldable pub count_connected : List (ℕ × Peer) → ℕ
count_connected [] = 0
count_connected (p ∷ peers) =
    let rest = count_connected peers in if is_connected p.1 then suc rest else rest

unfoldable pub connected_ids : List (ℕ × Peer) → List ℕ
connected_ids [] = []
connected_ids (p ∷ peers) =
    let rest = connected_ids peers in if is_connected p.1 then p.1.player_id ∷ rest else rest

abbrev pub group_ids : List (ℕ × Group) → List ℕ
group_ids = map λ g. g.0

unfoldable pub num_results : Bool → Bool → Session → ℕ
unfolding count_connected
num_results players groups s =
    (if players then 1 + count_connected s.peers else 0) + (if groups then length s.groups else 0)

unfoldable pub results : Bool → Bool → Session → List ℕ
unfolding connected_ids
results players groups s =
    (if players then s.local_player_id ∷ connected_ids s.peers else [])
    ++ (if groups then group_ids s.groups else [])

-- EnumPlayersAndGroups(); `players` and `groups` say whether dwFlags has DPNENUM_PLAYERS and DPNENUM_GROUPS.
unfoldable pub enum_players_and_groups : Bool → Bool → ℕ → Session → Result Answer
unfolding num_results results
enum_players_and_groups players groups capacity s = elim (refuses_enum s.state) [
  | some code ↦ ok (record { code = code; count = capacity; ids = [] })
  | none ↦
      let num = num_results players groups s in
      let ids = results players groups s in
      if ltb capacity num
      then ok (record { code = err_buffer_too_small; count = num; ids = [] })
      else if length ids == num
      then ok (record { code = 0; count = length ids; ids = ids })
      else fault
]

-- EnumGroupMembers(dpnid, ...).
unfoldable pub enum_group_members : ℕ → ℕ → Session → Answer
enum_group_members id capacity s = elim (refuses_members s.state) [
  | some code ↦ record { code = code; count = capacity; ids = [] }
  | none ↦ elim (find id s.groups) [
    | none ↦ record { code = err_invalid_group; count = capacity; ids = [] }
    | some group ↦
        if ltb capacity (length group.player_ids)
        then record { code = err_buffer_too_small; count = length group.player_ids; ids = [] }
        else record {
          code = 0;
          count = length group.player_ids;
          ids = map (λ p. p.0) group.player_ids;
        }
  ]
]

length-connected_ids :
    (peers : List (ℕ × Peer)) → length (connected_ids peers) ≡ count_connected peers
unfolding connected_ids count_connected
length-connected_ids [] = refl
length-connected_ids (p ∷ peers) = let ih = length-connected_ids peers in ground (arith, ih)

length-group_ids : (groups : List (ℕ × Group)) → length (group_ids groups) ≡ length groups
length-group_ids [] = refl
length-group_ids (g ∷ groups) = ap suc (length-group_ids groups)

length-results :
    (players groups : Bool) (s : Session)
    → length (results players groups s) ≡ num_results players groups s
unfolding results num_results
length-results true true s =
    let a = length-connected_ids s.peers in
    let b = length-group_ids s.groups in
    let c = length-append (s.local_player_id ∷ connected_ids s.peers) (group_ids s.groups) in
    omega (arith, a, b, c)
length-results true false s =
    let a = length-connected_ids s.peers in
    let c = length-append (s.local_player_id ∷ connected_ids s.peers) [] in omega (arith, a, c)
length-results false true s = let b = length-group_ids s.groups in omega (arith, b)
length-results false false s = refl

module _ (players groups : Bool) (s : Session) (active : refuses_enum s.state ≡ none) where
  enum-small :
      (capacity : ℕ)
      → capacity < num_results players groups s
      → enum_players_and_groups players groups capacity s
        ≡ ok
            (record { code = err_buffer_too_small; count = num_results players groups s; ids = [] })
  unfolding enum_players_and_groups
  enum-small capacity h =
      let small : ltb capacity (num_results players groups s) ≡ true = ground (arith, h) in
      rw (enum_players_and_groups, active, small) refl

  enum-enough :
      (capacity : ℕ)
      → num_results players groups s ≤ capacity
      → enum_players_and_groups players groups capacity s
        ≡ ok (record {
          code = 0;
          count = num_results players groups s;
          ids = results players groups s;
        })
  unfolding enum_players_and_groups
  enum-enough capacity h =
      let enough : ltb capacity (num_results players groups s) ≡ false = ground (arith, h) in
      let size = length-results players groups s in
      let exact : (length (results players groups s) == num_results players groups s) ≡ true =
        ground (arith, size) in
      rw (enum_players_and_groups, active, enough, exact, size) refl

  -- How an application learns of the players and groups: a call with too small a buffer writes nothing and reports the size that is
  -- needed, and a call with that size then gets them all; a call with enough room gets them at once, and never
  -- more than there is room for. The assertion that the two loops agree holds. The session is in a state in which the call is allowed.
  pub enum_players_and_groups-retry :
      (capacity : ℕ)
      → ((capacity < num_results players groups s)
          × (enum_players_and_groups players groups capacity s
              ≡ ok (record {
                code = err_buffer_too_small;
                count = num_results players groups s;
                ids = [];
              }))
          × (enum_players_and_groups players groups (num_results players groups s) s
              ≡ ok (record {
                code = 0;
                count = num_results players groups s;
                ids = results players groups s;
              }))
          × (length (results players groups s) ≡ num_results players groups s))
        ⊎ ((length (results players groups s) ≤ capacity)
            × (enum_players_and_groups players groups capacity s
                ≡ ok (record {
                  code = 0;
                  count = num_results players groups s;
                  ids = results players groups s;
                })))
  enum_players_and_groups-retry capacity =
      let size = length-results players groups s in
      elim (Bool-cases (ltb capacity (num_results players groups s))) [
        | inl p ↦
            let less : capacity < num_results players groups s = ground (arith, p) in
            inl (
              less,
              enum-small capacity less,
              enum-enough (num_results players groups s) (omega arith),
              size,
            )
        | inr p ↦
            let room : num_results players groups s ≤ capacity = ground (arith, p) in
            inr (omega (arith, size, room), enum-enough capacity room)
      ]
