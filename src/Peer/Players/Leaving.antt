-- ===== src/Peer/Players/Leaving.antt =====
-- A player that is destroyed is in no group: dispatch_destroy_player() of src/DirectPlay8Peer.cpp.
use directplay_lite.Common.{
  ℕ, zero, suc, ◌≤◌, ◌<◌, ◌≡◌, inl, inr, refl, subst, true, false, ◌==◌, List, [], ◌∷◌, none, some,
  if◌then◌else◌, Bool-cases, Option-cases, arith, erase, update, has_key, find-erase_same,
}
use directplay_lite.Packet.Deserialiser.{ok}
use directplay_lite.Peer.Session.{
  Group, Session, Event, remove_player_from_group, destroy_player, Application,
}
use directplay_lite.Peer.Groups.{erase_player}
use directplay_lite.Peer.Players.{first_with, removed, remove_from_groups, dispatch_destroy_player}

-- How many groups a player is in.
unfoldable pub memberships : ℕ → List (ℕ × Group) → ℕ
memberships id [] = 0
memberships id (g ∷ groups) =
    let rest = memberships id groups in if has_key id g.1.player_ids then suc rest else rest

has_key-erase : (id : ℕ) (xs : List (ℕ × Unit {0})) → has_key id (erase id xs) ≡ false
unfolding has_key
has_key-erase id xs = rw (has_key, find-erase_same id xs) refl

memberships-update_le :
    (id k : ℕ) (groups : List (ℕ × Group))
    → memberships id (update k (erase_player id) groups) ≤ memberships id groups
unfolding memberships update
memberships-update_le id k [] = omega arith
memberships-update_le id k (g ∷ groups) =
    let ih = memberships-update_le id k groups in
    let out = has_key-erase id g.1.player_ids in ground (arith, ih, out)

memberships-update_here :
    (id : ℕ) (x : ℕ × Group) (groups : List (ℕ × Group))
    → has_key id x.1.player_ids ≡ true
    → memberships id (update x.0 (erase_player id) (x ∷ groups)) < memberships id (x ∷ groups)
unfolding memberships update
memberships-update_here id x groups p =
    let rest = memberships-update_le id x.0 groups in
    let found : (x.0 == x.0) ≡ true = ground arith in
    rw (update, found, memberships, has_key-erase id x.1.player_ids, p) (omega (arith, rest))

memberships-update_lt :
    (id : ℕ) (g : ℕ × Group) (groups : List (ℕ × Group))
    → first_with id groups ≡ some g
    → memberships id (update g.0 (erase_player id) groups) < memberships id groups
unfolding memberships update first_with
memberships-update_lt id g [] h = absurd (ground (arith, h))
memberships-update_lt id g (x ∷ groups) h = elim (Bool-cases (has_key id x.1.player_ids)) [
  | inl p ↦
      let same : x ≡ g = ground (arith, rw (first_with, p) at h) in
      subst
        (λ y.
          memberships id (update y.0 (erase_player id) (x ∷ groups)) < memberships id (x ∷ groups))
        same (memberships-update_here id x groups p)
  | inr p ↦
      let ih = memberships-update_lt id g groups (rw (first_with, p) at h) in
      let out = has_key-erase id x.1.player_ids in ground (arith, ih, p, out)
]

first_with-none :
    (id : ℕ) (groups : List (ℕ × Group)) → first_with id groups ≡ none → memberships id groups ≡ 0
unfolding memberships first_with
first_with-none id [] h = refl
first_with-none id (x ∷ groups) h = elim (Bool-cases (has_key id x.1.player_ids)) [
  | inl p ↦ absurd (ground (arith, rw (first_with, p) at h))
  | inr p ↦ let ih = first_with-none id groups (rw (first_with, p) at h) in rw (memberships, p) ih
]

module _ (app : Application) (id : ℕ)
    (quiet : (e : Event) (s : Session)
      → memberships id (app e s).1.groups ≤ memberships id s.groups) where
  remove_from_groups-memberships :
      (fuel ctx : ℕ) (s : Session)
      → memberships id s.groups < fuel
      → (s' : Session) × (remove_from_groups app fuel id ctx s ≡ ok s')
        × (memberships id s'.groups ≡ 0)
  unfolding remove_from_groups
  remove_from_groups-memberships zero ctx s h = absurd (omega (arith, h))
  remove_from_groups-memberships (suc fuel) ctx s h = elim (Option-cases (first_with id s.groups)) [
    | inl e ↦ (s, rw (remove_from_groups, e) refl, first_with-none id s.groups e)
    | inr (g, e) ↦
        let less = memberships-update_lt id g s.groups e in
        let after =
          quiet (remove_player_from_group g.0 g.1.ctx id ctx)
            (record s { groups = update g.0 (erase_player id) s.groups }) in
        let (s', run, none_left) =
          remove_from_groups-memberships fuel ctx (removed app id ctx g s)
            (omega (arith, h, less, after)) in
        (s', rw (remove_from_groups, e) run, none_left)
  ]

  -- The loop of dispatch_destroy_player(), which starts again after each removal, ends: it needs one round more than there are
  -- groups with the player in them. When the application then hears of the player's end, and afterwards, the player is in
  -- no group. No call of the application raises the number of groups that the player is in.
  pub dispatch_destroy_player-memberships :
      (fuel ctx reason : ℕ) (s : Session)
      → memberships id s.groups < fuel
      → (s' : Session) × (dispatch_destroy_player app fuel id ctx reason s
          ≡ ok (app (destroy_player id ctx reason) s').1)
        × (memberships id s'.groups ≡ 0)
        × (memberships id (app (destroy_player id ctx reason) s').1.groups ≡ 0)
  unfolding dispatch_destroy_player
  dispatch_destroy_player-memberships fuel ctx reason s h =
      let (s', run, out) = remove_from_groups-memberships fuel ctx s h in
      let after = quiet (destroy_player id ctx reason) s' in
      (s', rw run refl, out, omega (arith, out, after))
