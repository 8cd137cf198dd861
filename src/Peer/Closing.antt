-- ===== src/Peer/Closing.antt =====
-- The end of a session's groups: group_destroy_all() of src/DirectPlay8Peer.cpp.
mod Tests
use directplay_lite.Common.{
  ℕ, zero, suc, ◌+◌, ◌≤◌, ◌<◌, ◌≡◌, ◌⊎◌, inl, inr, refl, sym, ap, ◌∙◌, Bool, true, false, ◌==◌,
  List, [], ◌∷◌, if◌then◌else◌, Bool-cases, arith, length, emplace, erase, has_key, has_key-emplace,
  has_key-emplace_same, has_key-find, find, find-erase_other,
}
use directplay_lite.Packet.Deserialiser.{Result, ok, stuck}
use directplay_lite.Peer.Session.{Group, Session, Event, destroy_group, Application}

module _ (app : Application) where
  -- A round of the loop, for the first group.
  abbrev pub destroy_first : ℕ → ℕ × Group → Session → Session
  destroy_first reason g s =
      if has_key g.0 s.destroyed_groups
      then s
      else (app (destroy_group g.0 g.1.ctx reason)
          (record s { destroyed_groups = emplace g.0 tt s.destroyed_groups })).1

  abbrev pub erase_group : ℕ → Session → Session
  erase_group id s = record s { groups = erase id s.groups }

  -- The loop, on fuel; the first argument are the groups of the session.
  unfoldable pub destroy_groups : List (ℕ × Group) → ℕ → ℕ → Session → Result Session
  destroy_groups [] fuel reason s = ok s
  destroy_groups (g ∷ gs) zero reason s = stuck
  destroy_groups (g ∷ gs) (suc fuel) reason s =
      let s' = erase_group g.0 (destroy_first reason g s) in destroy_groups s'.groups fuel reason s'

  unfoldable pub group_destroy_all : ℕ → ℕ → Session → Result Session
  unfolding destroy_groups
  group_destroy_all fuel reason s = destroy_groups s.groups fuel reason s

length-erase_le : (k : ℕ) (xs : List (ℕ × Group)) → length (erase k xs) ≤ length xs
unfolding erase
length-erase_le k [] = omega arith
length-erase_le k (x ∷ xs) = let ih = length-erase_le k xs in ground (arith, ih)

erase-here : (g : ℕ × Group) (gs : List (ℕ × Group)) → erase g.0 (g ∷ gs) ≡ erase g.0 gs
unfolding erase
erase-here g gs = let same : (g.0 == g.0) ≡ true = ground arith in rw (erase, same) refl

module _ (app : Application) (id : ℕ)
    (same : (e : Event) (s : Session) → (app e s).1.groups ≡ s.groups)
    (keeps : (e : Event) (s : Session)
      → has_key id s.destroyed_groups ≡ true
      → has_key id (app e s).1.destroyed_groups ≡ true) where
  destroy_first-groups :
      (reason : ℕ) (g : ℕ × Group) (s : Session) → (destroy_first app reason g s).groups ≡ s.groups
  destroy_first-groups reason g s = elim (Bool-cases (has_key g.0 s.destroyed_groups)) [
    | inl p ↦ rw p refl
    | inr p ↦ rw p (same _ _)
  ]

  destroy_first-keeps :
      (reason : ℕ) (g : ℕ × Group) (s : Session)
      → has_key id s.destroyed_groups ≡ true
      → has_key id (destroy_first app reason g s).destroyed_groups ≡ true
  destroy_first-keeps reason g s h = elim (Bool-cases (has_key g.0 s.destroyed_groups)) [
    | inl p ↦ rw p h
    | inr p ↦ rw p (keeps _ _ (has_key-emplace id g.0 tt s.destroyed_groups h))
  ]

  destroy_first-destroys :
      (reason : ℕ) (g : ℕ × Group) (s : Session)
      → id ≡ g.0
      → has_key id (destroy_first app reason g s).destroyed_groups ≡ true
  destroy_first-destroys reason g s e = elim (Bool-cases (has_key g.0 s.destroyed_groups)) [
    | inl p ↦ rw p (ap (λ k. has_key k s.destroyed_groups) e ∙ p)
    | inr p ↦ rw p (
        keeps _ _ (
          ap (λ k. has_key k (emplace g.0 tt s.destroyed_groups)) e
          ∙ has_key-emplace_same g.0 tt s.destroyed_groups))
  ]

  -- The group is marked as destroyed, or it is still to come.
  abbrev IsDue : List (ℕ × Group) → Session → Type 0
  IsDue gs s = (has_key id s.destroyed_groups ≡ true) ⊎ (has_key id gs ≡ true)

  destroy_first-IsDue :
      (reason : ℕ) (g : ℕ × Group) (gs : List (ℕ × Group)) (s : Session)
      → IsDue (g ∷ gs) s
      → IsDue (erase g.0 gs) (destroy_first app reason g s)
  destroy_first-IsDue reason g gs s (inl h) = inl (destroy_first-keeps reason g s h)
  destroy_first-IsDue reason g gs s (inr h) = elim (Bool-cases (id == g.0)) [
    | inl p ↦ inl (destroy_first-destroys reason g s (ground (arith, p)))
    | inr p ↦ inr (
        ap (has_key id) (sym (erase-here g gs))
        ∙ has_key-find id (g ∷ gs) (erase g.0 (g ∷ gs))
            (find-erase_other id g.0 (g ∷ gs) (ground (arith, p))) h)
  ]

  destroy_groups-all :
      (gs : List (ℕ × Group)) (fuel reason : ℕ) (s : Session)
      → s.groups ≡ gs
      → length gs ≤ fuel
      → IsDue gs s
      → (s' : Session) × (destroy_groups app gs fuel reason s ≡ ok s')
        × (s'.groups ≡ [])
        × (has_key id s'.destroyed_groups ≡ true)
  unfolding destroy_groups has_key find
  destroy_groups-all [] fuel reason s e h (inl d) = (s, refl, e, d)
  destroy_groups-all [] fuel reason s e h (inr d) = absurd (ground (arith, d))
  destroy_groups-all (g ∷ gs) zero reason s e h d = absurd (omega (arith, h))
  destroy_groups-all (g ∷ gs) (suc fuel) reason s e h d =
      let s' = erase_group app g.0 (destroy_first app reason g s) in
      let rest : s'.groups ≡ erase g.0 gs =
        ap (erase g.0) (destroy_first-groups reason g s ∙ e) ∙ erase-here g gs in
      let shorter = length-erase_le g.0 gs in
      let (end, run, none_left, done) =
        destroy_groups-all (erase g.0 gs) fuel reason s' rest (omega (arith, h, shorter))
          (destroy_first-IsDue reason g gs s d) in
      (end, ap (λ x. destroy_groups app x fuel reason s') rest ∙ run, none_left, done)

  -- group_destroy_all() ends within one round for each group; afterwards the session has no groups, and each that it had is among
  -- those that may not come back. The application's handler neither makes nor removes groups on the way, nor does
  -- it take a group out of the destroyed ones.
  pub group_destroy_all_lem :
      (fuel reason : ℕ) (s : Session)
      → length s.groups ≤ fuel
      → has_key id s.groups ≡ true
      → (s' : Session) × (group_destroy_all app fuel reason s ≡ ok s')
        × (s'.groups ≡ [])
        × (has_key id s'.destroyed_groups ≡ true)
  unfolding group_destroy_all
  group_destroy_all_lem fuel reason s h d = destroy_groups-all s.groups fuel reason s refl h (inr d)
