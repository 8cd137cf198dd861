-- ===== src/Peer/Groups/Steps.antt =====
-- How the group handlers of src/DirectPlay8Peer.cpp end, from how their parts end.
use directplay_lite.Common.{
  arith, ◌==◌, ℕ, ◌+◌, ◌≡◌, refl, true, inl, inr, List, [], ◌∷◌, ◌++◌, some, if◌then◌else◌,
  Bool-cases, find, update,
}
use directplay_lite.Packet.Deserialiser.{Deserialiser, Result, ok, err, fault, stuck, ◌>>=◌}
use directplay_lite.Packet.Getters.{Answers}
use directplay_lite.Packet.Serialiser.{serialiser, append_dword, append_data}
use directplay_lite.SendQueue.{SendQueue, send, new_op, push_back}
use directplay_lite.Peer.Session.{
  Peer, Session, is_connected, post_for, post, send_ack, on_peer, post_all_for, post_all, caught,
}

-- The queue after sq.send() of a packet with SEND_PRI_HIGH and without a destination.
abbrev pub queued : ℕ → List ℕ → SendQueue → SendQueue
queued callback packet q = record q {
  high_queue =
      q.high_queue
      ++ record {
        address = q.allocated;
        bytes = packet;
        sent_data = 0;
        dest_addr = [];
        async_handle = 0;
        callback = callback;
      }
        ∷ [];
  signalled = true;
  allocated = q.allocated + 1;
}

abbrev pub posted_for : ℕ → List ℕ → Peer → Peer
posted_for callback packet peer = record peer { sq = queued callback packet peer.sq }

abbrev pub posted : List ℕ → Peer → Peer
posted packet peer = posted_for 0 packet peer

pub post_for_lem :
    (callback : ℕ) (packet : List ℕ) (peer : Peer)
    → post_for callback packet peer ≡ ok (posted_for callback packet peer)
unfolding post_for send new_op push_back
post_for_lem callback packet peer = refl

pub post_lem : (packet : List ℕ) (peer : Peer) → post packet peer ≡ ok (posted packet peer)
unfolding post
post_lem packet peer = post_for_lem 0 packet peer

abbrev pub ack : ℕ → ℕ → List ℕ → List ℕ
ack ack_id result data_bytes =
    append_data data_bytes (append_dword result (append_dword ack_id (serialiser 8)))

pub send_ack_lem :
    (a r : ℕ) (bytes : List ℕ) (peer : Peer)
    → send_ack a r bytes peer ≡ ok (posted (ack a r bytes) peer)
unfolding send_ack
send_ack_lem a r bytes peer = post_lem (ack a r bytes) peer

-- What a handler sends to every connected peer.
abbrev pub told : ℕ → List ℕ → Peer → Peer
told callback packet p = if is_connected p then posted_for callback packet p else p

abbrev pub posted_all_for : ℕ → List ℕ → List (ℕ × Peer) → List (ℕ × Peer)
posted_all_for callback packet [] = []
posted_all_for callback packet (p ∷ peers) =
    (p.0, told callback packet p.1) ∷ posted_all_for callback packet peers

abbrev pub posted_all : List ℕ → List (ℕ × Peer) → List (ℕ × Peer)
posted_all packet peers = posted_all_for 0 packet peers

pub post_all_for_lem :
    (callback : ℕ) (packet : List ℕ) (peers : List (ℕ × Peer))
    → post_all_for callback packet peers ≡ ok (posted_all_for callback packet peers)
unfolding post_all_for
post_all_for_lem callback packet [] = refl
post_all_for_lem callback packet (p ∷ peers) = elim (Bool-cases (is_connected p.1)) [
  | inl e ↦
      rw (post_all_for, e, post_for_lem callback packet p.1, post_all_for_lem callback packet peers)
        refl
  | inr e ↦ rw (post_all_for, e, post_all_for_lem callback packet peers) refl
]

pub post_all_lem :
    (packet : List ℕ) (peers : List (ℕ × Peer))
    → post_all packet peers ≡ ok (posted_all packet peers)
unfolding post_all
post_all_lem packet peers = post_all_for_lem 0 packet peers

pub find-posted_all_for :
    (j callback : ℕ) (packet : List ℕ) (peers : List (ℕ × Peer)) (p : Peer)
    → find j peers ≡ some p
    → find j (posted_all_for callback packet peers) ≡ some (told callback packet p)
unfolding find
find-posted_all_for j callback packet [] p h = absurd (ground (arith, h))
find-posted_all_for j callback packet (x ∷ peers) p h = elim (Bool-cases (j == x.0)) [
  | inl q ↦ let same : x.1 ≡ p = ground (arith, rw (find, q) at h) in rw (find, q, same) refl
  | inr q ↦
      let ih = find-posted_all_for j callback packet peers p (rw (find, q) at h) in rw (find, q) ih
]

pub on_peer-send_ack :
    (peer_id a r : ℕ) (bytes : List ℕ) (peer : Peer) (s : Session)
    → find peer_id s.peers ≡ some peer
    → on_peer peer_id (send_ack a r bytes) s
      ≡ ok (record s { peers = update peer_id (λ _. posted (ack a r bytes) peer) s.peers })
unfolding on_peer
on_peer-send_ack peer_id a r bytes peer s e = rw (on_peer, e, send_ack_lem a r bytes peer) refl

-- An outcome: `P` of the session, or a fault for the reason `F`; an exception only where `E` allows it.
abbrev pub Ends : (Session → Type 0) → Type 0 → Type 0 → Result Session → Type 0
Ends P F E (ok s) = P s
Ends P F E (err e) = E
Ends P F E fault = F
Ends P F E stuck = ⊥

module _ (P : Session → Type 0) (F : Type 0) where
  pub caught-Ends :
      (s : Session) (r : Result Session) → P s → Ends P F (Unit {0}) r → Ends P F ⊥ (caught s r)
  caught-Ends s (ok s') p h = h
  caught-Ends s (err e) p h = p
  caught-Ends s fault p h = h
  caught-Ends s stuck p h = h

  pub read-Ends :
      {A : Type 0} (pd : Deserialiser) (i : ℕ) (r : Result A) (f : A → Result Session)
      → Answers pd i r
      → ((a : A) → r ≡ ok a → Ends P F (Unit {0}) (f a))
      → Ends P F (Unit {0}) (r >>= f)
  read-Ends pd i (ok a) f h k = k a refl
  read-Ends pd i (err e) f h k = tt
  read-Ends pd i fault f h k = absurd h
  read-Ends pd i stuck f h k = h
