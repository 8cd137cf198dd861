-- ===== src/Peer/Actions/Completion.antt =====
-- The count of callbacks that an operation waits for: the lambda `complete` of the methods of src/DirectPlay8Peer.cpp.
use directplay_lite.Common.{
  ℕ, zero, suc, ◌+◌, ◌-◌, ◌≤◌, ◌<◌, ◌≡◌, refl, ap, ◌∙◌, true, false, inl, inr, ◌==◌, leb, Bool,
  if◌then◌else◌, Bool-cases, List, [], ◌∷◌, ◌++◌, arith,
}
use directplay_lite.SendQueue.{SendOp}
use directplay_lite.Packet.Deserialiser.{ok}
use directplay_lite.Handles.{Allocator, Kind}
use directplay_lite.Peer.Session.{Peer, Session, is_connected}
use directplay_lite.Peer.Groups.Steps.{told, posted_all_for}
use directplay_lite.Peer.Queries.{count_connected}
use directplay_lite.Peer.Actions.{Started, start, Operation, complete}
use directplay_lite.Peer.Actions.Begun.{begun, start_lem}

abbrev pub complete_all : ℕ → Operation → Operation
complete_all zero op = op
complete_all (suc k) op = complete (complete_all k op)

-- The sends of an operation that wait for their callback, which has the given number.
unfoldable pub awaited : ℕ → List SendOp → ℕ
awaited callback [] = 0
awaited callback (op ∷ ops) =
    let rest = awaited callback ops in if op.callback == callback then suc rest else rest

unfoldable pub awaited_all : ℕ → List (ℕ × Peer) → ℕ
unfolding awaited
awaited_all callback [] = 0
awaited_all callback (p ∷ peers) = awaited callback p.1.sq.high_queue + awaited_all callback peers

awaited-append :
    (callback : ℕ) (xs ys : List SendOp)
    → awaited callback (xs ++ ys) ≡ awaited callback xs + awaited callback ys
unfolding awaited
awaited-append callback [] ys = omega arith
awaited-append callback (op ∷ xs) ys = let ih = awaited-append callback xs ys in ground (arith, ih)

awaited_all-posted_all_for :
    (callback : ℕ) (packet : List ℕ) (peers : List (ℕ × Peer))
    → awaited_all callback (posted_all_for callback packet peers)
      ≡ awaited_all callback peers + count_connected peers
unfolding awaited_all awaited count_connected
awaited_all-posted_all_for callback packet [] = refl
awaited_all-posted_all_for callback packet (p ∷ peers) =
    let ih = awaited_all-posted_all_for callback packet peers in
    elim (Bool-cases (is_connected p.1)) [
      | inl e ↦
          let more = awaited-append callback p.1.sq.high_queue (
            record {
              address = p.1.sq.allocated;
              bytes = packet;
              sent_data = 0;
              dest_addr = [];
              async_handle = 0;
              callback = callback;
            }
            ∷ []) in
          let one : (callback == callback) ≡ true = ground arith in
          rw (told, e, more) (ground (arith, ih, one))
      | inr e ↦ rw (told, e) (omega (arith, ih))
    ]

complete-waiting :
    (n told : ℕ)
    → 2 ≤ n
    → complete (record { pending = n; told = told }) ≡ record { pending = n - 1; told = told }
unfolding complete
complete-waiting n told h = let more : (n == 1) ≡ false = ground (arith, h) in rw more refl

complete_all-waiting :
    (k n : ℕ)
    → k < n
    → complete_all k (record { pending = n; told = 0 }) ≡ record { pending = n - k; told = 0 }
complete_all-waiting zero n h =
    let all : n ≡ n - 0 = omega arith in ap (λ p. record { pending = p; told = 0 }) all
complete_all-waiting (suc k) n h =
    let rest : n - k - 1 ≡ n - suc k = omega arith in
    ap complete (complete_all-waiting k n (omega (arith, h)))
    ∙ complete-waiting (n - k) 0 (omega (arith, h))
    ∙ ap (λ p. record { pending = p; told = 0 }) rest

-- The application hears of it with the last call.
complete_all-told :
    (k n : ℕ)
    → k ≤ suc n
    → complete_all k (record { pending = suc n; told = 0 })
      ≡ record { pending = suc n - k; told = if leb k n then 0 else 1 }
unfolding complete
complete_all-told k n h = elim (Bool-cases (leb k n)) [
  | inl p ↦
      let early : k < suc n = ground (arith, p) in
      complete_all-waiting k (suc n) early
      ∙ ap (λ t. record { pending = suc n - k; told = t }) (rw p refl)
  | inr p ↦
      let last : k ≡ suc n = ground (arith, p, h) in
      let one : suc n - n ≡ 1 = omega arith in
      let none_left : 0 ≡ suc n - suc n = omega arith in
      rw (p, last)
        (ap complete (
            complete_all-waiting n (suc n) (omega arith)
            ∙ ap (λ p. record { pending = p; told = 0 }) one)
          ∙ ap (λ p. record { pending = p; told = 1 }) none_left)
]

-- An operation that a method starts with a message to the connected peers is reported when all callbacks of the sends that it queued,
-- and its thread, have called `complete`: after any number of calls up to that one the application was told
-- nothing, and with that one it is told once, where *pending comes to 0. The method starts in any case, and the sends that wait for
-- its callback are one for each connected peer. No message that was queued before has the operation's
-- callback, and there are at most as many calls as there are sends to connected peers, and one.
pub complete_all-start :
    (sync : Bool) (kind : Kind) (callback k : ℕ) (packet : List ℕ) (h : Allocator) (s : Session)
    → awaited_all callback s.peers ≡ 0
    → k ≤ 1 + count_connected s.peers
    → (started : Started) × (start sync kind callback packet h s ≡ ok started)
      × (awaited_all callback started.session.peers ≡ count_connected s.peers)
      × (complete_all k (record { pending = started.pending; told = 0 }) ≡ record {
        pending = 1 + awaited_all callback started.session.peers - k;
        told = if leb k (awaited_all callback started.session.peers) then 0 else 1;
      })
complete_all-start sync kind callback k packet h s none_before few =
    let n = count_connected s.peers in
    let queued = awaited_all-posted_all_for callback packet s.peers in
    let count : awaited_all callback (posted_all_for callback packet s.peers) ≡ n =
      omega (arith, queued, none_before) in
    let all : 1 + n ≡ suc n = omega arith in
    (
      begun sync kind callback packet h s,
      start_lem sync kind callback packet h s,
      count,
      rw (count, all) (complete_all-told k n (omega (arith, few))),
    )
