-- ===== src/Peer/Datagrams.antt =====
-- DirectPlay8Peer::io_udp_send() of src/DirectPlay8Peer.cpp. `sent` are the messages handed to sendto() so far, each with the result that
-- its callback is called with. `callback` is what invoke_callback() does to the queue: none where it closes the socket.
mod Tests
use directplay_lite.Common.{
  ℕ, zero, suc, ◌+◌, ◌≡◌, ◌⊎◌, inl, inr, refl, sym, ap, subst, ◌∙◌, true, List, [], ◌∷◌, ◌++◌,
  Option, none, some, map, arith,
}
use mathlib.Core.List.{append_assoc}
use directplay_lite.SendQueue.{SendOp, SendQueue, get_pending, pop_pending}
use directplay_lite.SendQueue.Order.{waiting, order, Pending, get_pending-Pending, pop_pending_self}
use directplay_lite.Peer.Sending.Bytes.{order-current}

-- What sendto() comes to.
pub data Datagram : Type 0 where
  blocked failed delivered : Datagram

-- The loop returns, or an assertion fails.
pub data Outgoing : Type 0 where
  returned : List (SendOp × ℕ) → SendQueue → Outgoing
  closed : List (SendOp × ℕ) → Outgoing
  fault : Outgoing

abbrev pub err_generic : ℕ
err_generic = 0x80004005

module _ (callback : SendOp → ℕ → SendQueue → Option SendQueue) where
  abbrev pub go_on :
      (List (SendOp × ℕ) → SendQueue → Outgoing) → List (SendOp × ℕ) → Option SendQueue → Outgoing
  go_on next sent none = closed sent
  go_on next sent (some q) = next sent q

  -- pop_pending(), SetEvent() and the callback.
  abbrev pub complete_send :
      (List (SendOp × ℕ) → SendQueue → Outgoing)
      → List (SendOp × ℕ)
      → SendOp
      → ℕ
      → Option SendQueue
      → Outgoing
  complete_send next sent op result none = fault
  complete_send next sent op result (some q) =
      go_on next (sent ++ (op, result) ∷ []) (callback op result (record q { signalled = true }))

  abbrev pub deliver :
      (List (SendOp × ℕ) → SendQueue → Outgoing)
      → Datagram
      → List (SendOp × ℕ)
      → Option SendOp × SendQueue
      → Outgoing
  deliver next x sent (none, q) = returned sent q
  deliver next blocked sent (some op, q) = returned sent q
  deliver next failed sent (some op, q) = complete_send next sent op err_generic (pop_pending op q)
  deliver next delivered sent (some op, q) = complete_send next sent op 0 (pop_pending op q)

  -- io_udp_send() where the calls of sendto() come to `results` in turn, and would block afterwards.
  unfoldable pub io_udp_send : List Datagram → List (SendOp × ℕ) → SendQueue → Outgoing
  io_udp_send [] sent q = deliver returned blocked sent (get_pending q)
  io_udp_send (x ∷ results) sent q = deliver (io_udp_send results) x sent (get_pending q)

abbrev pub ops_of : List (SendOp × ℕ) → List SendOp
ops_of = map λ x. x.0

-- The messages that were sent, followed by those that wait, are the given ones, or begin them.
abbrev pub Ordered : List SendOp → Outgoing → Type 0
Ordered ops (returned sent q) = ops_of sent ++ order q ≡ ops
Ordered ops (closed sent) = (rest : List SendOp) × (ops_of sent ++ rest ≡ ops)
Ordered ops fault = ⊥

map-append : (xs ys : List (SendOp × ℕ)) → ops_of (xs ++ ys) ≡ ops_of xs ++ ops_of ys
map-append [] ys = refl
map-append (x ∷ xs) ys = ap (◌∷◌ x.0) (map-append xs ys)

module _ (callback : SendOp → ℕ → SendQueue → Option SendQueue)
    (quiet : (op : SendOp) (result : ℕ) (q : SendQueue)
      → (callback op result q ≡ none) ⊎ (callback op result q ≡ some q)) where
  module _ (next : List (SendOp × ℕ) → SendQueue → Outgoing)
      (go : (sent : List (SendOp × ℕ)) (q : SendQueue)
        → Ordered (ops_of sent ++ order q) (next sent q)) where
    complete_send-Ordered :
        (sent : List (SendOp × ℕ)) (op : SendOp) (result : ℕ) (q : SendQueue)
        → q.current ≡ some op
        → Ordered
            (ops_of sent ++ op ∷ waiting q)
            (complete_send callback next sent op result (pop_pending op q))
    complete_send-Ordered sent op result q cur =
        let sent' = sent ++ (op, result) ∷ [] in
        let popped = record q { current = none; signalled = true } in
        let same : ops_of sent' ++ waiting q ≡ ops_of sent ++ op ∷ waiting q =
          ap (λ ops. ops ++ waiting q) (map-append sent ((op, result) ∷ []))
          ∙ append_assoc (ops_of sent) (op ∷ []) (waiting q) in
        rw (pop_pending_self op q cur) (elim (quiet op result popped) [
          | inl e ↦ rw e (waiting q, same)
          | inr e ↦ rw e (subst (λ ops. Ordered ops (next sent' popped)) same (go sent' popped))
        ])

    deliver-Ordered :
        (x : Datagram) (sent : List (SendOp × ℕ)) (q : SendQueue) (r : Option SendOp × SendQueue)
        → Pending q r
        → Ordered (ops_of sent ++ order q) (deliver callback next x sent r)
    deliver-Ordered x sent q (none, q') (e, same) = rw same refl
    deliver-Ordered blocked sent q (some op, q') (cur, e, n) =
        ap (λ ops. ops_of sent ++ ops) (order-current q' op cur ∙ sym e)
    deliver-Ordered failed sent q (some op, q') (cur, e, n) =
        subst
          (λ ops.
            Ordered (ops_of sent ++ ops)
              (complete_send callback next sent op err_generic (pop_pending op q')))
          (sym e) (complete_send-Ordered sent op err_generic q' cur)
    deliver-Ordered delivered sent q (some op, q') (cur, e, n) =
        subst
          (λ ops.
            Ordered (ops_of sent ++ ops)
              (complete_send callback next sent op 0 (pop_pending op q')))
          (sym e) (complete_send-Ordered sent op 0 q' cur)

  -- io_udp_send() hands each message to the socket once, in the order of the queue: those that were sent, followed by those that still
  -- wait, are the messages that waited. No assertion fails. A callback leaves the queue alone or closes the socket.
  pub io_udp_send-Ordered :
      (results : List Datagram) (sent : List (SendOp × ℕ)) (q : SendQueue)
      → Ordered (ops_of sent ++ order q) (io_udp_send callback results sent q)
  unfolding io_udp_send
  io_udp_send-Ordered [] sent q =
      deliver-Ordered returned (λ s q'. refl) blocked sent q (get_pending q) (get_pending-Pending q)
  io_udp_send-Ordered (x ∷ results) sent q =
      deliver-Ordered (io_udp_send callback results) (io_udp_send-Ordered results) x sent q
        (get_pending q) (get_pending-Pending q)
