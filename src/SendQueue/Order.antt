-- ===== src/SendQueue/Order.antt =====
-- The order in which src/SendQueue.cpp hands messages to a socket.
use directplay_lite.Common.{
  ℕ, zero, suc, ◌+◌, ◌≤◌, ◌≡◌, refl, sym, subst, ap, ◌∙◌, inl, inr, Option, some, none, List, [],
  ◌∷◌, ◌++◌, arith, length, nil_of_length, Option-cases, true,
}
use mathlib.Core.List.{append_assoc, append-nil}
use directplay_lite.SendQueue.{
  SendOp, SendQueue, Priority, low, medium, high, push_back, send, take_front, get_pending,
  pop_pending,
}

-- The ops that wait, in the order of their turn, and with the current one in front.
abbrev pub waiting : SendQueue → List SendOp
waiting q = q.high_queue ++ (q.medium_queue ++ q.low_queue)

abbrev pub to_list : Option SendOp → List SendOp
to_list none = []
to_list (some op) = op ∷ []

abbrev pub order : SendQueue → List SendOp
order q = to_list q.current ++ waiting q

-- Nothing is pending, or the first op in order is made current and the order stays.
abbrev pub Pending : SendQueue → Option SendOp × SendQueue → Type 0
Pending q (none, q') = (order q ≡ []) × (q' ≡ q)
Pending q (some op, q') =
    (q'.current ≡ some op) × (order q ≡ op ∷ waiting q') × (q'.allocated ≡ q.allocated)

module _ (q : SendQueue) (idle : q.current ≡ none) where
  take_front-Pending :
      (hs ms ls : List SendOp)
      → q.high_queue ≡ hs
      → q.medium_queue ≡ ms
      → q.low_queue ≡ ls
      → Pending q (take_front q hs ms ls)
  unfolding take_front
  take_front-Pending (op ∷ hs) ms ls h m l = (refl, rw (idle, h), refl)
  take_front-Pending [] (op ∷ ms) ls h m l = (refl, rw (idle, h, m), refl)
  take_front-Pending [] [] (op ∷ ls) h m l = (refl, rw (idle, h, m, l), refl)
  take_front-Pending [] [] [] h m l = (rw (idle, h, m, l), refl)

get_pending_idle :
    (q : SendQueue)
    → q.current ≡ none
    → get_pending q ≡ take_front q q.high_queue q.medium_queue q.low_queue
unfolding get_pending
get_pending_idle q e = ground arith

get_pending_busy :
    (q : SendQueue) (op : SendOp) → q.current ≡ some op → get_pending q ≡ (some op, q)
unfolding get_pending
get_pending_busy q op e = ground arith

-- get_pending() returns the current op if there is one, else the oldest of the highest priority that has
-- any, which it makes the current one; it returns NULL exactly when the queue holds nothing. It changes
-- nothing else about the order.
pub get_pending-Pending : (q : SendQueue) → Pending q (get_pending q)
unfolding get_pending
get_pending-Pending q = elim (Option-cases q.current) [
  | inl e ↦
      subst (Pending q) (sym (get_pending_idle q e)) (take_front-Pending q e _ _ _ refl refl refl)
  | inr (op, e) ↦ subst (Pending q) (sym (get_pending_busy q op e)) (e, rw e, refl)
]

abbrev pop_served : Option SendOp × SendQueue → Option (SendOp × SendQueue)
pop_served (none, q) = none
pop_served (some op, q) = elim (pop_pending op q) [ none ↦ none | some q' ↦ some (op, q') ]

-- One turn of a socket's writer: get_pending(), and pop_pending() of what it returned.
unfoldable pub serve : SendQueue → Option (SendOp × SendQueue)
serve q = pop_served (get_pending q)

pub pop_pending_self :
    (op : SendOp) (q : SendQueue)
    → q.current ≡ some op
    → pop_pending op q ≡ some (record q { current = none })
unfolding pop_pending
pop_pending_self op q e = ground arith

pop_served-some :
    (op : SendOp) (q : SendQueue)
    → q.current ≡ some op
    → pop_served (some op, q) ≡ some (op, record q { current = none })
pop_served-some op q e = ground (arith, pop_pending_self op q e)

-- Nothing is left, or the first op in order goes and the order of the rest stays.
abbrev pub Serves : SendQueue → Option (SendOp × SendQueue) → Type 0
Serves q none = order q ≡ []
Serves q (some (op, q')) = (order q ≡ op ∷ order q') × (q'.allocated ≡ q.allocated)

pop_served-Serves :
    (q : SendQueue) (r : Option SendOp × SendQueue) → Pending q r → Serves q (pop_served r)
pop_served-Serves q (none, q') (e, _) = e
pop_served-Serves q (some op, q') (cur, e, n) =
    subst (Serves q) (sym (pop_served-some op q' cur)) (e, n)

pub serve-Serves : (q : SendQueue) → Serves q (serve q)
unfolding serve
serve-Serves q = pop_served-Serves q (get_pending q) (get_pending-Pending q)

-- A writer that takes turns until nothing is pending, for `n` turns at most.
unfoldable pub drain : ℕ → SendQueue → List SendOp × SendQueue
drain zero q = ([], q)
drain (suc n) q = elim (serve q) [
  | none ↦ ([], q)
  | some (op, q') ↦ let rest = drain n q' in (op ∷ rest.0, rest.1)
]

-- A writer that is given enough turns sends every message, the current one first, then by falling
-- priority and within a priority in the order of the calls of send(), and leaves the queue empty. No
-- assertion of pop_pending() fails on the way.
pub drain-order :
    (n : ℕ) (q : SendQueue)
    → length (order q) ≤ n
    → ((drain n q).0 ≡ order q) × (order (drain n q).1 ≡ [])
unfolding drain
drain-order zero q h = let e = nil_of_length (order q) h in (sym e, e)
drain-order (suc n) q h = elim (Option-cases (serve q)) [
  | inl e ↦ let s = subst (Serves q) e (serve-Serves q) in rw (e, drain) (sym s, s)
  | inr ((op, q'), e) ↦
      let s = subst (Serves q) e (serve-Serves q) in
      let ih = drain-order n q' (omega (arith, ap length s.0)) in
      rw (e, drain) (ap (◌∷◌ op) ih.0 ∙ sym s.0, ih.1)
]

-- Where a new message of a priority is queued.
abbrev pub ahead : Priority → SendQueue → List SendOp
ahead high q = to_list q.current ++ q.high_queue
ahead medium q = to_list q.current ++ (q.high_queue ++ q.medium_queue)
ahead low q = order q

abbrev pub behind : Priority → SendQueue → List SendOp
behind high q = q.medium_queue ++ q.low_queue
behind medium q = q.low_queue
behind low q = []

abbrev pub op_of : SendQueue → List ℕ → List ℕ → ℕ → ℕ → SendOp
op_of q packet dest_addr async_handle callback = record {
  address = q.allocated;
  bytes = packet;
  sent_data = 0;
  dest_addr = dest_addr;
  async_handle = async_handle;
  callback = callback;
}

unfoldable pub sent : Priority → SendOp → SendQueue → SendQueue
sent p op q = record (push_back p op q) { signalled = true; allocated = q.allocated + 1 }

pub send-some :
    (p : Priority) (packet dest_addr : List ℕ) (h cb : ℕ) (q : SendQueue)
    → length dest_addr ≤ 128
    → send p packet dest_addr h cb q ≡ some (sent p (op_of q packet dest_addr h cb) q)
unfolding send sent
send-some p packet dest_addr h cb q fits = ground arith

pub ahead-behind : (p : Priority) (q : SendQueue) → order q ≡ ahead p q ++ behind p q
ahead-behind high q = sym (append_assoc (to_list q.current) q.high_queue _)
ahead-behind medium q = simp append_assoc
ahead-behind low q = sym (append-nil (order q))

pub order-sent :
    (p : Priority) (op : SendOp) (q : SendQueue)
    → order (sent p op q) ≡ ahead p q ++ op ∷ behind p q
unfolding sent push_back
order-sent high op q = simp append_assoc
order-sent medium op q = simp append_assoc
order-sent low op q = simp append_assoc

-- send() with an address that fits a sockaddr_storage raises the event and puts the message behind all
-- that have its priority or a higher one and ahead of all that have a lower one; those keep their order.
pub send-order :
    (p : Priority) (packet dest_addr : List ℕ) (async_handle callback : ℕ) (q : SendQueue)
    → length dest_addr ≤ 128
    → (q' : SendQueue) × (send p packet dest_addr async_handle callback q ≡ some q')
      × (order q ≡ ahead p q ++ behind p q)
      × (order q' ≡ ahead p q ++ op_of q packet dest_addr async_handle callback ∷ behind p q)
      × (q'.signalled ≡ true)
      × (q'.allocated ≡ q.allocated + 1)
unfolding sent
send-order p packet dest_addr h cb q fits =
    let op = op_of q packet dest_addr h cb in
    (
      sent p op q,
      send-some p packet dest_addr h cb q fits,
      ahead-behind p q,
      order-sent p op q,
      refl,
      refl,
    )
