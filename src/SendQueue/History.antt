-- ===== src/SendQueue/History.antt =====
-- From the calls of send() to the order on the wire: src/SendQueue.cpp.
use mathlib.Core.List.{append_assoc, append-nil, map-append}
use directplay_lite.Common.{
  ℕ, ◌+◌, ◌≤◌, ◌≡◌, refl, sym, ap, ap₂, ◌∙◌, Option, some, none, List, [], ◌∷◌, ◌++◌, map, All,
  arith, length, length-append,
}
use directplay_lite.SendQueue.{SendOp, SendQueue, Priority, low, medium, high, send, push_back}
use directplay_lite.SendQueue.Order.{
  to_list, order, waiting, drain, drain-order, ahead, behind, op_of, sent, send-some, order-sent,
  ahead-behind,
}

-- A call of send().
pub record Post : Type 0 where
  pub priority : Priority
  pub packet : List ℕ
  pub dest_addr : List ℕ
  pub async_handle : ℕ
  pub callback : ℕ

abbrev pub send_then : (SendQueue → Option SendQueue) → Option SendQueue → Option SendQueue
send_then next none = none
send_then next (some q) = next q

-- The calls in turn.
unfoldable pub send_all : List Post → SendQueue → Option SendQueue
send_all [] q = some q
send_all (p ∷ posts) q =
    send_then (send_all posts) (send p.priority p.packet p.dest_addr p.async_handle p.callback q)

abbrev pub of_high : Priority → List ℕ → List (List ℕ) → List (List ℕ)
of_high high packet rest = packet ∷ rest
of_high medium packet rest = rest
of_high low packet rest = rest

abbrev pub of_medium : Priority → List ℕ → List (List ℕ) → List (List ℕ)
of_medium high packet rest = rest
of_medium medium packet rest = packet ∷ rest
of_medium low packet rest = rest

abbrev pub of_low : Priority → List ℕ → List (List ℕ) → List (List ℕ)
of_low high packet rest = rest
of_low medium packet rest = rest
of_low low packet rest = packet ∷ rest

-- The packets of each priority, in the order of the calls.
abbrev pub high_packets : List Post → List (List ℕ)
high_packets [] = []
high_packets (p ∷ posts) = of_high p.priority p.packet (high_packets posts)

abbrev pub medium_packets : List Post → List (List ℕ)
medium_packets [] = []
medium_packets (p ∷ posts) = of_medium p.priority p.packet (medium_packets posts)

abbrev pub low_packets : List Post → List (List ℕ)
low_packets [] = []
low_packets (p ∷ posts) = of_low p.priority p.packet (low_packets posts)

abbrev pub packets : List SendOp → List (List ℕ)
packets ops = map (λ op. op.bytes) ops

abbrev pub FitsAddress : Post → Type 0
FitsAddress p = length p.dest_addr ≤ 128

-- What the calls make of a queue.
abbrev Grows : List Post → SendQueue → SendQueue → Type 0
Grows posts q q' =
    (q'.current ≡ q.current)
    × (packets q'.high_queue ≡ packets q.high_queue ++ high_packets posts)
    × (packets q'.medium_queue ≡ packets q.medium_queue ++ medium_packets posts)
    × (packets q'.low_queue ≡ packets q.low_queue ++ low_packets posts)
    × (length (order q') ≡ length (order q) + length posts)

abbrev op_for : Post → SendQueue → SendOp
op_for p q = op_of q p.packet p.dest_addr p.async_handle p.callback

one_more :
    (xs : List SendOp) (op : SendOp) (ys rest : List (List ℕ))
    → ys ≡ packets (xs ++ op ∷ []) ++ rest
    → ys ≡ packets xs ++ op.bytes ∷ rest
one_more xs op ys rest e =
    e
    ∙ ap (λ zs. zs ++ rest) (map-append (λ (op : SendOp). op.bytes) xs (op ∷ []))
    ∙ append_assoc (packets xs) (op.bytes ∷ []) rest

length-sent :
    (p : Priority) (op : SendOp) (q : SendQueue)
    → length (order (sent p op q)) ≡ 1 + length (order q)
length-sent p op q = omega (
  arith,
  ap length (order-sent p op q),
  ap length (ahead-behind p q),
  length-append (ahead p q) (op ∷ behind p q),
  length-append (ahead p q) (behind p q),
)

abbrev post_of : Priority → List ℕ → List ℕ → ℕ → ℕ → Post
post_of priority packet dest_addr async_handle callback = record {
  priority = priority;
  packet = packet;
  dest_addr = dest_addr;
  async_handle = async_handle;
  callback = callback;
}

Grows-sent :
    (priority : Priority) (packet dest : List ℕ) (handle callback : ℕ) (posts : List Post)
    (q q' : SendQueue)
    → Grows posts (sent priority (op_of q packet dest handle callback) q) q'
    → Grows (post_of priority packet dest handle callback ∷ posts) q q'
unfolding sent push_back
Grows-sent high packet dest handle callback posts q q' (c, h, m, l, n) =
    let op = op_of q packet dest handle callback in
    (c, one_more q.high_queue op _ _ h, m, l, omega (arith, n, length-sent high op q))
Grows-sent medium packet dest handle callback posts q q' (c, h, m, l, n) =
    let op = op_of q packet dest handle callback in
    (c, h, one_more q.medium_queue op _ _ m, l, omega (arith, n, length-sent medium op q))
Grows-sent low packet dest handle callback posts q q' (c, h, m, l, n) =
    let op = op_of q packet dest handle callback in
    (c, h, m, one_more q.low_queue op _ _ l, omega (arith, n, length-sent low op q))

send_all-Grows :
    (posts : List Post) (q : SendQueue)
    → All FitsAddress posts
    → (q' : SendQueue) × (send_all posts q ≡ some q') × Grows posts q q'
unfolding send_all
send_all-Grows [] q h = (
  q,
  refl,
  (
    refl,
    sym (append-nil (packets q.high_queue)),
    sym (append-nil (packets q.medium_queue)),
    sym (append-nil (packets q.low_queue)),
    omega arith,
  ),
)
send_all-Grows (p ∷ posts) q h =
    let (q', run, grows) = send_all-Grows posts (sent p.priority (op_for p q) q) h.1 in
    (
      q',
      rw (send_all, send-some p.priority p.packet p.dest_addr p.async_handle p.callback q h.0, run)
          refl,
      Grows-sent p.priority p.packet p.dest_addr p.async_handle p.callback posts q q' grows,
    )

-- Messages leave in the order of their priorities and, within a priority, in the order of the calls of send(): after any number of calls on
-- a queue, a writer that is given enough turns sends what was current, what was queued as high and the new high
-- messages in the order of their calls, then the same for medium and for low, and leaves the queue empty. No assertion fails, in send() or in pop_pending(). Each
-- address fits a sockaddr_storage, and the turns are as many as the messages.
pub drain-send_all :
    (n : ℕ) (posts : List Post) (q : SendQueue)
    → All FitsAddress posts
    → length (order q) + length posts ≤ n
    → (q' : SendQueue) × (send_all posts q ≡ some q')
      × (packets (drain n q').0
          ≡ packets (to_list q.current)
            ++ ((packets q.high_queue ++ high_packets posts)
                ++ ((packets q.medium_queue ++ medium_packets posts)
                    ++ (packets q.low_queue ++ low_packets posts))))
      × (order (drain n q').1 ≡ [])
drain-send_all n posts q h k =
    let (q', run, (c, hs, ms, ls, size)) = send_all-Grows posts q h in
    let (all, none_left) = drain-order n q' (omega (arith, size, k)) in
    (
      q',
      run,
      ap packets all
          ∙ map-append (λ (op : SendOp). op.bytes) (to_list q'.current) (waiting q')
          ∙ ap₂ ◌++◌ (ap (λ x. packets (to_list x)) c) (
              map-append (λ (op : SendOp). op.bytes) q'.high_queue (q'.medium_queue ++ q'.low_queue)
              ∙ ap₂ ◌++◌ hs (
                  map-append (λ (op : SendOp). op.bytes) q'.medium_queue q'.low_queue
                  ∙ ap₂ ◌++◌ ms ls)),
      none_left,
    )
