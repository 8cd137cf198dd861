-- ===== src/SendQueue/Transmit.antt =====
-- Partial sends of one message: inc_sent_data() and get_pending_data() of src/SendQueue.cpp, used as the
-- TCP writer io_peer_send() of src/DirectPlay8Peer.cpp uses them.
use directplay_lite.Common.{
  ℕ, zero, suc, ◌+◌, ◌≤◌, ◌≡◌, refl, sym, ap, ◌∙◌, Option, some, none, List, [], ◌∷◌, ◌++◌, arith,
  length, take, drop, take-split,
}
use directplay_lite.SendQueue.{SendOp, inc_sent_data, get_pending_data}

-- What goes out when the socket accepts `n`, `m`, ... bytes of what it is offered, in turn, and the op
-- afterwards; `none` is a failed assertion.
pub transmit : List ℕ → SendOp → Option (List ℕ × SendOp)
transmit [] op = some ([], op)
transmit (n ∷ ns) op = elim (inc_sent_data n op) [
  | none ↦ none
  | some op' ↦ elim (transmit ns op') [
    | none ↦ none
    | some (bytes, last) ↦ some (take n (get_pending_data op) ++ bytes, last)
  ]
]

abbrev pub total : List ℕ → ℕ
total [] = 0
total (n ∷ ns) = n + total ns

abbrev pub advance : ℕ → SendOp → SendOp
advance n op = record op { sent_data = op.sent_data + n }

pub inc_sent_data_lem :
    (n : ℕ) (op : SendOp)
    → op.sent_data + n ≤ length op.bytes
    → inc_sent_data n op ≡ some (advance n op)
unfolding inc_sent_data
inc_sent_data_lem n op h = ground arith

drop-drop {ℓ} : {A : Type ℓ} (a b c : ℕ) (xs : List A) → c ≡ a + b → drop b (drop a xs) ≡ drop c xs
drop-drop zero b c xs e = let same : c ≡ b = omega arith in rw same
drop-drop (suc a) b zero xs e = absurd (omega arith)
drop-drop (suc a) zero (suc c) [] e = refl
drop-drop (suc a) (suc b) (suc c) [] e = refl
drop-drop (suc a) b (suc c) (x ∷ xs) e = drop-drop a b c xs (omega arith)

pub pending-advance :
    (n : ℕ) (op : SendOp) → get_pending_data (advance n op) ≡ drop n (get_pending_data op)
unfolding get_pending_data
pending-advance n op = sym (drop-drop op.sent_data n (op.sent_data + n) op.bytes refl)

-- However the socket cuts a message up, as long as it never claims more than it was offered, no assertion
-- fails, the bytes go out in order with none repeated or skipped, and what is pending afterwards is what
-- has not gone out.
pub transmit_lem :
    (ns : List ℕ) (op : SendOp)
    → op.sent_data + total ns ≤ length op.bytes
    → (last : SendOp) × (transmit ns op ≡ some (take (total ns) (get_pending_data op), last))
      × (get_pending_data last ≡ drop (total ns) (get_pending_data op))
      × (last.sent_data ≡ op.sent_data + total ns)
unfolding transmit
transmit_lem [] op h = (op, refl, refl, omega arith)
transmit_lem (n ∷ ns) op h =
    let (last, e, p, s) = transmit_lem ns (advance n op) (omega arith) in
    let front = get_pending_data op in
    (
      last,
      rw (inc_sent_data_lem n op (omega arith), transmit, e, pending-advance n op)
          (ap (λ bytes. some (bytes, last))
            (sym (take-split (n + total ns) n (total ns) front refl))),
      p ∙ rw (pending-advance n op) (drop-drop n (total ns) (n + total ns) front refl),
      omega arith,
    )
