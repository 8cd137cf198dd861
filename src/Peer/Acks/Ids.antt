-- ===== src/Peer/Acks/Ids.antt =====
-- The numbers that alloc_ack_id() of src/DirectPlay8Peer.cpp gives out.
use directplay_lite.Common.{ℕ, zero, suc, ◌+◌, ◌-◌, ◌%◌, ◌^◌, ◌≤◌, ◌<◌, ◌≡◌, ◌≢◌, ap, ◌∙◌, arith}
use directplay_lite.Peer.Session.{Peer}
use directplay_lite.Peer.Acks.{next_id, alloc_ack_id}

-- The peer after `n` calls.
abbrev pub after_calls : ℕ → Peer → Peer
after_calls zero peer = peer
after_calls (suc n) peer = (alloc_ack_id (after_calls n peer)).1

-- The result of the call after `n` others.
abbrev pub nth_ack_id : ℕ → Peer → ℕ
nth_ack_id n peer = (alloc_ack_id (after_calls n peer)).0

next_id_lem : (k : ℕ) → next_id (1 + k % (2 ^ 32 - 1)) ≡ 1 + (k + 1) % (2 ^ 32 - 1)
next_id_lem k = ground arith

nth_ack_id_lem :
    (n : ℕ) (peer : Peer)
    → 1 ≤ peer.next_ack_id
    → peer.next_ack_id < 2 ^ 32
    → nth_ack_id n peer ≡ 1 + (peer.next_ack_id - 1 + n) % (2 ^ 32 - 1)
unfolding alloc_ack_id
nth_ack_id_lem zero peer h k = omega (arith, h, k)
nth_ack_id_lem (suc n) peer h k =
    let before = nth_ack_id_lem n peer h k in
    let step = next_id_lem (peer.next_ack_id - 1 + n) in
    let shift : peer.next_ack_id - 1 + n + 1 ≡ peer.next_ack_id - 1 + suc n = omega arith in
    ap next_id before ∙ step ∙ ap (λ x. 1 + x % (2 ^ 32 - 1)) shift

spread :
    (a i j : ℕ) → i < j → j < i + (2 ^ 32 - 1) → (a + i) % (2 ^ 32 - 1) ≢ (a + j) % (2 ^ 32 - 1)
spread a i j h k e = omega (arith, h, k, e)

-- The numbers that a peer's calls of alloc_ack_id() give out are never 0, and any two among 2 ^ 32 - 1 calls in a row
-- are different: register_ack() may then assert that its number is free. The peer's counter is a word other than 0, which is
-- how it starts.
pub alloc_ack_id-Distinct :
    (peer : Peer) (i j : ℕ)
    → 1 ≤ peer.next_ack_id
    → peer.next_ack_id < 2 ^ 32
    → i < j
    → j < i + (2 ^ 32 - 1)
    → (1 ≤ nth_ack_id i peer)
      × (nth_ack_id i peer < 2 ^ 32)
      × (nth_ack_id i peer ≢ nth_ack_id j peer)
alloc_ack_id-Distinct peer i j h k less near =
    let first = nth_ack_id_lem i peer h k in
    let second = nth_ack_id_lem j peer h k in
    let apart = spread (peer.next_ack_id - 1) i j less near in
    (omega (arith, first), omega (arith, first), (λ e. apart (omega (arith, first, second, e))))
