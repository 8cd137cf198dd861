-- ===== src/HostEnum/Timing.antt =====
-- When the loop of src/HostEnumerator.cpp transmits, how often, and how long it waits.
use directplay_lite.Common.{
  ℕ, suc, ◌+◌, ◌-◌, ◌^◌, ◌≤◌, ◌<◌, ◌≡◌, ◌⊎◌, inl, inr, refl, subst, ap, ◌∙◌, true, false, ◌&&◌,
  List, [], ◌∷◌, Option, some, none, ◌==◌, ltb, leb, arith, Bool-cases, length, All,
}
use directplay_lite.HostEnum.Setup.{Enumerator}
use directplay_lite.HostEnum.Loop.{
  Next, finish, wait_for, complete, user_cancel, request, transmit, wait_time, ending, due, keep,
  after, round, main,
}

-- The readings of the requests: the first is `t` at least, and each of the others `d` more than the one before it at least.
abbrev pub Spaced : ℕ → ℕ → List (ℕ × List ℕ) → Type 0
Spaced d t [] = Unit
Spaced d t ((now, packet) ∷ sent) = (t ≤ now) × Spaced d (now + d) sent

main-after :
    (now : ℕ) (readings : List ℕ) (e : Enumerator) (r : Option (List ℕ) × Next × Enumerator)
    → round now e ≡ r
    → main (now ∷ readings) e ≡ after now r (main readings r.2)
unfolding main
main-after now readings e r h =
    subst (λ x. main (now ∷ readings) e ≡ after now x (main readings x.2)) h refl

-- Both ends of a round whose packet and state are known.
main-round :
    (now : ℕ) (readings : List ℕ) (e e' : Enumerator) (packet : Option (List ℕ))
    → round now e ≡ (packet, ending now e', e')
    → ((ending now e' ≡ finish)
        × (e'.tx_remain ≡ 0)
        × (main (now ∷ readings) e ≡ (keep packet now [], complete, e')))
      ⊎ (main (now ∷ readings) e
          ≡ (keep packet now (main readings e').0, (main readings e').1, (main readings e').2))
unfolding main
main-round now readings e e' packet h =
    elim (Bool-cases (e'.tx_remain == 0 && (ltb 0 e'.stop_at && leb e'.stop_at now))) [
      | inl p ↦
          let done : ending now e' ≡ finish = rw (ending, p) in
          inl (
            done,
            ground (arith, p),
            main-after now readings e (packet, finish, e') (h ∙ ap (λ n. (packet, n, e')) done),
          )
      | inr p ↦
          let goes_on : ending now e' ≡ wait_for (wait_time now e') = rw (ending, p) in
          inr (
            main-after now readings e (packet, wait_for (wait_time now e'), e')
              (h ∙ ap (λ n. (packet, n, e')) goes_on))
    ]

round-due :
    (now : ℕ) (e : Enumerator)
    → due now e ≡ true
    → round now e ≡ (some (request now e), ending now (transmit now e).1, (transmit now e).1)
unfolding round transmit
round-due now e h = rw (round, h)

round-idle : (now : ℕ) (e : Enumerator) → due now e ≡ false → round now e ≡ (none, ending now e, e)
unfolding round
round-idle now e h = rw (round, h)

transmit-count :
    (now : ℕ) (e : Enumerator) → due now e ≡ true → suc (transmit now e).1.tx_remain ≡ e.tx_remain
unfolding transmit
transmit-count now e h = ground (arith, h)

transmit-next :
    (now : ℕ) (e : Enumerator)
    → now + e.tx_interval < 2 ^ 32
    → (transmit now e).1.next_tx_at ≡ now + e.tx_interval
unfolding transmit
transmit-next now e h = omega (arith, h)

-- The requests that main() sends, and those that are left, make up the count that it starts with; main() completes
-- only when none is left. This holds for any readings.
pub main-count :
    (readings : List ℕ) (e : Enumerator)
    → (length (main readings e).0 + (main readings e).2.tx_remain ≡ e.tx_remain)
      × (((main readings e).1 ≡ user_cancel) ⊎ ((main readings e).2.tx_remain ≡ 0))
unfolding main
main-count [] e = (omega arith, inl refl)
main-count (now ∷ readings) e = elim (Bool-cases (due now e)) [
  | inl p ↦
      let sent = (transmit now e).1 in
      let left : suc sent.tx_remain ≡ e.tx_remain = transmit-count now e p in
      elim (main-round now readings e sent (some (request now e)) (round-due now e p)) [
        | inl (f, z, q) ↦ rw q (omega (arith, left), inr z)
        | inr q ↦
            let (count, last) = main-count readings sent in rw q (omega (arith, left, count), last)
      ]
  | inr p ↦ elim (main-round now readings e e none (round-idle now e p)) [
    | inl (f, z, q) ↦ rw q (omega arith, inr z)
    | inr q ↦ rw q (main-count readings e)
  ]
]

-- The requests are tx_interval apart, and the first is not before next_tx_at, where no reading is so
-- late that the sum with the interval wraps.
pub main-Spaced :
    (readings : List ℕ) (e : Enumerator)
    → All (λ now. now + e.tx_interval < 2 ^ 32) readings
    → Spaced e.tx_interval e.next_tx_at (main readings e).0
unfolding main
main-Spaced [] e h = tt
main-Spaced (now ∷ readings) e h = elim (Bool-cases (due now e)) [
  | inl p ↦
      let sent = (transmit now e).1 in
      let on_time : e.next_tx_at ≤ now = ground (arith, p) in
      let next : sent.next_tx_at ≡ now + e.tx_interval = transmit-next now e h.0 in
      let later =
        subst (λ t. Spaced e.tx_interval t (main readings sent).0) next
          (main-Spaced readings sent h.1) in
      elim (main-round now readings e sent (some (request now e)) (round-due now e p)) [
        | inl (f, z, q) ↦ rw q (on_time, tt)
        | inr q ↦ rw q (on_time, later)
      ]
  | inr p ↦ elim (main-round now readings e e none (round-idle now e p)) [
    | inl (f, z, q) ↦ rw q tt
    | inr q ↦ rw q (main-Spaced readings e h.1)
  ]
]

-- How a round may end, with the state that it leaves: after the deadline of the last request, or with a wait that
-- passes neither the time of the next request nor the deadline.
abbrev pub Timely : ℕ → Enumerator → Next → Type 0
Timely now e finish = (e.tx_remain ≡ 0) × (1 ≤ e.stop_at) × (e.stop_at ≤ now)
Timely now e (wait_for t) =
    ((e.tx_remain ≡ 0) ⊎ (now + t ≤ e.next_tx_at))
    × ((e.stop_at ≤ now) ⊎ (now + t ≤ e.stop_at))
    × ((1 ≤ t) ⊎ (e.stop_at ≡ now))

ending-Timely :
    (now : ℕ) (e : Enumerator)
    → now < 2 ^ 32 - 1
    → e.stop_at < 2 ^ 32
    → e.next_tx_at < 2 ^ 32
    → (e.tx_remain ≡ 0) ⊎ (now < e.next_tx_at)
    → Timely now e (ending now e)
unfolding ending wait_time
ending-Timely now e h s n k = ground arith

-- A round leaves the loop only behind the last deadline, with no request left, and else waits no longer than to
-- the next request and to the deadline; it waits for no time at all only if it stands at the deadline. The clock does
-- not wrap within the interval and the timeout, which is not INFINITE, and the interval is not 0.
pub round-Timely :
    (now : ℕ) (e : Enumerator)
    → now + e.tx_interval < 2 ^ 32
    → now + e.rx_timeout < 2 ^ 32 - 1
    → 1 ≤ e.tx_interval
    → e.stop_at < 2 ^ 32
    → e.next_tx_at < 2 ^ 32
    → Timely now (round now e).2 (round now e).1
unfolding transmit
round-Timely now e h k i s n = elim (Bool-cases (due now e)) [
  | inl p ↦
      let wraps : (transmit now e).1.stop_at < 2 ^ 32 = ground (arith, s) in
      rw (round-due now e p) (
        ending-Timely now (transmit now e).1 (omega (arith, k)) wraps (omega arith)
          (inr (omega (arith, h, i))))
  | inr p ↦ rw (round-idle now e p) (ending-Timely now e (omega (arith, k)) s n (ground (arith, p)))
]
