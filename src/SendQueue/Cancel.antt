-- ===== src/SendQueue/Cancel.antt =====
-- The remove_queued() family of src/SendQueue.cpp, which cancels messages of the application.
use directplay_lite.Common.{
  ℕ, ◌≡◌, ◌≢◌, refl, ap, inl, inr, Option, some, none, List, [], ◌∷◌, ◌++◌, arith, Bool, true,
  false, All, Bool-cases,
}
use directplay_lite.SendQueue.{
  SendOp, SendQueue, Priority, low, medium, high, erase_first, is_async, has_handle, remove_queued,
  remove_queued_by_handle, remove_queued_by_priority,
}

-- `found` is the first element that passes the test, and `rest` is the list without it; or none passes
-- and the list is as it was.
pub data Erased (test : SendOp → Bool) (xs : List SendOp)
    : Option SendOp × List SendOp → Type 0 where
  hit :
      (before : List SendOp) (op : SendOp) (after : List SendOp)
      → xs ≡ before ++ op ∷ after
      → All (λ x. test x ≡ false) before
      → test op ≡ true
      → Erased test xs (some op, before ++ after)
  miss : All (λ x. test x ≡ false) xs → Erased test xs (none, xs)

Erased-cons :
    (test : SendOp → Bool) (x : SendOp) (xs : List SendOp) (r : Option SendOp × List SendOp)
    → test x ≡ false
    → Erased test xs r
    → Erased test (x ∷ xs) (r.0, x ∷ r.1)
Erased-cons test x xs r e (hit before op after f b t) =
    hit (x ∷ before) op after (ap (◌∷◌ x) f) (e, b) t
Erased-cons test x xs r e (miss b) = miss (e, b)

erase_first-Erased :
    (test : SendOp → Bool) (xs : List SendOp) → Erased test xs (erase_first test xs)
unfolding erase_first
erase_first-Erased test [] = miss tt
erase_first-Erased test (x ∷ xs) = elim (Bool-cases (test x)) [
  | inl e ↦ rw e (hit [] x xs refl tt e)
  | inr e ↦ rw e (Erased-cons test x xs (erase_first test xs) e (erase_first-Erased test xs))
]

erase_first-none :
    (test : SendOp → Bool) (xs : List SendOp)
    → (erase_first test xs).0 ≡ none
    → (erase_first test xs).1 ≡ xs
unfolding erase_first
erase_first-none test [] e = refl
erase_first-none test (x ∷ xs) e = ground (arith, erase_first-none test xs)

abbrev rest_of : Option SendOp → List SendOp → List SendOp → List SendOp
rest_of (some op) a b = a
rest_of none a b = b

abbrev or_else : Option SendOp → Option SendOp → Option SendOp
or_else (some op) b = some op
or_else none b = b

-- The scan of two lists one after the other.
module _ (test : SendOp → Bool) where
  found-append :
      (xs ys : List SendOp)
      → (erase_first test (xs ++ ys)).0 ≡ or_else (erase_first test xs).0 (erase_first test ys).0
  unfolding erase_first
  found-append [] ys = refl
  found-append (x ∷ xs) ys = ground (arith, found-append xs ys)

  rest-append :
      (xs ys : List SendOp)
      → (erase_first test (xs ++ ys)).1
        ≡ rest_of
            (erase_first test xs).0
            ((erase_first test xs).1 ++ ys)
            (xs ++ (erase_first test ys).1)
  unfolding erase_first
  rest-append [] ys = refl
  rest-append (x ∷ xs) ys = ground (arith, rest-append xs ys)

Erased-of :
    (test : SendOp → Bool) (xs : List SendOp) (found : Option SendOp) (rest : List SendOp)
    → found ≡ (erase_first test xs).0
    → rest ≡ (erase_first test xs).1
    → Erased test xs (found, rest)
Erased-of test xs found rest e f = rw (e, f) (erase_first-Erased test xs)

-- The calls scan the three queues as if they were one list, from the high one down ...
abbrev pub high_first : SendQueue → List SendOp
high_first q = q.high_queue ++ (q.medium_queue ++ q.low_queue)

-- ... or from the low one up.
abbrev pub low_first : SendQueue → List SendOp
low_first q = q.low_queue ++ (q.medium_queue ++ q.high_queue)

abbrev pub queue_of : Priority → SendQueue → List SendOp
queue_of low q = q.low_queue
queue_of medium q = q.medium_queue
queue_of high q = q.high_queue

-- What a cancellation leaves alone.
abbrev pub Keeps : SendQueue → SendQueue → Type 0
Keeps q q' = (q'.current ≡ q.current) × (q'.allocated ≡ q.allocated)

module _ (q : SendQueue) where
  open q use {low_queue, medium_queue, high_queue}

  found-high_first : (remove_queued q).0 ≡ (erase_first is_async (high_first q)).0
  unfolding remove_queued
  found-high_first = ground (
    arith,
    found-append is_async high_queue (medium_queue ++ low_queue),
    found-append is_async medium_queue low_queue,
  )

  rest-high_first : high_first (remove_queued q).1 ≡ (erase_first is_async (high_first q)).1
  unfolding remove_queued
  rest-high_first = ground (
    arith,
    rest-append is_async high_queue (medium_queue ++ low_queue),
    rest-append is_async medium_queue low_queue,
    found-append is_async medium_queue low_queue,
    erase_first-none is_async high_queue,
    erase_first-none is_async medium_queue,
    erase_first-none is_async low_queue,
  )

  remove_queued-Keeps : Keeps q (remove_queued q).1
  unfolding remove_queued
  remove_queued-Keeps = ground arith

module _ (h : ℕ) (q : SendQueue) where
  open q use {low_queue, medium_queue, high_queue}

  found-low_first : (remove_queued_by_handle h q).0 ≡ (erase_first (has_handle h) (low_first q)).0
  unfolding remove_queued_by_handle
  found-low_first = ground (
    arith,
    found-append (has_handle h) low_queue (medium_queue ++ high_queue),
    found-append (has_handle h) medium_queue high_queue,
  )

  rest-low_first :
      low_first (remove_queued_by_handle h q).1 ≡ (erase_first (has_handle h) (low_first q)).1
  unfolding remove_queued_by_handle
  rest-low_first = ground (
    arith,
    rest-append (has_handle h) low_queue (medium_queue ++ high_queue),
    rest-append (has_handle h) medium_queue high_queue,
    found-append (has_handle h) medium_queue high_queue,
    erase_first-none (has_handle h) low_queue,
    erase_first-none (has_handle h) medium_queue,
    erase_first-none (has_handle h) high_queue,
  )

  remove_queued_by_handle-Keeps : Keeps q (remove_queued_by_handle h q).1
  unfolding remove_queued_by_handle
  remove_queued_by_handle-Keeps = ground arith

-- remove_queued() takes out the first message with a nonzero handle in the order high, medium, low, and
-- keeps the order of the others; it returns NULL and changes nothing when every queued message is
-- internal. The message that is being sent stays.
pub remove_queued-Erased :
    (q : SendQueue)
    → Erased is_async (high_first q) ((remove_queued q).0, high_first (remove_queued q).1)
      × Keeps q (remove_queued q).1
remove_queued-Erased q =
    (Erased-of is_async _ _ _ (found-high_first q) (rest-high_first q), remove_queued-Keeps q)

-- remove_queued_by_handle(h) takes out the first message whose handle is nonzero and equal to h, in the
-- order low, medium, high, and keeps the order of the others; if no queued message has that handle it
-- returns NULL and changes nothing. The message that is being sent stays.
pub remove_queued_by_handle-Erased :
    (h : ℕ) (q : SendQueue)
    → Erased
        (has_handle h)
        (low_first q)
        ((remove_queued_by_handle h q).0, low_first (remove_queued_by_handle h q).1)
      × Keeps q (remove_queued_by_handle h q).1
remove_queued_by_handle-Erased h q = (
  Erased-of (has_handle h) _ _ _ (found-low_first h q) (rest-low_first h q),
  remove_queued_by_handle-Keeps h q,
)

-- remove_queued_by_priority(p) does what remove_queued() does in the queue of p, and leaves the other two
-- queues and the message that is being sent alone.
pub remove_queued_by_priority-Erased :
    (p : Priority) (q : SendQueue)
    → Erased is_async
        (queue_of p q)
        ((remove_queued_by_priority p q).0, queue_of p (remove_queued_by_priority p q).1)
      × ((j : Priority) → j ≢ p → queue_of j (remove_queued_by_priority p q).1 ≡ queue_of j q)
      × Keeps q (remove_queued_by_priority p q).1
unfolding remove_queued_by_priority
remove_queued_by_priority-Erased low q =
    (erase_first-Erased is_async q.low_queue, λ j d. ground arith, (refl, refl))
remove_queued_by_priority-Erased medium q =
    (erase_first-Erased is_async q.medium_queue, λ j d. ground arith, (refl, refl))
remove_queued_by_priority-Erased high q =
    (erase_first-Erased is_async q.high_queue, λ j d. ground arith, (refl, refl))
