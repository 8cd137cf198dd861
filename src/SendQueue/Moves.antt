-- ===== src/SendQueue/Moves.antt =====
-- What each call on a queue takes out of it and puts into it: src/SendQueue.cpp.
use mathlib.Core.List.{Perm, perm_append_comm, perm_middle, append_assoc}
use mathlib.Core.List.Perm
use native.Mathlib.Decide.{dec_lt}
use directplay_lite.Common.{
  ℕ, suc, ◌<◌, ◌≡◌, refl, sym, subst, Option, some, none, List, [], ◌∷◌, ◌++◌, arith, Bool, length,
}
use directplay_lite.SendQueue.{
  SendOp, SendQueue, Priority, low, medium, high, send, remove_queued, remove_queued_by_handle,
  remove_queued_by_priority,
}
use directplay_lite.SendQueue.Order.{
  to_list, order, serve, Serves, serve-Serves, ahead, behind, op_of, send-order,
}
use directplay_lite.SendQueue.Cancel.{
  Erased, hit, miss, high_first, low_first, Keeps, remove_queued-Erased,
  remove_queued_by_handle-Erased, remove_queued_by_priority-Erased,
}

-- What the owner of a queue does with it.
pub data Call : Type 0 where
  sends : Priority → List ℕ → List ℕ → ℕ → ℕ → Call
  serves : Call
  cancels : Call
  cancels_handle : ℕ → Call
  cancels_priority : Priority → Call

after_send : SendQueue → Option SendQueue → List SendOp × SendQueue
after_send q none = ([], q)
after_send q (some q') = ([], q')

after_serve : SendQueue → Option (SendOp × SendQueue) → List SendOp × SendQueue
after_serve q none = ([], q)
after_serve q (some (op, q')) = (op ∷ [], q')

-- The ops that leave the queue, and the queue after the call.
pub step : Call → SendQueue → List SendOp × SendQueue
unfolding after_send after_serve
step (sends p packet dest_addr h cb) q = after_send q (send p packet dest_addr h cb q)
step serves q = after_serve q (serve q)
step cancels q = let (found, q') = remove_queued q in (to_list found, q')
step (cancels_handle h) q = let (found, q') = remove_queued_by_handle h q in (to_list found, q')
step (cancels_priority p) q = let (found, q') = remove_queued_by_priority p q in (to_list found, q')

-- The call takes `out` from the queue, and adds the ops that it allocates.
pub data Moves (q : SendQueue) (out : List SendOp) (q' : SendQueue) : Type 0 where
  moved : q'.allocated ≡ q.allocated → Perm (order q) (out ++ order q') → Moves q out q'
  made :
      (op : SendOp)
      → op.address ≡ q.allocated
      → q'.allocated ≡ suc q.allocated
      → out ≡ []
      → Perm (order q') (op ∷ order q)
      → Moves q out q'

Erased-perm :
    {test : SendOp → Bool} {xs : List SendOp} {r : Option SendOp × List SendOp}
    → Erased test xs r
    → Perm xs (to_list r.0 ++ r.1)
Erased-perm (hit before op after e b t) = rw e (perm_middle before after)
Erased-perm (miss b) = Perm.rfl

swap_front {ℓ} : {A : Type ℓ} (a b c : List A) → Perm (a ++ (b ++ c)) (b ++ (a ++ c))
swap_front a b c =
    rw (← append_assoc a b c, ← append_assoc b a c) (Perm.append_right c (perm_append_comm a b))

reverse_three {ℓ} : {A : Type ℓ} (a b c : List A) → Perm (a ++ (b ++ c)) (c ++ (b ++ a))
reverse_three a b c =
    Perm.trans (perm_append_comm a (b ++ c))
      (Perm.trans (Perm.append_right a (perm_append_comm b c)) (rw append_assoc Perm.rfl))

Moves-cancel :
    (q : SendQueue) (out : List SendOp) (q' : SendQueue)
    → Keeps q q'
    → Perm (high_first q) (out ++ high_first q')
    → Moves q out q'
Moves-cancel q out q' k p = moved (k.1) (
    subst (λ c. Perm (order q) (out ++ (to_list c ++ high_first q'))) (sym k.0)
      (Perm.trans (Perm.append_left (to_list q.current) p)
        (swap_front (to_list q.current) out (high_first q'))))

remove_queued-Moves : (q : SendQueue) → Moves q (to_list (remove_queued q).0) (remove_queued q).1
remove_queued-Moves q =
    let (e, k) = remove_queued-Erased q in Moves-cancel q _ (remove_queued q).1 k (Erased-perm e)

low_high : (q : SendQueue) → Perm (high_first q) (low_first q)
low_high q = reverse_three q.high_queue q.medium_queue q.low_queue

remove_queued_by_handle-Moves :
    (h : ℕ) (q : SendQueue)
    → Moves q (to_list (remove_queued_by_handle h q).0) (remove_queued_by_handle h q).1
remove_queued_by_handle-Moves h q =
    let (e, k) = remove_queued_by_handle-Erased h q in
    let q' = (remove_queued_by_handle h q).1 in
    Moves-cancel q _ q' k (
      Perm.trans (low_high q)
        (Perm.trans (Erased-perm e) (Perm.append_left _ (Perm.symm (low_high q')))))

module _ (out : List SendOp) (h m l : List SendOp) where
  from_high :
      (h' : List SendOp) → Perm h (out ++ h') → Perm (h ++ (m ++ l)) (out ++ (h' ++ (m ++ l)))
  from_high h' p = rw (← append_assoc out h' (m ++ l)) (Perm.append_right (m ++ l) p)

  from_medium :
      (m' : List SendOp) → Perm m (out ++ m') → Perm (h ++ (m ++ l)) (out ++ (h ++ (m' ++ l)))
  from_medium m' p =
      Perm.trans (Perm.append_left h (rw append_assoc at (Perm.append_right l p)))
        (swap_front h out (m' ++ l))

  from_low :
      (l' : List SendOp) → Perm l (out ++ l') → Perm (h ++ (m ++ l)) (out ++ (h ++ (m ++ l')))
  from_low l' p =
      Perm.trans (Perm.append_left h (Perm.trans (Perm.append_left m p) (swap_front m out l')))
        (swap_front h out (m ++ l'))

remove_queued_by_priority-Moves :
    (p : Priority) (q : SendQueue)
    → Moves q (to_list (remove_queued_by_priority p q).0) (remove_queued_by_priority p q).1
remove_queued_by_priority-Moves low q =
    let (e, same, k) = remove_queued_by_priority-Erased low q in
    Moves-cancel q _ _ k (
      rw (same high (λ c. cc), same medium (λ c. cc))
        (from_low _ q.high_queue q.medium_queue q.low_queue _ (Erased-perm e)))
remove_queued_by_priority-Moves medium q =
    let (e, same, k) = remove_queued_by_priority-Erased medium q in
    Moves-cancel q _ _ k (
      rw (same high (λ c. cc), same low (λ c. cc))
        (from_medium _ q.high_queue q.medium_queue q.low_queue _ (Erased-perm e)))
remove_queued_by_priority-Moves high q =
    let (e, same, k) = remove_queued_by_priority-Erased high q in
    Moves-cancel q _ _ k (
      rw (same medium (λ c. cc), same low (λ c. cc))
        (from_high _ q.high_queue q.medium_queue q.low_queue _ (Erased-perm e)))

after_serve-Moves :
    (q : SendQueue) (r : Option (SendOp × SendQueue))
    → Serves q r
    → Moves q (after_serve q r).0 (after_serve q r).1
unfolding after_serve
after_serve-Moves q none e = moved refl Perm.rfl
after_serve-Moves q (some (op, q')) (e, n) = moved n (rw e Perm.rfl)

-- A send whose address does not fit fails its assertion and adds nothing.
send-none :
    (p : Priority) (packet dest_addr : List ℕ) (h cb : ℕ) (q : SendQueue)
    → 128 < length dest_addr
    → send p packet dest_addr h cb q ≡ none
unfolding send
send-none p packet dest_addr h cb q long = ground arith

after_send-Moves :
    (p : Priority) (packet dest_addr : List ℕ) (h cb : ℕ) (q : SendQueue)
    → Moves q
        (after_send q (send p packet dest_addr h cb q)).0
        (after_send q (send p packet dest_addr h cb q)).1
unfolding after_send
after_send-Moves p packet dest_addr h cb q = elim (dec_lt 128 (length dest_addr)) [
  | yes long ↦ rw (send-none p packet dest_addr h cb q long, after_send) (moved refl Perm.rfl)
  | no fits ↦
      let (q', e, before, now, _, n) = send-order p packet dest_addr h cb q (omega arith) in
      rw (e, after_send)
        (made (op_of q packet dest_addr h cb) refl (omega arith) refl
          (rw (now, before) (perm_middle (ahead p q) (behind p q))))
]

pub step-Moves : (c : Call) (q : SendQueue) → Moves q (step c q).0 (step c q).1
unfolding step
step-Moves (sends p packet dest_addr h cb) q = after_send-Moves p packet dest_addr h cb q
step-Moves serves q = after_serve-Moves q (serve q) (serve-Serves q)
step-Moves cancels q = remove_queued-Moves q
step-Moves (cancels_handle h) q = remove_queued_by_handle-Moves h q
step-Moves (cancels_priority p) q = remove_queued_by_priority-Moves p q
