-- ===== src/SendQueue/Ledger.antt =====
-- No message is lost, sent twice, or cancelled after it was sent: src/SendQueue.cpp over whole histories.
use mathlib.Core.List.{Perm, perm_middle, append_assoc, append-nil}
use mathlib.Core.List.Perm
use directplay_lite.Common.{ℕ, zero, suc, List, [], ◌∷◌, ◌++◌, map}
use directplay_lite.SendQueue.{SendOp, SendQueue, init}
use directplay_lite.SendQueue.Order.{order}
use directplay_lite.SendQueue.Moves.{Call, step, Moves, moved, made, step-Moves}

pub run : List Call → SendQueue → List SendOp × SendQueue
run [] q = ([], q)
run (c ∷ cs) q = let (out, q') = step c q in let (outs, r) = run cs q' in (out ++ outs, r)

abbrev pub addresses : List SendOp → List ℕ
addresses = map λ op. op.address

-- The addresses given out so far, newest first.
abbrev pub upto : ℕ → List ℕ
upto zero = []
upto (suc n) = n ∷ upto n

-- The books: what is queued and what has left are together all that was ever allocated.
abbrev Balanced : SendQueue → List SendOp → Type 0
Balanced q gone = Perm (addresses (gone ++ order q)) (upto q.allocated)

Moves-Balanced :
    (q : SendQueue) (out : List SendOp) (q' : SendQueue) (gone : List SendOp)
    → Moves q out q'
    → Balanced q gone
    → Balanced q' (gone ++ out)
Moves-Balanced q out q' gone (moved n p) b =
    rw (n, append_assoc gone out (order q'))
      (Perm.trans (Perm.symm (Perm.map _ (Perm.append_left gone p))) b)
Moves-Balanced q out q' gone (made op a n e p) b =
    rw (e, append-nil gone, n)
      (Perm.trans (Perm.map _ (Perm.trans (Perm.append_left gone p) (perm_middle gone (order q))))
        (Perm.cons' a b))

run-Balanced :
    (cs : List Call) (q : SendQueue) (gone : List SendOp)
    → Balanced q gone
    → Balanced (run cs q).1 (gone ++ (run cs q).0)
unfolding run
run-Balanced [] q gone b = rw append-nil b
run-Balanced (c ∷ cs) q gone b = rw (← append_assoc gone (step c q).0 (run cs (step c q).1).0) (
    run-Balanced cs (step c q).1 (gone ++ (step c q).0)
      (Moves-Balanced q (step c q).0 (step c q).1 gone (step-Moves c q) b))

-- Over any history of sends, turns of the writer and cancellations, from an empty queue, the messages that
-- have left the queue together with those that it still holds are exactly the messages that were ever
-- created, each once: none is lost, none leaves twice, and none is both queued and gone.
pub run-Perm :
    (cs : List Call)
    → Perm (addresses ((run cs init).0 ++ order (run cs init).1)) (upto (run cs init).1.allocated)
run-Perm cs = run-Balanced cs init [] Perm.rfl
