-- ===== src/SendQueue/Tests.antt =====
-- Runs of the send queue, and its theorems at concrete queues.
use mathlib.Core.List.{Perm}
use directplay_lite.Common.{ℕ, ◌≡◌, refl, some, List, [], ◌∷◌, ◌++◌, arith, true}
use directplay_lite.SendQueue.{
  SendOp, SendQueue, Priority, low, medium, high, init, get_pending, pop_pending,
  remove_queued_by_handle,
}
use directplay_lite.SendQueue.Order.{order, to_list, serve, drain}
use directplay_lite.SendQueue.History.{Post, send_all, packets, drain-send_all}
use directplay_lite.SendQueue.Cancel.{high_first}
use directplay_lite.SendQueue.Moves.{Call, sends, serves, cancels_handle}
use directplay_lite.SendQueue.Ledger.{run, addresses, upto, run-Perm}

abbrev op : ℕ → ℕ → SendOp
op address handle = record {
  address = address;
  bytes = 10 ∷ 11 ∷ 12 ∷ [];
  sent_data = 0;
  dest_addr = [];
  async_handle = handle;
  callback = address;
}

-- Two low messages, the second of the application; one medium; one high and internal.
abbrev busy : SendQueue
busy = record {
  low_queue = op 0 0 ∷ op 1 7 ∷ [];
  medium_queue = op 2 8 ∷ [];
  high_queue = op 3 0 ∷ [];
  current = some (op 4 9);
  signalled = true;
  allocated = 5;
}

drained : addresses (drain 9 busy).0 ≡ 4 ∷ 3 ∷ 2 ∷ 0 ∷ 1 ∷ []
unfolding drain serve get_pending pop_pending
drained = refl

cancelled : addresses (high_first (remove_queued_by_handle 7 busy).1) ≡ 3 ∷ 2 ∷ 0 ∷ []
unfolding remove_queued_by_handle
cancelled = refl

abbrev post : Priority → ℕ → Post
post priority byte = record {
  priority = priority;
  packet = byte ∷ [];
  dest_addr = [];
  async_handle = 0;
  callback = 0;
}

drain-send_all_example :
    (q' : SendQueue) × (send_all (post low 1 ∷ post high 2 ∷ post low 3 ∷ []) busy ≡ some q')
    × (packets (drain 8 q').0
        ≡ packets (to_list busy.current)
          ++ ((packets busy.high_queue ++ (2 ∷ []) ∷ [])
              ++ ((packets busy.medium_queue ++ [])
                  ++ (packets busy.low_queue ++ (1 ∷ []) ∷ (3 ∷ []) ∷ []))))
    × (order (drain 8 q').1 ≡ [])
drain-send_all_example =
    drain-send_all 8 (post low 1 ∷ post high 2 ∷ post low 3 ∷ []) busy
      (omega arith, (omega arith, (omega arith, tt))) (omega arith)

abbrev history : List Call
history =
    sends low (1 ∷ []) [] 0 0
    ∷ sends high (2 ∷ []) [] 5 1
    ∷ serves
    ∷ sends medium (3 ∷ []) [] 6 2
    ∷ cancels_handle 6
    ∷ []

run-Perm_example :
    Perm
      (addresses ((run history init).0 ++ order (run history init).1))
      (upto (run history init).1.allocated)
run-Perm_example = run-Perm history
