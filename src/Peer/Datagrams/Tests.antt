-- ===== src/Peer/Datagrams/Tests.antt =====
-- A run of io_udp_send() of src/DirectPlay8Peer.cpp.
use directplay_lite.Common.{ℕ, refl, inr, [], ◌∷◌, ◌++◌, Option, some}
use directplay_lite.SendQueue.{SendOp, SendQueue, init}
use directplay_lite.SendQueue.Order.{order}
use directplay_lite.Peer.Datagrams.{
  delivered, failed, ops_of, Ordered, io_udp_send, io_udp_send-Ordered,
}

abbrev ask : ℕ → SendOp
ask n = record {
  address = n;
  bytes = n ∷ [];
  sent_data = 0;
  dest_addr = [];
  async_handle = 0;
  callback = 0;
}

abbrev two_waiting : SendQueue
two_waiting = record init { low_queue = ask 0 ∷ []; high_queue = ask 1 ∷ []; allocated = 2 }

abbrev leave_alone : SendOp → ℕ → SendQueue → Option SendQueue
leave_alone o result q = some q

io_udp_send-Ordered_example :
    Ordered
      (ops_of [] ++ order two_waiting)
      (io_udp_send leave_alone (failed ∷ delivered ∷ []) [] two_waiting)
io_udp_send-Ordered_example =
    io_udp_send-Ordered leave_alone (λ o r q. inr refl) (failed ∷ delivered ∷ []) [] two_waiting
