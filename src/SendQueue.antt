-- ===== src/SendQueue.antt =====
-- src/SendQueue.hpp and src/SendQueue.cpp: the messages that wait for a socket, in three priorities.
-- A SendOp* is known by its `address`; `allocated` counts the SendOps that the queue has made, and a new
-- one gets that number. A failed assertion is `none`.
pub mod Order
pub mod History
pub mod Cancel
pub mod Moves
pub mod Ledger
pub mod Transmit
mod Tests
use directplay_lite.Common.{
  ℕ, ◌+◌, ◌-◌, Bool, true, false, not, ◌&&◌, List, [], ◌∷◌, ◌++◌, Option, none, some, ◌==◌, leb,
  if◌then◌else◌, length, drop,
}

pub record SendOp : Type 0 where
  pub address : ℕ
  pub bytes : List ℕ
  pub sent_data : ℕ
  pub dest_addr : List ℕ
  pub async_handle : ℕ
  pub callback : ℕ

pub data Priority : Type 0 where
  low medium high : Priority

pub record SendQueue : Type 0 where
  pub low_queue : List SendOp
  pub medium_queue : List SendOp
  pub high_queue : List SendOp
  pub current : Option SendOp
  pub signalled : Bool
  pub allocated : ℕ

abbrev pub init : SendQueue
init = record {
  low_queue = [];
  medium_queue = [];
  high_queue = [];
  current = none;
  signalled = false;
  allocated = 0;
}

-- SendOp(data, data_size, dest_addr, dest_addr_size, async_handle, callback); the address has at most
-- sizeof(struct sockaddr_storage) bytes.
unfoldable pub new_op : ℕ → List ℕ → List ℕ → ℕ → ℕ → Option SendOp
new_op address bytes dest_addr async_handle callback =
    if leb (length dest_addr) 128
    then some (record {
      address = address;
      bytes = bytes;
      sent_data = 0;
      dest_addr = dest_addr;
      async_handle = async_handle;
      callback = callback;
    })
    else none

-- The switch of `send`.
unfoldable pub push_back : Priority → SendOp → SendQueue → SendQueue
push_back low op q = record q { low_queue = q.low_queue ++ op ∷ [] }
push_back medium op q = record q { medium_queue = q.medium_queue ++ op ∷ [] }
push_back high op q = record q { high_queue = q.high_queue ++ op ∷ [] }

-- send(priority, ps, dest_addr, async_handle, callback): `packet` is ps.raw_packet(), and `dest_addr` is
-- empty for NULL. The overload without a handle passes 0.
unfoldable pub send : Priority → List ℕ → List ℕ → ℕ → ℕ → SendQueue → Option SendQueue
unfolding new_op push_back
send priority packet dest_addr async_handle callback q =
    elim (new_op q.allocated packet dest_addr async_handle callback) [
      | none ↦ none
      | some op ↦
          let q' = push_back priority op q in
          some (record q' { signalled = true; allocated = q.allocated + 1 })
    ]

-- The queues in the order that get_pending looks at them.
take_front : SendQueue → List SendOp → List SendOp → List SendOp → Option SendOp × SendQueue
take_front q (op ∷ hs) ms ls = (some op, record q { current = some op; high_queue = hs })
take_front q [] (op ∷ ms) ls = (some op, record q { current = some op; medium_queue = ms })
take_front q [] [] (op ∷ ls) = (some op, record q { current = some op; low_queue = ls })
take_front q [] [] [] = (none, q)

unfoldable pub get_pending : SendQueue → Option SendOp × SendQueue
unfolding take_front
get_pending q = elim q.current [
  | some op ↦ (some op, q)
  | none ↦ take_front q q.high_queue q.medium_queue q.low_queue
]

unfoldable pub pop_pending : SendOp → SendQueue → Option SendQueue
pop_pending op q = elim q.current [
  | none ↦ none
  | some cur ↦ if op.address == cur.address then some (record q { current = none }) else none
]

-- The loop that the remove_queued() family runs over one list.
pub erase_first : (SendOp → Bool) → List SendOp → Option SendOp × List SendOp
erase_first test [] = (none, [])
erase_first test (op ∷ ops) =
    let (found, rest) = erase_first test ops in
    if test op then (some op, ops) else (found, op ∷ rest)

abbrev pub is_async : SendOp → Bool
is_async op = not (op.async_handle == 0)

abbrev pub has_handle : ℕ → SendOp → Bool
has_handle h op = not (op.async_handle == 0) && op.async_handle == h

pub erase_low : (SendOp → Bool) → SendQueue → Option SendOp × SendQueue
unfolding erase_first
erase_low test q =
    let (found, rest) = erase_first test q.low_queue in (found, record q { low_queue = rest })

pub erase_medium : (SendOp → Bool) → SendQueue → Option SendOp × SendQueue
unfolding erase_first
erase_medium test q =
    let (found, rest) = erase_first test q.medium_queue in (found, record q { medium_queue = rest })

pub erase_high : (SendOp → Bool) → SendQueue → Option SendOp × SendQueue
unfolding erase_first
erase_high test q =
    let (found, rest) = erase_first test q.high_queue in (found, record q { high_queue = rest })

-- The loop over the queues goes on to the next one while nothing is found.
abbrev pub or_next :
    Option SendOp × SendQueue → (SendQueue → Option SendOp × SendQueue) → Option SendOp × SendQueue
or_next (some op, q) next = (some op, q)
or_next (none, q) next = next q

pub remove_queued : SendQueue → Option SendOp × SendQueue
unfolding erase_high erase_medium erase_low
remove_queued q =
    or_next (or_next (erase_high is_async q) (erase_medium is_async)) (erase_low is_async)

pub remove_queued_by_handle : ℕ → SendQueue → Option SendOp × SendQueue
unfolding erase_high erase_medium erase_low
remove_queued_by_handle h q =
    or_next (or_next (erase_low (has_handle h) q) (erase_medium (has_handle h)))
      (erase_high (has_handle h))

pub remove_queued_by_priority : Priority → SendQueue → Option SendOp × SendQueue
unfolding erase_high erase_medium erase_low
remove_queued_by_priority low q = erase_low is_async q
remove_queued_by_priority medium q = erase_medium is_async q
remove_queued_by_priority high q = erase_high is_async q

pub handle_is_pending : ℕ → SendQueue → Bool
handle_is_pending h q = elim q.current [ none ↦ false | some op ↦ op.async_handle == h ]

-- inc_sent_data(sent) and get_pending_data() of a SendOp.
unfoldable pub inc_sent_data : ℕ → SendOp → Option SendOp
inc_sent_data sent op =
    if leb (op.sent_data + sent) (length op.bytes)
    then some (record op { sent_data = op.sent_data + sent })
    else none

unfoldable pub get_pending_data : SendOp → List ℕ
get_pending_data op = drop op.sent_data op.bytes
