-- ===== src/Lib.antt =====
-- DirectPlay Lite: a model of the C++ code under src/ of the repository, and its correctness.
--
-- The program implements DirectPlay 8 over IP. A peer object (src/DirectPlay8Peer.cpp) owns sockets,
-- queues and worker threads; below it stand components that can be understood alone. The
-- development models those first:
--
-- Common: the shared names, Boolean tests, list lemmas, and the laws of masks on machine words.
-- Handles: AsyncHandleAllocator (src/AsyncHandleAllocator.hpp, .cpp). The record Allocator has its
-- eight counters; alloc dispatches to new_handle, which is new_XXX. Words are numbers below 2 ^ 32.
-- Packet: the TLV format of src/packet.hpp and src/packet.cpp. Serialiser has PacketSerialiser,
-- whose state is its byte vector; Deserialiser has PacketDeserialiser. Sums of sizes are taken
-- modulo m, which is 2 ^ w for a size_t of w bits. The project files build for Win32, where m is
-- 2 ^ 32, and the theorems apply there; on any bytes they tell apart the packets in which a size
-- does not fit a size_t. A read outside the packet is the result fault. The constructor's loop runs
-- on fuel, and stuck means that it was cut off: deserialise gives one round more than the packet
-- has bytes, which Packet/Safety proves enough wherever no size wraps; Packet/Wrap has packets on
-- which, with a 32-bit size_t, no amount is enough. Where m is 2 ^ 32 + 8 or more no size wraps.
-- SendQueue: src/SendQueue.hpp and src/SendQueue.cpp. A SendOp pointer is the op's address, a
-- callback is a token, and a failed assertion is none. SendQueue/Transmit joins inc_sent_data and
-- get_pending_data in the way that io_peer_send of src/DirectPlay8Peer.cpp does.
-- Address: src/DirectPlay8Address.hpp and src/DirectPlay8Address.cpp. Component has the three classes
-- of components, Object the address with its methods, Host create_host_address(). A name is what stands before the NUL
-- of the caller's string. IsReachable is the relation of the addresses that calls can make.
-- Pool: src/HandleHandlingPool.hpp and src/HandleHandlingPool.cpp. State has the two vectors and the calls that
-- change them, with the exceptions of push_back() and of thread creation as faults that the caller of the
-- model chooses. worker_round is one round of worker_main(), and the result of the wait is its argument. The locks
-- and the condition variables are not modelled: each call holds wait_lock while it changes the vectors.
-- HostEnum: src/HostEnumerator.hpp and src/HostEnumerator.cpp. Setup has the constructor with its checks of
-- the addresses, Loop the rounds of main() over a sequence of results of GetTickCount(), Response handle_packet().
-- InetPtonW() and swscanf() of the host name are parameters; sockets and threads are left out.
-- Peer: src/DirectPlay8Peer.hpp and src/DirectPlay8Peer.cpp, in parts. Stream is io_peer_recv() over the results of recv() in
-- turn; the loop over the buffer runs on fuel, one round more than there are bytes, which Peer/Stream/Sound proves enough wherever no size in a packet wraps.
-- Session has the peers and groups that the handlers share: a pointer into a map is its key, a NULL pointer or a failed assertion is
-- a fault, and what happens while the lock is released for the application's message handler is a function on the session, the
-- parameter app. Groups has handle_group_allocate() to handle_group_left(), Acks the acknowledgements, Players
-- dispatch_destroy_player(), whose loop runs on fuel that Peer/Players/Leaving bounds, and connect_check(). Closing has
-- group_destroy_all(), on fuel of one round for each group, Queries two of the API's enumerations, and Actions DestroyGroup(),
-- AddPlayerToGroup() and RemovePlayerFromGroup(), with the sends' callbacks as numbers and the lambda `complete` as a function on its counter. Sending is
-- io_peer_send() and Datagrams io_udp_send(), over the results of send() and sendto() in turn; Peer/Sending/Wire joins the sending
-- peer to the receiving one. A handler that sends uses the model of SendQueue, and one that reads a packet that of PacketDeserialiser.
--
-- Memory is little-endian, wchar_t has two bytes, and a GUID is given by its sixteen bytes, as on
-- Windows. Allocation failure is modelled in Pool alone. Left out are logging, sockets, COM registration, the rest of
-- DirectPlay8Peer (peer_destroy(), the connection handshake, the other API methods), the hook DLLs, and the copies of MinHook and
-- googletest.
pub mod Common
pub mod Handles
pub mod Packet
pub mod SendQueue
pub mod Address
pub mod Pool
pub mod HostEnum
pub mod Peer
