-- ===== src/Lib.antt =====
-- gnb_udp_over_tcp: a tunnel that carries UDP datagrams over a TCP connection. A client takes
-- datagrams from a UDP socket, puts a four byte head before each and writes the frames to a TCP
-- connection; the server reads the stream, takes the frames apart and sends the datagrams to their
-- destination. Answers take the same way back.
--
-- The parts, their files here and the code that they model:
-- - Prelude: names of the libraries, Boolean tests, lists measured by native numbers, memcpy into
--   a block.
-- - Payload (src/gnb_payload16.c, gnb_payload16.h): frames as lists of bytes, and
--   gnb_payload16_handle as a loop of rounds on a context, with the callback as a function on a
--   state. Payload/Stream is what the stream means, a byte at a time; Head, Part, Loop and Handle
--   lead from a round to a whole call, Chunks to the calls for successive chunks. The loop has 2 *
--   length + 2 rounds of fuel: a byte takes part in at most two.
-- - Tunnel (src/gnb_buf.c, gnb_buf_type.h, src/service/): the buffers of a connection and the
--   relay, with UdpSide for src/service/uot_udp_service.c and TcpSide for
--   src/service/uot_tcp_service.c. A datagram that handle_udp puts into the send buffer (Enqueue)
--   is what the callback of the other side takes out (Relay), and EndToEnd composes the
--   two. Timers has the idle callback, Keepalive the frames that it sends. sendto and the event
--   handler are parameters.
-- - FixedPool (src/gnb_fixed_pool.c), Alloc (src/gnb_alloc.c), FixedList (src/gnb_fixed_list.c)
--   and DoublyLinked (src/gnb_doubly_linked_list.c): the containers below. Memory is a function of
--   the address.
-- - Hash32 (src/gnb_hash32.c): buckets with chains; the hash function is a parameter.
--   Hash32/Lookup has the map as a table from keys of one length to pointers, Hash32/Arrays
--   gnb_hash32_store and the arrays of keys.
-- - Lru (src/gnb_lru32.c): the map of Hash32, the list of DoublyLinked and the pools of FixedPool
--   in one structure. Pools, Index and Entries say how they agree on a list of entries; Touch,
--   Evict, Enter and Put are the operations on it, Store those that copy the data; Items is a list of keys with data as a user
--   sees it, Refine and Pops the operations by that list, and Runs any sequence of calls. Channels is the
--   use of it by src/service/uot_tcp_service.c when connections come, end and grow silent.
-- - Address (src/gnb_address.c): byte order (Order), lists of addresses (Search, Update) and texts
--   (Text); the functions of the sockets are parameters.
-- - Network (src/gnb_network_service.c): what an event does to its connection, with the system
--   calls and the callbacks as parameters. Transfer has the bytes that are received and sent,
--   Dispatch the choice of the handler, Accept the new connections; Receive and Partial are about
--   do_recv and do_send.
-- - Events (src/event, gnb_event.c): the handlers for select, epoll and kqueue, with the calls of the
--   kernel as parameters. Registry and Unregister have the array of the watched events as a set,
--   Sound the sets of select, Ready and Handed what it hands out, Waited and Interest epoll, Kqueue
--   kqueue.
-- - Log (src/gnb_log.c, gnb_log.h): a line of the log as a list of outputs; Outputs is about where it
--   goes, Line about its length and its frame, Rotate about the files of a day, Server about the address of the log server.
-- - Program (src/service/gnb_udp_over_tcp.c): the options and the set-up of the log (Setup); Options
--   and Start say which command lines start which service.
--
-- Integers are native numbers; where the code wraps, the definitions reduce modulo 2 ^ w. The
-- counts of what takes memory of its own, such as the entries of a hash map, are left without a
-- bound, since the heap has fewer than 2 ^ 32 fragments, and a byte is any number. A copy of at
-- least one byte or a read outside of a block, and a read of NULL, is none or fault. A connection of
-- Tunnel says whether it has its buffers; handle_udp alone is about one that has them.
--
-- Not modelled: the loop of gnb_network_service.c around single events and the set-up of its
-- sockets, the daemon and the clock, which are calls of the system; gnb_fixed_list_store.c, which
-- nothing calls; the hash function, which is copied from nginx. Calls of malloc and free are
-- arguments and updates of the memory, and the event handlers are parameters of Network. A channel
-- of Channels has no payload context, which Tunnel has.
pub mod Prelude
pub mod Payload
pub mod FixedPool
pub mod Alloc
pub mod FixedList
pub mod DoublyLinked
pub mod Tunnel
pub mod Hash32
pub mod Lru
pub mod Address
pub mod Events
pub mod Network
pub mod Channels
pub mod Log
pub mod Program
