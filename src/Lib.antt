-- ===== src/Lib.antt =====
-- A verification library for corpc, a C++ library of coroutines, timers, network buffers and RPC.
--
-- The parts, and how they meet. A processor runs coroutines; other threads hand it new ones through
-- a ring buffer, and its timer wakes those that wait. A connection reads bytes from a socket into a
-- buffer; a codec finds a package in it and takes it out, and writes its reply into another buffer.
-- The table of descriptors, which every connection asks for its event, is guarded by a lock on which
-- coroutines wait; a selector says which processor takes the next coroutine. A client numbers its
-- requests with texts of digits, and HTTP cuts its queries and headers with the text functions. The
-- coroutines themselves are objects of a pool, and a processor's epoller says which of them go on.
--
-- - Base: lists and memory indexed by native numbers, signed integers, Boolean tests, and `Option` as
--   the monad of code that may fault.
-- - Buffer: corpc/net/tcp/tcp_buffer.h and tcp_buffer.cc. `TcpBuffer` is the class; `write_to_buffer`,
--   `read_from_buffer`, `resize_buffer`, `adjust_buffer`, `recycle_read`, `recycle_write`,
--   `clear_buffer` and `get_buffer_string` are its methods of the same names. Invariant has what a
--   valid buffer is and what it holds, Refine and Consume what each call does to that, Growth
--   how far the write index moves, Client any sequence of calls.
-- - Byte: corpc/net/byte.h, and `htonl` with `memcpy`.
-- - Pb: corpc/net/pb/pb_codec.cc and pb_data.h. Package has `PbStruct` and `encode`, Decode has
--   `decode`, cut at its early returns into the functions `find_package`, `parse_msg_req`,
--   `parse_service`, `parse_err` and `parse_pb_data`. Decode.Layout, Decode.Fields, Decode.RoundTrip
--   and Encode hold the proofs.
-- - RpcDispatcher: corpc/net/pb/pb_rpc_dispatcher.{h,cc}. `dispatch` makes the reply to a request with
--   `make_reply`, cut at its early returns into `call_named`, `call_service`, `call_found` and
--   `call_with`, and encodes it. The registered services are functions of the record `Service`.
-- - Connection: corpc/net/tcp/tcp_connection.{h,cpp}, and `NetSocket::read` and `NetSocket::send` of
--   corpc/net/net_socket.cc in Socket. `input`, `execute` and `output` are the three calls of the
--   connection's loop. What the kernel answers to a read or a write is a list, one entry for a call;
--   when it is empty, the coroutine waits. Input.Rounds and Input.Keeps hold the proofs
--   about `input`. Loop has a round of the main loop. `execute` takes its
--   dispatcher as an argument, and RpcDispatcher/Serving has the one of Pb.
-- - TimeWheel: corpc/net/tcp/tcp_connection_time_wheel.{h,cc} and abstract_slot.h. `fresh` and
--   `loop_func`, which also gives the slots whose callback runs: those whose weak pointer can be locked,
--   which is an argument. Turns has the wheel as a queue of
--   buckets, Lifetime any sequence of calls.
-- - Timer: corpc/coroutine/timer.h and timer.cc. `add_timer_event`, `del_timer_event`, `on_timer` and
--   `reset_arrive_time` are the methods of `Timer`. Order, Wake, Fire and Delete hold the proofs.
-- - RingBuffer: corpc/coroutine/lock_free_ring_buffer.h. `push` and `pop` are the calls of one thread;
--   Steps has the atomic steps of a producer and a consumer.
-- - RwMutex: corpc/coroutine/rw_mutex.{h,cc}. `rlock` and `wlock` give true for the early return and
--   false for the wait; `runlock` and `wunlock` give the coroutines that are handed to addCoroutine.
--   RwMutex/System is any number of coroutines that call them in any order: each call is a step,
--   since its body runs under the spinlock, and each coroutine lets go of what it holds only. A
--   coroutine that is handed to addCoroutine goes on: the steps assume that the processor's ring has
--   room for it.
--   Inv is the invariant; RwMutex/Invariant and RwMutex/Safety hold the proofs.
-- - Spinlock: corpc/coroutine/spinlock.h and spinlock_guard.h, any number of threads and the atomic
--   operations on the word of the lock.
-- - Selector: corpc/coroutine/processor_selector.{h,cc}. `next` for both strategies on the loads of
--   the processors; a read past the end of the processors is the value out_of_range.
-- - FdTable: corpc/coroutine/fd_event.{h,cc}. `get_fd_event` gives none when the code reads past the
--   end of the table. Descriptors stay below 2^30, so that fd * 1.5 is an int.
-- - MsgReq: corpc/net/comm/msg_req.cc. `gen_msg_number` gives none when the code reads outside of the
--   text of digits. Its loops are structural, on the index and on the count of characters.
-- - Text: corpc/net/comm/string_util.cc. `split_str_to_vector` gives none for the exception that
--   substr throws; its loop has one more fuel than the text has characters, and each round that goes
--   on drops at least one. `split_str_to_map` takes the map as a function from keys to values.
-- - Http: corpc/net/http/. The parent has the data of http_define, http_request and http_response and
--   what the code uses of std::map, std::to_string and atoi. Line has the parsers of the three parts,
--   Codec `encode` and `decode`, which is cut at its exits into `at_line`, `after_line`, `at_header`,
--   `at_content`, `take_content` and `finish`; Find, Targets, RequestLine, Requests, Decode and
--   Partial hold the proofs. Servlet has what HttpServlet gives its subclasses, Dispatcher `dispatch`
--   and `register_servlet`, Length the Content-Length of a response, and Serving the loop of
--   `TcpConnection::execute` with this codec. An int that the code does not initialize is an argument.
-- - MemPool: corpc/coroutine/mempool.h and objpool.h, over an explicit memory of next pointers. Regions
--   has the blocks that do not overlap, Invariant the free list and the pieces that malloc gave, Alloc
--   and Calls each call, Safety the clients who take blocks, write into them and give them back.
-- - Processor: `resume`, `kill_cur_co` and the rounds of `loop` in corpc/coroutine/processor.cc, with
--   corpc/coroutine/coroutine.{h,cc}; Epoller has epoller.{h,cc} and `Processor::waitEvent`. Turns is
--   what one coroutine sees of the processor, Rounds a round of the loop, Events a round with what
--   `getActiveTasks` makes of a batch of events, the coroutines that the timer's tasks resume included,
--   Freed the deleted objects: `touch` records a call on one. No two coroutines have the same identity.
-- - Client: corpc/net/tcp/tcp_client.cc. `send_and_recv_pb` is cut at its loops and its label; `World`
--   has what the kernel answers and when the timeout comes, and `hangs` is a coroutine that waits for
--   an answer that is not among them. The descriptor keeps its number when it is opened anew. Channel
--   has corpc/net/pb/pb_rpc_channel.cc and pb_rpc_controller.{h,cc} with `call_method`.
-- - Address: corpc/net/net_address.{h,cc}. `check_valid_ip_addr` and the constructors; the one from a
--   text is `from_text`. What the system's inet_addr reads is an argument.
--
-- Conventions. `none` of an operation in `Option` is undefined behaviour, in Text an exception and in
-- Processor and Client a failed assertion: an access outside an object, a negative index or size, a
-- signed overflow, or a length that no allocation takes. A `std::string`
-- or a `std::vector<char>` is the list of its bytes. An `int` that is a size or an index is a natural
-- number where the invariant shows that it is not negative; an `int32_t` from the wire is an integer.
-- Loops are recursions on the rest of the list or on the rounds left, so no fuel can run out: the
-- search of `decode` makes as many rounds as there are unread bytes. The loops of Text and Connection
-- have fuel: `input` and `output` use one of the kernel's answers in each round, and `execute` takes
-- bytes out of the read buffer; with Http it may go on, so the rounds of its
-- `execute_loop` are an argument. In Buffer the
-- sizes are unbounded; where they could leave the range of an int, the callers have the fault:
-- Buffer.Client's `call`, and Connection's `make_room` for the size that it doubles. Elsewhere the
-- theorems state the bound, or the sizes are taken to stay below 2^31.
--
-- Not modelled: the kernel (epoll, sockets, timer descriptors), stacks and context switches, protobuf,
-- the logger and the example programs, the scheduler, the start and stop of
-- the threads, the server and the acceptor.
-- `MsgReqUtil::genMsgNumber` is an argument of `encode`, the clock one of the timer.
pub mod Base
pub mod Buffer
pub mod Byte
pub mod Pb
pub mod RpcDispatcher
pub mod Connection
pub mod TimeWheel
pub mod Timer
pub mod RingBuffer
pub mod RwMutex
pub mod Selector
pub mod FdTable
pub mod Text
pub mod MsgReq
pub mod Http
pub mod MemPool
pub mod Processor
pub mod Address
pub mod Client
pub mod Spinlock
