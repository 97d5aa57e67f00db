-- ===== src/Lib.antt =====
-- vee 3.0, a C++ library of locks, queues, delegates, workers, integers of any size, enumerations and
-- sockets, as a verification library.
--
-- The parts and how they interact. A delegate calls the functions registered in it under its lock;
-- a packaged task is a delegate with arguments; a worker runs tasks from a lock-free queue, and a
-- group of workers shares jobs out by a counter that the workers' events keep. The lock-free queue
-- and stack are two rings of indices over blocks. Sockets keep the peer in an endpoint, and throw
-- the library's exceptions, which keep their message in a buffer.
--
-- Where each part is modelled:
--   Lock                vee/lock.h: spin_lock and empty_lock; Lock/Threads has threads on one lock
--   Queue               vee/queue.h: the ring with overwriting; Queue/Bounded is its specification
--   Lockfree/AtQueue    vee/lockfree/queue.h: atqueue, the ring of pointers
--   Lockfree/Threads    the same: the atomic steps of enqueue and dequeue, by threads in any order;
--                       Threads/Single is the invariant of one producer and one consumer,
--                       Threads/Order and Threads/Prefix keep it, Threads/Alone has the steps of
--                       one call in a row, Threads/Lost is a run of three
--   Lockfree/Blocks     the constructors' loops, and putting an index back, of both headers
--   Lockfree/Queue      vee/lockfree/queue.h: queue, two atqueues of indices over blocks
--   Lockfree/Pair       the same, shared by one thread that enqueues and one that dequeues, in any
--                       order of their steps; Pair/Paired is the invariant, the others keep it
--   Lockfree/Stack      vee/lockfree/stack.h: stack
--   Delegate            vee/delegate.h: register, remove, merge, call; Delegate/Entries are the maps
--   Integer             vee/type/generic/unsigned_integer.h: assignment, conversion, comparison;
--                       Integer/Comparator is its comparator of arrays, Integer/Dispatch
--                       vee/type/generic/unsigned_integral_comparator.h
--   CString, Exception  vee/exception.h, vee/exl.h, vee/io.h, vee/comm.h and the files of exception/
--   Endpoint            vee/comm/ip.h and comm/ip.cpp: ip_endpoint
--   Text                vee/helper/strmagic.h: trim, and the search that ignores case
--   Enumeration         vee/enumeration.h: to_string and the iterator; Enumeration/Values has the
--                       conversions and comparisons
--   Worker              vee/worker.h: Worker/Task is packaged_task, Worker/System the atomic steps of
--                       one worker's thread and one client's in any order, Worker/Calm and
--                       Worker/Steps their invariant, Worker/Race a run outside of it,
--                       Worker/Group the requests of the worker group
--   Tcp                 comm/tcp.cpp: the waiting reads and writes; Tcp/Stream connects and moves,
--                       Stream/Completion connects without waiting, Tcp/Async completes the other
--                       calls that do not wait, Tcp/Server is tcp_server
--   Udp                 comm/udp.cpp and vee/comm/udp.h; Udp/Async is async_read_from
--   SharedMemory        vee/comm/shared_memory.h and comm/shared_memory.cpp
--   Bits                vee/helper/bitmagic.h, vee/helper/term.h and helper/term.cpp
-- Common has the shared numbers and their decimal text, lists, rings of cells and Boolean tests;
-- Tests runs the code.
--
-- How the code is rendered. `size_t` arithmetic is modulo 2 ^ 64 where it can overflow. An array is
-- a list, and a read or write outside of it has no result; a memory that a pointer walks over is a
-- function from addresses. An exception is a value. A loop that need not end runs on fuel, and the
-- theorems say how much is enough. For lock-free calls that do not overlap that is two rounds of a
-- loop of a queue, with no retries; retries + 2 rounds for `enqueue` on a queue of blocks with any
-- number of retries; and one round for the stack. For a write it is one round more than the bytes.
-- Calls of one object are modelled one at a time, except in Lock/Threads, Lockfree/Threads,
-- Lockfree/Pair and Worker/System, where the atomic steps interleave and each is seen at once by
-- all threads; a call on its job queue is one step of Worker/System. Boost's sockets, acceptors,
-- addresses, segments and tokenizer are parameters, with what the code relies on as hypotheses of
-- the theorems.
--
-- Not modelled: the interleaving of the steps within the lock-free stack, and within the queue of
-- blocks for more than two threads; a worker with several clients at once; the work of a group's
-- workers; the order of memory; the io_service, whose work is Boost's; random numbers, timers and
-- the library's own test programs; the templates that only compute types, beyond those that choose
-- an overload of the integers.
pub mod Common
pub mod Lock
pub mod Queue
pub mod Lockfree
pub mod CString
pub mod Exception
pub mod Endpoint
pub mod Delegate
pub mod Integer
pub mod Worker
pub mod Text
pub mod Enumeration
pub mod Tcp
pub mod Udp
pub mod SharedMemory
pub mod Bits
pub mod Tests
