-- ===== src/Lib.antt =====
-- cpp-infra: infrastructure components of a C and C++ server, modelled and verified.
--
-- The repository is a set of components that a server is built from, one per directory, most of
-- them independent of each other: timers (timer/), queues between threads (free_queue/, threadpool/),
-- the buffer of a connection (network_buffer_design/), an event loop with connections (network_timer/),
-- memory pools (mempool/), a connection pool, and programs that run them. Each component modelled here is a file and a directory of the same name:
-- the file holds the state and the operations, the directory the proofs and, in Tests, their runs.
--
-- Common.antt: the names that the components share: lists, Boolean tests and Option over the native
--   numbers, the signed integers, and sums.
-- Timewheel.antt: timer/timewheel.c, a timing wheel of one list of 256 near slots and four levels of 64
--   slots (add_node, move_list, timer_shift, timer_execute, timer_update, add_timer, del_timer, expire_timer,
--   clear_timer). A linked list is a list of its nodes, a level an array as a function of its index. The
--   functions run under a spinlock and are atomic; the lock is free while the callbacks run, and what
--   is called then, by the callbacks and by other threads, is a parameter of the model. The clock is
--   a parameter. Distance, Valid, Shift, Execute, Keeps and Update are about the state, Fires, Calls and Stuck
--   about when a timer is called.
-- ClockTimer.antt: timer/clock-timer.c, a wheel of 60 seconds, 60 minutes and 12 hours, after the same
--   pattern. Its theorems ask that the clock, which counts seconds, stays below 2 ^ 31.
-- MmPool.antt: mempool/mm_pool_.c, a memory pool. Pointers are addresses; posix_memalign and malloc are
--   parameters. Packed has the invariant, Walk the loops, Block the blocks of the nodes, Alloc and Overrun the
--   allocation.
-- MinHeap.antt: timer/minheap.c, a binary heap of timer entries that know their index. An array is a
--   function with the capacity as its bound, the fields of the entries are functions of the entry. realloc
--   is a parameter. Order has the order with a hole, Places the agreement of array and indices, Move one
--   round of a loop, Up, Down and Place the loops, the other files one operation each.
-- RingBuffer.antt: free_queue/ringbuffer.h, a ring for one producer and one consumer. RingBuffer.Spsc
--   has Push and Pop as sequences of single accesses that interleave, under sequential consistency.
-- BlockingQueue.antt: threadpool/blockingqueue.h (mysqlconnpool/BlockingQueue.h is the same), the classes
--   BlockingQueue and BlockingQueuePro. ProducerConsumerQueue.antt: free_queue/ProducerConsumerQueue.h.
--   In both, what a thread does under a mutex is one step, a wait is a step that needs its condition,
--   and the steps of any number of threads interleave in any order. Notifications are not modelled:
--   nothing is stated on when a wait ends.
-- LockedQueue.antt: free_queue/LockedQueue.h, where the state of the mutex is a field, since peek may
--   return with the mutex held.
-- ThreadPool.antt: threadpool/threadpool.cc, workers that run the tasks of a BlockingQueue. Tasks, and other
--   threads, may post at any time, also while the destructor waits. Tasks has what becomes of each task.
-- MpscQueue.antt: MPSCQueueNonIntrusive of free_queue/MPSCQueue.h, as the atomic accesses of its threads, under
--   sequential consistency. Invariant has the order of the nodes, Exchange, Link and Dequeue the steps
--   that keep it.
-- SharedPtr.antt: atomic_lock/shared_ptr.h, over a store of handles, counters and objects. Count counts the
--   owners, Release, Share and Construct are what the operations are made of.
-- TimerMap.antt: network_timer/Timer.h, the timers of the event loop as the list of a multimap. The clock and
--   the callbacks are parameters.
-- TimerSet.antt: the class Timer of timer/timer.cc, the timers of one thread as the list of a set, after the
--   same pattern.
-- TcpConnection.antt: network_timer/TcpConnection.cc, a connection over MessageBuffer. ::send, readv and the
--   requests of the read callback are given with each call. Output and Drain have what waits to be sent,
--   Stream all runs, Stale one event.
-- MessageBuffer.antt: network_buffer_design/MessageBuffer.h (network_timer/MessageBuffer.h is the same
--   class), a receive buffer. readv is a parameter.
--
-- Bounds and fuel. Integers of 32 and 64 bits are natural numbers, and where the code may wrap around the
-- remainder is written out; theorems with a bound on a size say so. `none` is an access outside an
-- array or buffer, an exception of the vector in MessageBuffer, or a loop without fuel. The loops of the heap have as much fuel as the heap has
-- slots: a hole that moves up has an index that falls, one that moves down an index that rises. The loop of
-- GetDataUntilCRLF and the others run on the number of rounds that the code computes, or on the list that
-- they consume.
--
-- Not modelled: the third-party code kept in the repository (fmt, the DPDK ring, the Workflow message queue,
-- the nginx red-black tree, the LevelDB skip list, the TrinityCore database layer, the skynet spinlock);
-- the programs that only print; sockets and epoll; the weak memory orders of the atomics; the moments at
-- which condition variables wake threads; and the components timer/mh-timer.h, timer/skiplist.c,
-- mempool/mm_pool.c, mempool/mem_pool.c, MPSCQueueIntrusive and the destructor of
-- MPSCQueueNonIntrusive in free_queue/MPSCQueue.h, mysqlconnpool/ and timer/rbt-timer.h.
pub mod BlockingQueue
pub mod ClockTimer
pub mod Common
pub mod LockedQueue
pub mod MessageBuffer
pub mod MinHeap
pub mod MmPool
pub mod MpscQueue
pub mod ProducerConsumerQueue
pub mod RingBuffer
pub mod SharedPtr
pub mod TcpConnection
pub mod ThreadPool
pub mod TimerMap
pub mod TimerSet
pub mod Timewheel
