-- ===== src/Lockfree.antt =====
-- vee/lockfree: the ring of cells and flags, and the queue and the stack that keep the numbers of
-- their free blocks in it.
pub mod AtQueue
pub mod Blocks
pub mod Queue
pub mod Stack
pub mod Threads
pub mod Pair
