-- ===== src/Tests.antt =====
-- Runs of the code at concrete inputs, and the theorems at inputs that meet their hypotheses.
mod Lock
mod Queue
mod AtQueue
mod Pooled
mod Delegates
mod Integers
mod Texts
mod Groups
mod Streams
mod Threads
mod Bits
mod Servers
mod Pairs
