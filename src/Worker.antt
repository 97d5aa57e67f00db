-- ===== src/Worker.antt =====
-- vee/worker.h: a worker thread with its queue of jobs, and a group of workers.
pub mod Task
pub mod System
pub mod Calm
pub mod Steps
pub mod Race
pub mod Group
