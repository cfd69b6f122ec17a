-- ===== src/Gc.antt =====
-- The epoch lock of gc/gc_lock.h and gc/gc_lock.cc.
pub mod Data
pub mod Threads
pub mod Deferred
pub mod System
pub mod Entry
mod Examples
