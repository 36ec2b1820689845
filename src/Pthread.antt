-- ===== src/Pthread.antt =====
-- libc/src/pthread: locks on a futex word. Threads are interleaved in any order, one atomic
-- operation or system call at a time.
pub mod Mutex
pub mod Once
pub mod Cond
