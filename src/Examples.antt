-- ===== src/Examples.antt =====
-- The programs under examples/src that the repository runs on the simulated machine. Their
-- processes take turns in any order, a step at a time.
pub mod Semaphore
pub mod Buffer
pub mod BufferLaws
pub mod ProducerConsumer
pub mod Philosophers
