-- ===== src/PoolProxy.antt =====
-- matsko/33_proxy_with_thread_pool: the caching proxy with a pool of poll threads.
pub mod PollTable
pub mod TaskQueue
pub mod Slots
pub mod Record
pub mod World
pub mod Response
pub mod Transfer
pub mod Cleanup
pub mod Admission
pub mod Request
pub mod Loop
