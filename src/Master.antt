-- ===== src/Master.antt =====
-- src/ptp_client/ptp/l2master: the layer-2 grandmaster.
pub mod Messages
pub mod Transport
pub mod Session
pub mod Scheduler
pub mod Config
pub mod Node
pub mod Receive
pub mod Transmit
pub mod Loop
pub mod Run
