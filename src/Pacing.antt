-- ===== src/Pacing.antt =====
-- pacing/: the pacer, which sends packets at the rate that the congestion controller allows.
pub mod Budget
pub mod Queue
pub mod Alr
pub mod Sender
mod Tests
