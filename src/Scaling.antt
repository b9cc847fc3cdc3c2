-- ===== src/Scaling.antt =====
-- voicebot/scaling.py: work items, the worker queue and backpressure. Times are instants in
-- microseconds.
pub mod Envelope
pub mod Queue
pub mod Backpressure
pub mod Admission
pub mod Registry
