-- ===== src/Calls.antt =====
-- voicebot/calls.py: the parts of a call session that keep state of their own.
pub mod Playback
pub mod States
pub mod Registry
