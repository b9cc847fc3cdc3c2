-- ===== src/RealtimeAudio.antt =====
-- voicebot/realtime_audio.py: turn detection, the jitter buffer and the debug capture; the
-- trimming of silence and the conversion of chunks are not modelled. Samples and levels are floating point numbers of numpy, a parameter with
-- the operations that the code uses. Milliseconds of a block are computed exactly, where the code
-- rounds through floats; seconds are given in whole milliseconds.
pub mod Audio
pub mod TurnDetector
pub mod Jitter
