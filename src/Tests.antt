-- ===== src/Tests.antt =====
-- The theorems at concrete inputs.
mod Queue
mod AgentTasks
mod SessionLeases
mod RealtimeAudio
mod Calls
mod Subagents
mod Backpressure
mod Conversation
mod Registry
mod Workspace
mod Routing
mod Events
mod Playback
mod Coordinator
mod CallRegistry
mod Polling
mod SpeculativeTurns
