-- ===== src/Workspace.antt =====
-- voicebot/workspace_model.py: what belongs to which workspace. The metadata of an object are
-- texts; a kind or status outside its `Literal` cannot be written here.
pub mod Voicebots
pub mod Channels
pub mod Routes
pub mod Sessions
