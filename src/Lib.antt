-- ===== src/Lib.antt =====
-- flowhunt-voicebot: the state that a deployment of the voice bot must not get wrong.
--
-- A call comes in over SIP or WebRTC. The audio of the caller is cut into turns, each turn becomes
-- an event for an agent, and the work is spread over processes by a queue. The parts below keep
-- their own state, and the API routes compose them; the parts meet in ids: a turn's id becomes the
-- id of a task event, the lease of a session names the process that may act for it, and a worker
-- owns a work item or a task event until its deadline.
--
--   Scaling.Envelope, Scaling.Queue   voicebot/scaling.py: WorkerQueueEnvelope, WorkerQueueStore and
--                                     the reload of JsonWorkerQueueStore, one function for each
--                                     method under its name (`get` is `find`)
--   AgentTasks                        voicebot/agent_tasks.py: AgentTaskTracker,
--                                     JsonAgentTaskTracker (save, load)
--   SessionLeases                     voicebot/session_leases.py: SessionLeaseStore (`get` is
--                                     `lookup`), the reload of JsonSessionLeaseStore
--   RealtimeAudio                     voicebot/realtime_audio.py: TurnDetector, AudioJitterBuffer,
--                                     DebugAudioCapture
--   Events, Events.Log                voicebot/events.py: EventStore, and the file of
--                                     JsonEventStore; voicebot/transcripts.py: TranscriptStore
--   Calls.Playback                    voicebot/calls.py: PlaybackBuffer
--   Calls.States, Calls.Registry      voicebot/call_state.py: CallStateStore and its reload;
--                                     voicebot/calls.py: CallRegistry
--   CallActor                         voicebot/call_actor.py: CallActorCoordinator
--   TurnCoalescing                    voicebot/turn_coalescing.py: TurnCoalescer
--   Scaling.Backpressure              voicebot/scaling.py: WorkspaceBackpressure
--   Subagents                         voicebot/subagents.py: SubagentTask, SubagentTaskStore
--   Subagents.Coordinator             voicebot/subagents.py: SubagentCoordinator, over the providers
--                                     and the events of Subagents.Effects
--   Subagents.Lifecycle               voicebot/task_lifecycle.py: the end of a task and its schedule
--   Subagents.Polling                 voicebot/task_lifecycle.py: tick with its polls and retries,
--                                     schedule_pending, cancel_session
--   SpeculativeTurns                  voicebot/speculative_turns.py: reconcile_final_request and
--                                     cancel_turn, with the candidates of a turn
--   Scaling.Registry                  voicebot/scaling.py: WorkerRegistry, the reload of
--                                     JsonWorkerRegistry
--   Scaling.Admission                 voicebot/scaling.py: admission_decision, WarmCapacityPolicy,
--                                     the count of active sessions
--   Conversation                      voicebot/conversation_flow.py: flows and their checks, the
--                                     engine (Engine), the two stores (Stores); Matching and
--                                     Progress say what an event does
--   Workspace                         voicebot/workspace_model.py: VoicebotStore, ChannelResolver,
--                                     PublicVoicebotRouteStore, VoicebotSessionStore
--   RoutingAdmission                  voicebot/routing_admission.py: the decision of an incoming
--                                     session; voicebot/workspace_access.py: the access policy
--   Base                              dictionaries in insertion order, results, texts
--   Tests                             the theorems at concrete inputs
--
-- A method is a function from the object's state to its result and the state it leaves. A call
-- that raises returns the error; the state is then the one before, where nothing was written.
-- Each method is one step, and the theorems are about calls that come one after another. The code
-- has locks for these methods, or for parts of them, in agent_tasks.py, call_actor.py,
-- call_state.py, calls.py, events.py, transcripts.py, turn_coalescing.py and speculative_turns.py,
-- but none in scaling.py, session_leases.py, subagents.py, workspace_model.py,
-- conversation_flow.py and task_lifecycle.py: what threads do to a store of these at the same
-- time, such as two sweeps that re-queue one item twice, is not modelled. Dictionaries are
-- association lists in the order of insertion. Instants and durations are natural numbers of
-- microseconds and are not negative; the clock is an argument. Every loop is over a list of the
-- state or counts down, so no fuel is needed.
--
-- An incoming call is routed by Workspace.Channels to a voicebot, admitted by RoutingAdmission,
-- which counts sessions by Scaling.Admission and takes a lease of SessionLeases, and then led
-- through the flow of Conversation.
--
-- A request for an agent's task goes to Subagents.Coordinator, which keeps it in the store of
-- Subagents and tells of it by events; Subagents.Polling asks its provider until it is over, and
-- SpeculativeTurns decides over requests that were made on partial transcripts. The answer comes
-- back as audio in Calls.Playback.
--
-- The providers of subagents are parameters that may answer any task or raise. So are the text of
-- an event in a summary and the file name of a transcript (EventTexts), the text of an exception
-- (Wording), and what regular expressions find in a transcript (TextTools). What numpy computes is
-- a parameter (Numbers): signal levels, their order, and the root mean square. So are `str.lower`,
-- and `str.format_map`, which may raise (TextOps). Not modelled: JSON text and files, threads and
-- sockets, counters of diagnostics, metrics, sorted listings and dictionaries for display, the
-- rounding of floating-point durations, and the parts that only call other services.
pub mod Base
pub mod Scaling
pub mod AgentTasks
pub mod SessionLeases
pub mod RealtimeAudio
pub mod CallActor
pub mod TurnCoalescing
pub mod Events
pub mod Calls
pub mod Conversation
pub mod RoutingAdmission
pub mod Workspace
pub mod Subagents
pub mod SpeculativeTurns
mod Tests
