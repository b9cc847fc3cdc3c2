-- ===== src/CallActor.antt =====
-- voicebot/call_actor.py: the lanes of one call, with what is queued and active on each. A fresh
-- signal id and the clock's instant are arguments; the lock makes each method one step.
pub mod Generations
use flowhunt_voicebot.Base.{
  ℕ, ◌+◌, ◌-◌, ◌≡◌, ◌↔◌, String, Bool, true, false, Option, none, some, List, [], ◌∷◌, ltb, eqb,
  eqb_iff, if◌then◌else◌, Key, arith, Result, ok, err, value_error,
}
use flowhunt_voicebot.Base.Dict
use flowhunt_voicebot.Base.Dict.{Dict}

pub data ActorLane : Type 0 where
  audio_input stt agent tts_playback control background : ActorLane

abbrev lane_index : ActorLane → ℕ
lane_index audio_input = 0
lane_index stt = 1
lane_index agent = 2
lane_index tts_playback = 3
lane_index control = 4
lane_index background = 5

abbrev pub same_lane : ActorLane → ActorLane → Bool
same_lane a b = eqb (lane_index a) (lane_index b)

pub same_lane_iff : (a b : ActorLane) → (same_lane a b ≡ true) ↔ (a ≡ b)
same_lane_iff a b = ground arith

instance abbrev pub lane_key : Key ActorLane
lane_key = record { beq = same_lane; beq_iff = same_lane_iff }

pub data ActorSignalType : Type 0 where
  is_queued is_started is_completed is_cancelled : ActorSignalType

pub record ActorSignal : Type 0 where
  pub signal_id : String
  pub call_id : String
  pub lane : ActorLane
  pub type : ActorSignalType
  pub reason : String
  pub correlation_id : Option String
  pub created_at : ℕ
  pub generation : ℕ

pub record LaneState : Type 0 where
  pub queued : ℕ
  pub active : ℕ
  pub cancellation_generation : ℕ
  pub last_signal : Option ActorSignal

pub record Coordinator : Type 0 where
  pub call_id : String
  pub lanes : Dict ActorLane LaneState

abbrev pub fresh_lane : LaneState
fresh_lane = record { queued = 0; active = 0; cancellation_generation = 0; last_signal = none }

unfoldable pub lane_states : List ActorLane → Dict ActorLane LaneState → Dict ActorLane LaneState
lane_states [] d = d
lane_states (lane ∷ lanes) d = lane_states lanes (Dict.put d lane fresh_lane)

unfoldable pub new_coordinator : String → List ActorLane → Coordinator
unfolding lane_states
new_coordinator call_id lanes = record { call_id = call_id; lanes = lane_states lanes [] }

abbrev pub default_lanes : List ActorLane
default_lanes = audio_input ∷ stt ∷ agent ∷ tts_playback ∷ control ∷ background ∷ []

unfoldable pub update_call_id : Coordinator → String → Coordinator
update_call_id c call_id = record c { call_id = call_id }

-- What a signal carries besides its lane and type.
pub record Stamp : Type 0 where
  pub signal_id : String
  pub created_at : ℕ
  pub reason : String
  pub correlation_id : Option String

-- `_record_locked`, on the state that the method has changed.
unfoldable pub record_signal :
    Coordinator → ActorLane → ActorSignalType → LaneState → Stamp → Coordinator × ActorSignal
record_signal c lane type state stamp =
    let signal : ActorSignal = record {
      signal_id = stamp.signal_id;
      call_id = c.call_id;
      lane = lane;
      type = type;
      reason = stamp.reason;
      correlation_id = stamp.correlation_id;
      created_at = stamp.created_at;
      generation = state.cancellation_generation;
    } in
    let state' = record state { last_signal = some signal } in
    (record c { lanes = Dict.put c.lanes lane state' }, signal)

-- `_state`, then a change of the lane and its signal.
unfoldable pub on_lane :
    Coordinator
    → ActorLane
    → ActorSignalType
    → (LaneState → LaneState)
    → Stamp
    → Coordinator × Result ActorSignal
unfolding record_signal
on_lane c lane type change stamp = elim (Dict.get c.lanes lane) [
  | none ↦ (c, err (value_error "unknown actor lane"))
  | some state ↦
      let (c', signal) = record_signal c lane type (change state) stamp in (c', ok signal)
]

unfoldable pub queued : Coordinator → ActorLane → Stamp → Coordinator × Result ActorSignal
unfolding on_lane
queued c lane stamp = on_lane c lane is_queued (λ s. record s { queued = s.queued + 1 }) stamp

unfoldable pub started : Coordinator → ActorLane → Stamp → Coordinator × Result ActorSignal
unfolding on_lane
started c lane stamp =
    on_lane c lane is_started
      (λ s. record s {
        queued = if ltb 0 s.queued then s.queued - 1 else s.queued;
        active = s.active + 1;
      })
      stamp

unfoldable pub completed : Coordinator → ActorLane → Stamp → Coordinator × Result ActorSignal
unfolding on_lane
completed c lane stamp =
    on_lane c lane is_completed
      (λ s. record s { active = if ltb 0 s.active then s.active - 1 else s.active }) stamp

unfoldable pub cancel : Coordinator → ActorLane → Stamp → Coordinator × Result ActorSignal
unfolding on_lane
cancel c lane stamp =
    on_lane c lane is_cancelled
      (λ s. record s {
        queued = 0;
        active = 0;
        cancellation_generation = s.cancellation_generation + 1;
      })
      stamp

-- One lane after the other; a lane that raises ends the call, after what was cancelled before it.
unfoldable pub cancel_many :
    Coordinator → List (ActorLane × Stamp) → Coordinator × Result (List ActorSignal)
cancel_many c [] = (c, ok [])
cancel_many c ((lane, stamp) ∷ rest) =
    let (c', r) = cancel c lane stamp in
    let (c'', rs) = cancel_many c' rest in
    elim r [
      | err e ↦ (c', err e)
      | ok signal ↦ (c'', elim rs [ err e ↦ err e | ok signals ↦ ok (signal ∷ signals) ])
    ]
