-- ===== src/SpeculativeTurns.antt =====
-- voicebot/speculative_turns.py: the candidates of a turn, which are subagent tasks that were
-- started on a partial transcript, and what becomes of them when the turn ends. The metrics,
-- which are taken not to raise, the instants and the fingerprints of results are left out. What `re`, `split` and `in` compute on
-- texts is a parameter; an event id is written in decimal by the caller.
pub mod Reconciling
pub mod Replacing
pub mod Closing
use flowhunt_voicebot.Base.{
  ℕ, ◌+◌, ◌*◌, String, Bool, true, false, not, ◌&&◌, ◌||◌, Option, none, some, List, [], ◌∷◌, ◌++◌,
  keep, any, length, leb, if◌then◌else◌, or_default, nat_key, text_key, ◌==◌, strip, Error, Result,
  ok, err,
}
use flowhunt_voicebot.Base.Dict
use flowhunt_voicebot.Base.Dict.{Dict}
use flowhunt_voicebot.Subagents.{Task, TaskStatus, completed, find_task}
use flowhunt_voicebot.Subagents.Effects.{Registered, World, Act, put_task}
use flowhunt_voicebot.Subagents.Coordinator.{
  with_metadata, confirm_speculative, cancel_speculative, mark_speculative_superseded,
}

pub data CandidateStatus : Type 0 where
  is_pending is_running is_completed is_confirmed is_cancelled is_superseded is_failed :
      CandidateStatus

pub data Decision : Type 0 where
  reuse wait supersede cancel : Decision

-- `StreamingRagCandidate`
pub record Candidate : Type 0 where
  pub call_id : String
  pub session_id : String
  pub turn_id : ℕ
  pub partial_event_id : ℕ
  pub task_id : String
  pub workspace_id : String
  pub voicebot_id : Option String
  pub provider : String
  pub source_text : String
  pub normalized_query : String
  pub query_hash : String
  pub status : CandidateStatus
  pub reflector_decision : Option Decision
  pub final_request_event_id : Option String

pub record Settings : Type 0 where
  pub streaming_rag_enabled : Bool
  pub speculative_work_enabled : Bool
  pub streaming_rag_reflector_mode : String

-- `_normalize`, `split`, `a in b`, and the search for one of the patterns.
pub record TextTools : Type 0 where
  pub normalize : String → String
  pub split : String → List String
  pub is_within : String → String → Bool
  pub has_pattern : String → Bool

-- An error that was caught: the action, the turn and the task that its event names.
pub record Failure : Type 0 where
  pub action : String
  pub turn_id : ℕ
  pub task_id : String
  pub error : Error

pub record Turns : Type 0 where
  pub by_turn : Dict ℕ (List Candidate)
  pub world : World
  pub failures : List Failure

abbrev pub is_open : CandidateStatus → Bool
is_open is_running = true
is_open is_completed = true
is_open is_pending = false
is_open is_confirmed = false
is_open is_cancelled = false
is_open is_superseded = false
is_open is_failed = false

abbrev pub is_usable : CandidateStatus → Bool
is_usable is_confirmed = true
is_usable s = is_open s

abbrev pub candidates_of : Turns → ℕ → List Candidate
candidates_of s turn_id = or_default (Dict.get s.by_turn turn_id) []

-- `candidates[index] = replacement` at the first with its task, or behind them all.
unfoldable pub replace_first : List Candidate → Candidate → List Candidate
replace_first [] r = r ∷ []
replace_first (c ∷ cs) r =
    let rest = replace_first cs r in if c.task_id == r.task_id then r ∷ cs else c ∷ rest

-- `_replace_candidate_locked`
unfoldable pub replace_candidate : Turns → Candidate → Turns
unfolding replace_first
replace_candidate s r = record s {
  by_turn = Dict.put s.by_turn r.turn_id (replace_first (candidates_of s r.turn_id) r);
}

abbrev pub kept_task : Task → World × Result Task → World × Task
kept_task t (w, ok u) = (w, u)
kept_task t (w, err e) = (w, t)

-- `_store_candidate_metadata`
unfoldable pub store_candidate_metadata : Task → Dict String String → ℕ → World → World × Task
unfolding with_metadata put_task
store_candidate_metadata t metadata now w = kept_task t (put_task (with_metadata t metadata now) w)

abbrev pub status_text : CandidateStatus → String
status_text is_superseded = "superseded"
status_text _ = "cancelled"

-- The words of a text, each once.
unfoldable pub word_set : List String → List String
word_set [] = []
word_set (w ∷ ws) = let rest = word_set ws in if any (λ v. v == w) ws then rest else w ∷ rest

module _ (tools : TextTools) where
  -- `_texts_match`; the overlap is a ratio of numbers of words.
  unfoldable pub texts_match : String → String → Bool
  unfolding word_set
  texts_match partial_text final_text =
      let partial = tools.normalize partial_text in
      let final = tools.normalize final_text in
      let partial_words = word_set (tools.split (tools.normalize partial)) in
      let final_words = word_set (tools.split (tools.normalize final)) in
      let shared = keep (λ w. any (λ v. v == w) final_words) partial_words in
      if partial == "" || final == ""
      then false
      else if tools.is_within partial final || tools.is_within final partial
      then true
      else if leb (length partial_words) 0 || leb (length final_words) 0
      then false
      else leb (3 * length partial_words) (4 * length shared)

  -- `looks_like_external_work_intent`
  unfoldable pub looks_like_external_work : String → Bool
  looks_like_external_work text =
      let normalized = tools.normalize text in
      not (normalized == "") && tools.has_pattern normalized

  abbrev pub is_task_completed : Option Task → Bool
  is_task_completed none = false
  is_task_completed (some t) = elim t.status [ completed ↦ true | _ ↦ false ]

  -- The loop of `_reflect`.
  unfoldable pub first_match : List Candidate → String → Option Candidate
  unfolding texts_match
  first_match [] final_text = none
  first_match (c ∷ cs) final_text =
      let later = first_match cs final_text in
      if is_usable c.status && texts_match c.source_text final_text then some c else later

  unfoldable pub reflect : Settings → World → List Candidate → String → Option Candidate × Decision
  unfolding first_match looks_like_external_work
  reflect settings w candidates final_text =
      let no_match : Option Candidate × Decision =
        (none, if looks_like_external_work final_text then supersede else cancel) in
      if strip settings.streaming_rag_reflector_mode == "disabled"
      then (none, cancel)
      else elim (first_match candidates final_text) [
        | none ↦ no_match
        | some c ↦ (
          some c,
          if is_task_completed (find_task w.store c.task_id (some c.workspace_id))
              then reuse
              else wait,
        )
      ]
