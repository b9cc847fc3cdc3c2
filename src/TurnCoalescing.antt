-- ===== src/TurnCoalescing.antt =====
-- voicebot/turn_coalescing.py: short turns in quick succession are joined before the agent is
-- asked. The callbacks `can_delay_or_merge`, asked twice, and the clock are arguments; what is
-- emitted is a log. The timer's call of `flush` is one more call. Each call is one step here. In
-- the code a turn that cannot be delayed is flushed under the lock and emitted behind it, where
-- another call may come in between; such interleavings are not modelled.
pub mod Order
use flowhunt_voicebot.Base.{
  ℕ, zero, suc, ◌+◌, ◌-◌, ◌≤◌, max, String, Bool, true, false, not, ◌&&◌, ◌||◌, Option, none, some,
  List, [], ◌∷◌, ◌++◌, ltb, leb, eqb, if◌then◌else◌, text_key, ◌==◌, strip, ◌+s◌,
}
use Prim.Native.String

-- `len(text)`
unfoldable pub text_length : String → ℕ
text_length String.[] = 0
text_length (String.◌∷◌ c s) = suc (text_length s)

-- The fields of the request data that the code reads.
pub record TurnRequest : Type 0 where
  pub turn_id : Option ℕ
  pub transcript_event_id : Option ℕ
  pub text : Option String
  pub stale : Bool

pub record PendingTurn : Type 0 where
  pub turn_id : Option ℕ
  pub transcript_event_id : Option ℕ
  pub text : String
  pub created_at : ℕ

-- The arguments of `emit_request`, and of the `turn_coalesced` event that goes before a merge.
pub data Emission : Type 0 where
  passed : TurnRequest → Emission
  merged : PendingTurn → TurnRequest → String → Emission
  flushed : PendingTurn → String → Emission

pub record Coalescer : Type 0 where
  pub window : ℕ
  pub max_chars : ℕ
  pub pending : Option PendingTurn
  pub emitted : List Emission

unfoldable pub new_coalescer : ℕ → ℕ → Coalescer
new_coalescer window max_chars = record {
  window = window;
  max_chars = max 1 max_chars;
  pending = none;
  emitted = [];
}

unfoldable pub coalesce_text : String → String → String
coalesce_text previous current =
    let first = strip previous in
    let second = strip current in
    if first == "" then second else if second == "" then first else first +s (" " +s second)

abbrev pub emit : Coalescer → Emission → Coalescer
emit c e = record c { emitted = c.emitted ++ (e ∷ []) }

-- `flush`, `_flush_locked`
unfoldable pub flush : Coalescer → String → Coalescer
flush c reason = elim c.pending [
  | none ↦ c
  | some p ↦ emit (record c { pending = none }) (flushed p reason)
]

unfoldable pub can_coalesce_text : Coalescer → String → Bool
unfolding text_length
can_coalesce_text c text =
    ltb 0 c.window && (ltb 0 (text_length text) && leb (text_length text) c.max_chars)

-- `str(request_data.get("text") or "").strip()`
unfoldable pub request_text : TurnRequest → String
request_text r = elim r.text [ none ↦ "" | some t ↦ strip t ]

-- The turn waits for another one, after the one that waited is flushed.
unfoldable pub wait_for_more : Coalescer → TurnRequest → ℕ → Coalescer
wait_for_more c r now =
    let c' = flush c "superseded_by_new_pending" in
    record c' {
      pending = some (record {
        turn_id = r.turn_id;
        transcript_event_id = r.transcript_event_id;
        text = request_text r;
        created_at = now;
      });
    }

-- The monotonic clock does not run backwards, so `now - created_at` is not negative.
unfoldable pub merge_or_wait : Coalescer → TurnRequest → Bool → ℕ → Coalescer
merge_or_wait c r can_merge now = elim c.pending [
  | none ↦ wait_for_more c r now
  | some p ↦
      if leb (now - p.created_at) c.window && can_merge
      then emit (record c { pending = none }) (merged p r (coalesce_text p.text (request_text r)))
      else wait_for_more c r now
]

-- `handle`, with the two answers of `can_delay_or_merge`.
unfoldable pub handle : Coalescer → TurnRequest → Bool → Bool → ℕ → Coalescer
handle c r can_delay can_merge now =
    if not (can_coalesce_text c (request_text r)) || (r.stale || not can_delay)
    then emit (flush c "new_turn_not_delayable") (passed r)
    else merge_or_wait c r can_merge now
