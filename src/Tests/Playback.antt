-- ===== src/Tests/Playback.antt =====
-- Two items, a packet over the end of the first, and an interruption.
use flowhunt_voicebot.Base.{ℕ, ◌≡◌, List, [], ◌∷◌, ◌++◌}
use flowhunt_voicebot.Calls.Playback.{PlaybackBuffer, new_buffer, next_packet, enqueue}
use flowhunt_voicebot.Calls.Playback.Order.{
  Call, enqueues, plays, interrupts, enqueued, gone, pending, heard, run, IsPlayed, run-gone,
}

abbrev silence : ℕ
silence = 0

abbrev playback_calls : List (Call silence)
playback_calls =
    enqueues (1 ∷ 2 ∷ 3 ∷ []) [] ∷ plays 2 ∷ enqueues (4 ∷ []) [] ∷ plays 2 ∷ interrupts ∷ []

abbrev one_item : PlaybackBuffer ℕ
one_item = (enqueue new_buffer (5 ∷ []) []).1

run-gone_example :
    (enqueued silence playback_calls
      ≡ gone silence new_buffer playback_calls ++ pending (run 0 new_buffer playback_calls))
    × IsPlayed silence 2 (pending one_item) (heard one_item 2) (next_packet silence one_item 2)
run-gone_example = run-gone silence playback_calls one_item 2
