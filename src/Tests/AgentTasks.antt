-- ===== src/Tests/AgentTasks.antt =====
-- The task tracker on a few events.
use flowhunt_voicebot.Base.{
  ◌≡◌, refl, true, false, none, some, [], ◌∷◌, any, eqb, nat_key, text_key, arith, ◌+◌, take, drop,
  not, ◌||◌,
}
use flowhunt_voicebot.Base.Dict
use flowhunt_voicebot.Base.Dict.{Dict}
use flowhunt_voicebot.AgentTasks.{
  Tracker, mark_responded, is_pending, claim, expire_claims, claim_loop, is_taken,
}
use flowhunt_voicebot.AgentTasks.Responded.{
  marks, step, run, is_pending-mark_responded, IsBounded, step-IsBounded,
}
use flowhunt_voicebot.AgentTasks.Claims.{IsUnique, claim-claim}
use flowhunt_voicebot.AgentTasks.Persist.{
  load, save, carried, highest, is_answered, IsOrdered, load-save,
}

abbrev tracker : Tracker
tracker = record {
  max_responded_event_ids = 2;
  responded_event_ids = [];
  responded_order = [];
  floor = 0;
  claimed = (7, record { owner = "one"; expires_at = 100 }) ∷ [];
}

is_pending-mark_responded_example :
    (is_pending
      (run (mark_responded tracker (some 3)) (marks (some 4) ∷ marks (some 5) ∷ []))
      3
      none
      9).0
    ≡ false
is_pending-mark_responded_example =
    is_pending-mark_responded tracker 3 (marks (some 4) ∷ marks (some 5) ∷ []) none 9

step-IsBounded_example : IsBounded (step tracker (marks (some 3)))
step-IsBounded_example = step-IsBounded tracker (marks (some 3)) (omega arith)

tracker-IsUnique : IsUnique tracker
unfolding Dict.occurs
tracker-IsUnique = λ id. ground arith

given : any (λ i. eqb i 8) (claim tracker (8 ∷ []) "one" 1000000 0).0 ≡ true
unfolding claim expire_claims claim_loop is_taken Dict.has Dict.get Dict.put Dict.pop
given = refl

claim-claim_example :
    any
      (λ i. eqb i 8)
      (claim (claim tracker (8 ∷ []) "one" 1000000 0).1 (8 ∷ 9 ∷ []) "two" 1000000 999999).0
    ≡ false
claim-claim_example =
    claim-claim tracker (8 ∷ []) (8 ∷ 9 ∷ []) "one" "two" 1000000 1000000 0 999999 8
      tracker-IsUnique given (omega arith)

-- Three events were answered, of which the limit of the next process has room for two.
abbrev answered_tracker : Tracker
answered_tracker = record {
  max_responded_event_ids = 3;
  responded_event_ids = (4, tt) ∷ (6, tt) ∷ (5, tt) ∷ [];
  responded_order = 4 ∷ 6 ∷ 5 ∷ [];
  floor = 2;
  claimed = (7, record { owner = "one"; expires_at = 100 }) ∷ [];
}

answered-IsUnique : IsUnique answered_tracker
unfolding Dict.occurs
answered-IsUnique = λ id. ground arith

answered-IsOrdered : IsOrdered answered_tracker
unfolding Dict.has Dict.get
answered-IsOrdered = λ id h. ground (arith, h)

load-save_example :
    let t' = load 2 (5000 + 30) 0 (save 5000 60 answered_tracker).0 in
    (Dict.get t'.claimed 5 ≡ carried 60 0 30 (Dict.get answered_tracker.claimed 5))
    × (t'.responded_order ≡ drop 1 answered_tracker.responded_order)
    × (t'.floor ≡ highest 2 (take 1 answered_tracker.responded_order))
    × (not (is_answered answered_tracker 5) || is_answered t' 5 ≡ true)
load-save_example = load-save answered_tracker 2 5000 60 0 30 5 answered-IsUnique answered-IsOrdered
