-- ===== src/CallActor/Generations.antt =====
-- Cancellation generations: what tells a signal from before a cancellation from a later one.
use flowhunt_voicebot.Base.{
  ℕ, String, ◌+◌, ◌-◌, ◌≡◌, refl, ap, ◌∙◌, subst, inl, inr, Bool, true, false, Option, none, some,
  List, [], ◌∷◌, if◌then◌else◌, Bool-cases, Option-cases, ltb, arith,
}
use flowhunt_voicebot.Base.Dict
use flowhunt_voicebot.Base.Dict.{Dict}
use flowhunt_voicebot.CallActor.{
  ActorLane, ActorSignalType, lane_key, same_lane, same_lane_iff, is_queued, is_started,
  is_completed, is_cancelled, LaneState, Coordinator, Stamp, update_call_id, queued, started,
  completed, cancel, on_lane, record_signal,
}

pub data Call : Type 0 where
  queues starts completes cancels : ActorLane → Stamp → Call
  renames : String → Call

unfoldable pub step : Coordinator → Call → Coordinator
step c (queues lane stamp) = (queued c lane stamp).0
step c (starts lane stamp) = (started c lane stamp).0
step c (completes lane stamp) = (completed c lane stamp).0
step c (cancels lane stamp) = (cancel c lane stamp).0
step c (renames call_id) = update_call_id c call_id

unfoldable pub run : Coordinator → List Call → Coordinator
unfolding step
run c [] = c
run c (x ∷ xs) = run (step c x) xs

-- The cancellations of a lane among some calls.
unfoldable pub cancellations : ActorLane → List Call → ℕ
cancellations lane [] = 0
cancellations lane (cancels other stamp ∷ xs) =
    (if same_lane other lane then 1 else 0) + cancellations lane xs
cancellations lane (_ ∷ xs) = cancellations lane xs

-- The generation of a lane, if the call has that lane.
unfoldable pub generation : Coordinator → ActorLane → Option ℕ
generation c lane = elim (Dict.get c.lanes lane) [
  | none ↦ none
  | some s ↦ some s.cancellation_generation
]

abbrev pub plus : Option ℕ → ℕ → Option ℕ
plus none n = none
plus (some g) n = some (g + n)

abbrev cancels_of : ActorLane → Call → ℕ
cancels_of lane (cancels other stamp) = if same_lane other lane then 1 else 0
cancels_of lane _ = 0

plus_zero : (g : Option ℕ) → g ≡ plus g 0
plus_zero none = refl
plus_zero (some n) = ground arith

plus-plus :
    (g : Option ℕ) (x : Call) (xs : List Call) (lane : ActorLane)
    → plus (plus g (cancels_of lane x)) (cancellations lane xs)
      ≡ plus g (cancellations lane (x ∷ xs))
unfolding cancellations
plus-plus g x xs lane = ground arith

-- A signal changes the generation of its own lane only, and as its method does.
generation-on_lane :
    (c : Coordinator) (other : ActorLane) (type : ActorSignalType) (change : LaneState → LaneState)
    (stamp : Stamp) (n : ℕ) (lane : ActorLane)
    → ((s : LaneState) → (change s).cancellation_generation ≡ s.cancellation_generation + n)
    → generation (on_lane c other type change stamp).0 lane
      ≡ plus (generation c lane) (if same_lane other lane then n else 0)
unfolding generation on_lane
generation-on_lane c other type change stamp n lane law =
    elim (Option-cases (Dict.get c.lanes other)) [
      | inl missing ↦
          rw (missing, on_lane)
            (elim (Bool-cases (same_lane other lane)) [
              | inl e ↦
                  let here =
                    subst (λ l. Dict.get c.lanes l ≡ none) ((same_lane_iff other lane).0 e)
                      missing in
                  ground (arith, here)
              | inr e ↦ ground arith
            ])
      | inr (s, found) ↦
          rw (found, on_lane)
            (ground (
              arith,
              law s,
              Dict.get-put c.lanes other lane (record (change s) {
                last_signal = some (record_signal c other type (change s) stamp).1;
              }),
              same_lane_iff other lane,
            ))
    ]

generation-renamed :
    (c : Coordinator) (call_id : String) (lane : ActorLane)
    → generation (update_call_id c call_id) lane ≡ generation c lane
unfolding generation update_call_id
generation-renamed c call_id lane = refl

if_same : (b : Bool) → ◌≡◌ {A = ℕ} (if b then 0 else 0) 0
if_same true = refl
if_same false = refl

generation-step :
    (c : Coordinator) (x : Call) (lane : ActorLane)
    → generation (step c x) lane ≡ plus (generation c lane) (cancels_of lane x)
unfolding step queued started completed cancel
generation-step c (queues other stamp) lane =
    generation-on_lane c other is_queued (λ s. record s { queued = s.queued + 1 }) stamp 0 lane
      (λ s. omega arith)
    ∙ ap (plus (generation c lane)) (if_same (same_lane other lane))
generation-step c (starts other stamp) lane =
    generation-on_lane c other is_started
      (λ s. record s {
        queued = if ltb 0 s.queued then s.queued - 1 else s.queued;
        active = s.active + 1;
      })
      stamp 0 lane (λ s. omega arith)
    ∙ ap (plus (generation c lane)) (if_same (same_lane other lane))
generation-step c (completes other stamp) lane =
    generation-on_lane c other is_completed
      (λ s. record s { active = if ltb 0 s.active then s.active - 1 else s.active }) stamp 0 lane
      (λ s. omega arith)
    ∙ ap (plus (generation c lane)) (if_same (same_lane other lane))
generation-step c (cancels other stamp) lane =
    generation-on_lane c other is_cancelled
      (λ s. record s {
        queued = 0;
        active = 0;
        cancellation_generation = s.cancellation_generation + 1;
      })
      stamp 1 lane (λ s. refl)
generation-step c (renames call_id) lane =
    generation-renamed c call_id lane ∙ plus_zero (generation c lane)

-- After any calls, the generation of a lane is what it was before plus the number of times that
-- this lane, and no other, was cancelled; a call that lacks the lane still lacks it.
pub generation-run :
    (c : Coordinator) (xs : List Call) (lane : ActorLane)
    → generation (run c xs) lane ≡ plus (generation c lane) (cancellations lane xs)
unfolding run cancellations
generation-run c [] lane = plus_zero (generation c lane)
generation-run c (x ∷ xs) lane =
    generation-run (step c x) xs lane
    ∙ ap (λ g. plus g (cancellations lane xs)) (generation-step c x lane)
    ∙ plus-plus (generation c lane) x xs lane
