-- ===== src/Scaling/Backpressure.antt =====
-- `WorkspaceBackpressure` of voicebot/scaling.py: how much work each key may have under way.
use flowhunt_voicebot.Base.{
  ℕ, ◌+◌, ◌-◌, ◌≤◌, ◌≡◌, String, Bool, true, false, List, [], ◌∷◌, ltb, leb, if◌then◌else◌,
  or_default, text_key, is_blank, arith, eq_iff, Result, ok, raise_if, after, ◌>>◌,
}
use flowhunt_voicebot.Base.Dict
use flowhunt_voicebot.Base.Dict.{Dict}

pub record Backpressure : Type 0 where
  pub max_inflight : ℕ
  pub inflight_by_key : Dict String ℕ

-- `__post_init__`
unfoldable pub new_backpressure : ℕ → Dict String ℕ → Result Backpressure
new_backpressure max_inflight inflight_by_key = do
  raise_if (ltb max_inflight 1) "max_inflight must be greater than or equal to 1"
  ok (record { max_inflight = max_inflight; inflight_by_key = inflight_by_key })

-- `self.inflight_by_key.get(key, 0)`
abbrev pub inflight : Backpressure → String → ℕ
inflight b key = or_default (Dict.get b.inflight_by_key key) 0

unfoldable pub acquire_slot : Backpressure → String → Result (Bool × Backpressure)
acquire_slot b key = do
  raise_if (is_blank key) "backpressure key is required"
  if leb b.max_inflight (inflight b key)
      then ok (false, b)
      else ok
          (true, record b { inflight_by_key = Dict.put b.inflight_by_key key (inflight b key + 1) })

unfoldable pub release_slot : Backpressure → String → Result (Unit {0} × Backpressure)
release_slot b key = do
  raise_if (is_blank key) "backpressure key is required"
  if leb (inflight b key) 1
      then ok (tt, record b { inflight_by_key = Dict.pop b.inflight_by_key key })
      else ok
          (tt, record b { inflight_by_key = Dict.put b.inflight_by_key key (inflight b key - 1) })

pub data Call : Type 0 where
  acquires releases : String → Call

unfoldable pub step : Backpressure → Call → Backpressure
unfolding acquire_slot release_slot
step b (acquires key) = after b (acquire_slot b key)
step b (releases key) = after b (release_slot b key)

unfoldable pub after_calls : List Call → Backpressure → Backpressure
unfolding step
after_calls [] b = b
after_calls (c ∷ cs) b = after_calls cs (step b c)

-- No key has more under way than the limit.
abbrev pub IsBounded : Backpressure → Type 0
IsBounded b = (key : String) → inflight b key ≤ b.max_inflight

step-IsBounded_slots : (b : Backpressure) (c : Call) → IsBounded b → IsBounded (step b c)
unfolding step acquire_slot release_slot
step-IsBounded_slots b (acquires k) h = λ key.
    ground (arith, h key, Dict.get-put b.inflight_by_key k key (inflight b k + 1), eq_iff k key)
step-IsBounded_slots b (releases k) h = λ key. ground (
  arith,
  h key,
  Dict.get-put b.inflight_by_key k key (inflight b k - 1),
  Dict.get-pop b.inflight_by_key k key,
  eq_iff k key,
)

-- Whatever is acquired and released, with or without errors, in any order: if no key was over the
-- limit before, none is after.
pub after_calls-IsBounded :
    (cs : List Call) (b : Backpressure) → IsBounded b → IsBounded (after_calls cs b)
unfolding after_calls
after_calls-IsBounded [] b h = h
after_calls-IsBounded (c ∷ cs) b h =
    after_calls-IsBounded cs (step b c) (step-IsBounded_slots b c h)

-- A slot that was given and then released leaves the count of every key as it was.
release_slot-acquire_slot :
    (b b' : Backpressure) (k key : String)
    → acquire_slot b k ≡ ok (true, b')
    → inflight (after b' (release_slot b' k)) key ≡ inflight b key
unfolding acquire_slot release_slot
release_slot-acquire_slot b b' k key given = ground (
  arith,
  Dict.get-put b.inflight_by_key k key (inflight b k + 1),
  Dict.get-put b.inflight_by_key k k (inflight b k + 1),
  Dict.get-put b'.inflight_by_key k key (inflight b' k - 1),
  Dict.get-pop b'.inflight_by_key k key,
  eq_iff k key,
  eq_iff k k,
)
