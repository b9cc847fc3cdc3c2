-- ===== src/Calls/States/Active.antt =====
-- What an update and an end change in which calls are active.
use flowhunt_voicebot.Base.{
  ℕ, ◌≡◌, String, Bool, true, false, not, ◌&&◌, ◌||◌, Option, none, some, text_key, ◌==◌, eq_iff,
  strip, is_blank, arith, after, ok, Result, Option-cases, inl, inr,
}
use flowhunt_voicebot.Base.Dict
use flowhunt_voicebot.Base.Dict.{Dict}
use flowhunt_voicebot.Calls.States
use flowhunt_voicebot.Calls.States.{Snapshot, CallState, CallStateStore, upsert}

-- An id that has text and no space round it.
abbrev pub IsClean : String → Type 0
IsClean id = (strip id ≡ id) × (is_blank id ≡ false)

abbrev pub is_active : Option CallState → Bool
is_active none = false
is_active (some c) = not c.is_ended

pub upsert-active :
    (s : CallStateStore) (c : Snapshot) (now : ℕ) (id : String)
    → IsClean c.call_id
    → is_active (Dict.get (after s (upsert s c now)) id)
      ≡ ((c.call_id == id) || is_active (Dict.get s id))
unfolding upsert
upsert-active s c now id clean =
    rw (clean.1, clean.0)
      (ground (
        arith,
        Dict.get-put s c.call_id id (record {
          call_id = c.call_id;
          values = c.values;
          is_ended = false;
          ended_at = none;
          updated_at = now;
        }),
        eq_iff c.call_id id,
      ))

pub end-active :
    (s : CallStateStore) (call_id : String) (now : ℕ) (id : String)
    → IsClean call_id
    → is_active (Dict.get (after s (States.end s call_id now)) id)
      ≡ (not (call_id == id) && is_active (Dict.get s id))
unfolding States.end
end-active s call_id now id clean = elim (Option-cases (Dict.get s call_id)) [
  | inl missing ↦ rw (clean.1, clean.0, missing) (ground (arith, missing, eq_iff call_id id))
  | inr (c, found) ↦
      rw (clean.1, clean.0, found)
        (ground (
          arith,
          found,
          Dict.get-put s call_id id
              (record c { is_ended = true; ended_at = some now; updated_at = now }),
          eq_iff call_id id,
        ))
]

-- Neither raises for an id that has text.
pub end_ok :
    {A : Type 0} (s : CallStateStore) (call_id : String) (now : ℕ)
    (P : Result (Option CallState × CallStateStore) → A) (Q : CallStateStore → A)
    → ((o : Option CallState) (s' : CallStateStore) → P (ok (o, s')) ≡ Q s')
    → IsClean call_id
    → P (States.end s call_id now) ≡ Q (after s (States.end s call_id now))
unfolding States.end
end_ok s call_id now P Q h clean = elim (Option-cases (Dict.get s call_id)) [
  | inl missing ↦ rw (clean.1, clean.0, missing) (h none s)
  | inr (c, found) ↦
      let ended = record c { is_ended = true; ended_at = some now; updated_at = now } in
      rw (clean.1, clean.0, found) (h (some ended) (Dict.put s (strip call_id) ended))
]

pub upsert_ok :
    {A : Type 0} (s : CallStateStore) (c : Snapshot) (now : ℕ)
    (P : Result (CallState × CallStateStore) → A) (Q : CallStateStore → A)
    → ((o : CallState) (s' : CallStateStore) → P (ok (o, s')) ≡ Q s')
    → IsClean c.call_id
    → P (upsert s c now) ≡ Q (after s (upsert s c now))
unfolding upsert
upsert_ok s c now P Q h clean = rw (clean.1, clean.0) (h _ _)
