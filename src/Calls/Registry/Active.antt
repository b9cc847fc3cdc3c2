-- ===== src/Calls/Registry/Active.antt =====
-- The calls that the state store shows as active are the registered ones.
use flowhunt_voicebot.Base.{
  ℕ, ◌≡◌, refl, sym, ap, ◌∙◌, subst, String, true, List, [], ◌∷◌, All, is_some, text_key, ◌==◌,
  eq_iff, arith, after, Option-cases, Bool-cases, inl, inr,
}
use flowhunt_voicebot.Base.Dict
use flowhunt_voicebot.Base.Dict.{Dict}
use flowhunt_voicebot.Calls.States
use flowhunt_voicebot.Calls.States.{Snapshot, CallState, CallStateStore, upsert}
use flowhunt_voicebot.Calls.States.Active.{
  IsClean, is_active, upsert-active, end-active, end_ok, upsert_ok,
}
use flowhunt_voicebot.Calls.Registry.{
  CallRegistry, add, replace_id, remove, stop, snapshot, upsert_all, snapshots, upserted, then_goes,
}

pub data Call : Type 0 where
  adds : Snapshot → ℕ → Call
  replaces : String → Snapshot → ℕ → Call
  removes : String → ℕ → Call
  stops : String → ℕ → Call
  takes : String → ℕ → Call
  takes_all : ℕ → Call

unfoldable pub step : CallRegistry → Call → CallRegistry
unfolding add replace_id remove stop snapshot snapshots
step r (adds s now) = add r s now
step r (replaces old s now) = replace_id r old s now
step r (removes call_id now) = remove r call_id now
step r (stops call_id now) = (stop r call_id now).1
step r (takes call_id now) = (snapshot r call_id now).1
step r (takes_all now) = snapshots r now

unfoldable pub run : CallRegistry → List Call → CallRegistry
unfolding step
run r [] = r
run r (c ∷ cs) = run (step r c) cs

-- The ids that a call brings.
abbrev pub BringsClean : Call → Type 0
BringsClean (adds s now) = IsClean s.call_id
BringsClean (replaces old s now) = IsClean old × IsClean s.call_id
BringsClean (removes call_id now) = IsClean call_id
BringsClean (stops call_id now) = IsClean call_id
BringsClean (takes call_id now) = Unit
BringsClean (takes_all now) = Unit

-- An entry of the registry: a call under its id.
abbrev pub IsKeyed : String × Snapshot → Type 0
IsKeyed (id, c) = (c.call_id ≡ id) × IsClean id

-- Each call stands under its id, and those that the store shows as active are the registered ones.
pub record InStep (r : CallRegistry) : Type 0 where
  pub keyed : All IsKeyed r.calls
  pub same : (id : String) → is_active (Dict.get r.state_store id) ≡ Dict.has r.calls id

-- A snapshot of a call that is registered.
upserted-InStep :
    (r : CallRegistry) (c : Snapshot) (now : ℕ)
    → InStep r
    → IsClean c.call_id
    → Dict.has r.calls c.call_id ≡ true
    → InStep (upserted r c now)
upserted-InStep r c now h clean there = record {
  keyed = h.keyed;
  same = λ id.
      ground
        (arith, upsert-active r.state_store c now id clean, h.same id, there, eq_iff c.call_id id);
}

add-InStep :
    (r : CallRegistry) (c : Snapshot) (now : ℕ)
    → InStep r
    → IsClean c.call_id
    → InStep (add r c now)
unfolding add
add-InStep r c now h clean = record {
  keyed =
      Dict.All-put IsKeyed r.calls c.call_id c (λ j e. (sym e, subst IsClean (sym e) clean))
        h.keyed;
  same = λ id. ground (
    arith,
    upsert-active r.state_store c now id clean,
    h.same id,
    Dict.has-put r.calls c.call_id id c,
  );
}

remove-InStep :
    (r : CallRegistry) (call_id : String) (now : ℕ)
    → InStep r
    → IsClean call_id
    → InStep (remove r call_id now)
unfolding remove
remove-InStep r call_id now h clean = record {
  keyed = Dict.All-pop IsKeyed r.calls call_id h.keyed;
  same = λ id. ground (
    arith,
    end-active r.state_store call_id now id clean,
    h.same id,
    Dict.has-pop r.calls call_id id,
  );
}

replace_id-InStep :
    (r : CallRegistry) (old : String) (c : Snapshot) (now : ℕ)
    → InStep r
    → IsClean old
    → IsClean c.call_id
    → InStep (replace_id r old c now)
unfolding replace_id
replace_id-InStep r old c now h old_clean clean =
    let keyed =
      Dict.All-put IsKeyed (Dict.pop r.calls old) c.call_id c
        (λ j e. (sym e, subst IsClean (sym e) clean)) (Dict.All-pop IsKeyed r.calls old h.keyed) in
    elim (Bool-cases (old == c.call_id)) [
      | inl same_id ↦ rw same_id (record {
        keyed = keyed;
        same = λ id. ground (
          arith,
          upsert-active r.state_store c now id clean,
          h.same id,
          (eq_iff old c.call_id).0 same_id,
          Dict.has-put (Dict.pop r.calls old) c.call_id id c,
          Dict.has-pop r.calls old id,
        );
      })
      | inr other_id ↦
          let r' = record r { calls = Dict.put (Dict.pop r.calls old) c.call_id c } in
          let written =
            end_ok r.state_store old now (λ x. then_goes r' x λ q. upserted q c now)
              (λ s'. upserted (record r' { state_store = s' }) c now) (λ o s'. refl) old_clean in
          rw other_id (
            subst InStep (sym written) (record {
              keyed = keyed;
              same = λ id. ground (
                arith,
                upsert-active (after r.state_store (States.end r.state_store old now)) c now id
                    clean,
                end-active r.state_store old now id old_clean,
                h.same id,
                Dict.has-put (Dict.pop r.calls old) c.call_id id c,
                Dict.has-pop r.calls old id,
              );
            }))
    ]

stop-InStep :
    (r : CallRegistry) (call_id : String) (now : ℕ)
    → InStep r
    → IsClean call_id
    → InStep (stop r call_id now).1
unfolding stop
stop-InStep r call_id now h clean = elim (Option-cases (Dict.get r.calls call_id)) [
  | inl missing ↦ rw (missing, stop) h
  | inr (c, found) ↦ rw (found, stop) (remove-InStep r call_id now h clean)
]

snapshot-InStep :
    (r : CallRegistry) (call_id : String) (now : ℕ) → InStep r → InStep (snapshot r call_id now).1
unfolding snapshot Dict.has
snapshot-InStep r call_id now h = elim (Option-cases (Dict.get r.calls call_id)) [
  | inl missing ↦ rw (missing, snapshot) h
  | inr (c, found) ↦
      let (named, clean) = Dict.All-get IsKeyed r.calls call_id c found h.keyed in
      rw (found, snapshot)
        (upserted-InStep r c now h (subst IsClean (sym named) clean)
          (ap (λ k. Dict.has r.calls k) named ∙ ap is_some found))
]

-- The entries of a part of the registry are registered.
All-registered :
    (all d : Dict String Snapshot)
    → ((k : String) → Dict.has d k ≡ true → Dict.has all k ≡ true)
    → All IsKeyed d
    → All (λ e. IsKeyed e × (Dict.has all e.0 ≡ true)) d
unfolding Dict.has Dict.get
All-registered all [] within h = tt
All-registered all ((id, c) ∷ d) within h = (
  (h.0, within id (ground (arith, eq_iff id id))),
  All-registered all d (λ k there. within k (ground (arith, there))) h.1,
)

upsert_all-InStep :
    (r : CallRegistry) (d : Dict String Snapshot) (now : ℕ)
    → InStep r
    → All (λ e. IsKeyed e × (Dict.has r.calls e.0 ≡ true)) d
    → InStep (upsert_all r (Dict.values d) now)
unfolding upsert_all
upsert_all-InStep r [] now h all = h
upsert_all-InStep r ((id, c) ∷ d) now h (((named, clean), there), rest) =
    let has_text = subst IsClean (sym named) clean in
    let written =
      upsert_ok r.state_store c now (λ x. then_goes r x λ q. upsert_all q (Dict.values d) now)
        (λ s'. upsert_all (record r { state_store = s' }) (Dict.values d) now) (λ o s'. refl)
        has_text in
    subst InStep (sym written) (
      upsert_all-InStep (upserted r c now) d now
        (upserted-InStep r c now h has_text (ap (λ k. Dict.has r.calls k) named ∙ there)) rest)

step-InStep : (r : CallRegistry) (c : Call) → InStep r → BringsClean c → InStep (step r c)
unfolding step snapshots
step-InStep r (adds c now) h clean = add-InStep r c now h clean
step-InStep r (replaces old c now) h (old_clean, clean) =
    replace_id-InStep r old c now h old_clean clean
step-InStep r (removes call_id now) h clean = remove-InStep r call_id now h clean
step-InStep r (stops call_id now) h clean = stop-InStep r call_id now h clean
step-InStep r (takes call_id now) h clean = snapshot-InStep r call_id now h
step-InStep r (takes_all now) h clean =
    upsert_all-InStep r r.calls now h (All-registered r.calls r.calls (λ k there. there) h.keyed)

run_from-InStep :
    (r : CallRegistry) (cs : List Call) → InStep r → All BringsClean cs → InStep (run r cs)
unfolding run
run_from-InStep r [] h clean = h
run_from-InStep r (c ∷ cs) h clean =
    run_from-InStep (step r c) cs (step-InStep r c h clean.0) clean.1

abbrev pub new_registry : CallRegistry
new_registry = record { calls = []; state_store = [] }

-- After any registrations, changes of an id, removals, stops and snapshots, each one step, each call
-- stands under its id, and the calls that the state store shows as active are those that are
-- registered. Conditions: the ids that the calls bring have text and no space round it, and the id
-- and status of a session change only by these calls.
pub run-InStep : (cs : List Call) → All BringsClean cs → InStep (run new_registry cs)
unfolding Dict.has Dict.get
run-InStep cs clean =
    run_from-InStep new_registry cs (record { keyed = tt; same = λ id. refl }) clean
