-- ===== src/Scaling/Queue/Held.antt =====
-- The invariant of the worker queue through the calls of a worker that holds an item: renew, ack
-- and release.
use flowhunt_voicebot.Base.{
  ℕ, ◌+◌, ◌≡◌, sym, ◌∙◌, String, inl, inr, Option, some, text_key, if◌then◌else◌, Option-cases,
  eq_iff, arith, after,
}
use flowhunt_voicebot.Base.Dict
use flowhunt_voicebot.Base.Dict.{Dict}
use flowhunt_voicebot.Scaling.Queue.{
  Store, Claim, is_spent, renew, ack, give_back, release, forget_key, error_or,
}
use flowhunt_voicebot.Scaling.Queue.Invariant.{IsKeyed, WellFormed, one_if-le, settled-WellFormed}

-- A new deadline for a claim that is held.
renewed-WellFormed :
    (s : Store) (id : String) (c : Claim) (until : ℕ)
    → Dict.get s.claimed id ≡ some c
    → WellFormed s
    → WellFormed (record s { claimed = Dict.put s.claimed id (record c { expires_at = until }) })
renewed-WellFormed s id c until held w =
    let later : Claim = record c { expires_at = until } in
    record {
      single = λ j. ground (arith, w.single j, Dict.occurs-put_again s.claimed id j later c held);
      keyed =
          Dict.All-put IsKeyed s.claimed id later
            (λ j same. Dict.All-get IsKeyed s.claimed id c held w.keyed ∙ sym same) w.keyed;
    }

pub renew-WellFormed :
    (s : Store) (id owner : String) (ttl now : ℕ)
    → WellFormed s
    → WellFormed (after s (renew s id owner ttl now))
unfolding renew
renew-WellFormed s id owner ttl now w = elim (Option-cases (Dict.get s.claimed id)) [
  | inl free ↦ rw (free, renew) (ground arith)
  | inr (c, held) ↦ rw (held, renew) (ground (arith, renewed-WellFormed s id c (now + ttl) held w))
]

acked-WellFormed :
    (s : Store) (id : String) (c : Claim) (keys : Dict String String)
    → Dict.get s.claimed id ≡ some c
    → WellFormed s
    → WellFormed (record s {
      claimed = Dict.pop s.claimed id;
      known_item_ids = Dict.pop s.known_item_ids id;
      known_idempotency_keys = keys;
    })
acked-WellFormed s id c keys held w = record {
  single = λ j. ground (
    arith,
    w.single j,
    one_if-le (Dict.has s.known_item_ids j),
    Dict.occurs-pop s.claimed id j,
    Dict.has-pop s.known_item_ids id j,
    Dict.occurs-pos_of_get s.claimed id c held,
    eq_iff id j,
  );
  keyed = Dict.All-pop IsKeyed s.claimed id w.keyed;
}

pub ack-WellFormed :
    (s : Store) (id : String) (owner : Option String) → WellFormed s → WellFormed (ack s id owner).1
unfolding ack
ack-WellFormed s id owner w = elim (Option-cases (Dict.get s.claimed id)) [
  | inl free ↦ rw (free, ack) w
  | inr (c, held) ↦
      rw (held, ack)
        (ground (
          arith,
          acked-WellFormed s id c (forget_key c.item.idempotency_key s.known_idempotency_keys) held
              w,
        ))
]

pub release-WellFormed :
    (s : Store) (id : String) (owner error : Option String) (now : ℕ)
    → WellFormed s
    → WellFormed (release s id owner error now).1
unfolding release give_back
release-WellFormed s id owner error now w = elim (Option-cases (Dict.get s.claimed id)) [
  | inl free ↦ rw (free, release) w
  | inr (c, held) ↦
      let updated = record (c.item) { last_error = error_or error c.item.last_error } in
      let failed = record updated { failed_at = some now } in
      let dead = is_spent updated in
      let same = Dict.All-get IsKeyed s.claimed id c held w.keyed in
      let there = Dict.occurs-pos_of_get s.claimed id c held in
      rw (held, release)
        (ground (
          arith,
          settled-WellFormed s id (if dead then failed else updated) dead (ground arith) there w,
        ))
]
