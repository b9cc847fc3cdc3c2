-- ===== src/SessionLeases/Ownership.antt =====
-- One owner at a time: what `acquire`, `renew` and `get` do to a lease.
use flowhunt_voicebot.Base.{
  ℕ, ◌+◌, ◌≤◌, ◌<◌, ◌≡◌, ◌≢◌, ap, ◌∙◌, String, none, some, [], text_key, if◌then◌else◌, eq_iff,
  arith, ltb, Result, ok, err, ◌==◌, or_default, ◌>>=◌,
}
use flowhunt_voicebot.Base.Dict
use flowhunt_voicebot.Base.Dict.{Dict}
use flowhunt_voicebot.Base.Sweep.{get-sweep, occurs-sweep-le, survives}
use flowhunt_voicebot.SessionLeases.{
  SessionLease, Store, Request, key_of, make_lease, is_expired, expire, new_lease, acquire, renew,
  lookup,
}

abbrev pub IsUnique : Store → Type 0
IsUnique s = (k : String) → Dict.occurs s k ≤ 1

get-expire :
    (s : Store) (now : ℕ) (k : String)
    → IsUnique s
    → Dict.get (expire s now).1 k ≡ survives (is_expired now) (Dict.get s k)
unfolding expire
get-expire s now k u = get-sweep (is_expired now) s k (u k)

expire-IsUnique : (s : Store) (now : ℕ) → IsUnique s → IsUnique (expire s now).1
unfolding expire
expire-IsUnique s now u k = occurs-sweep-le (is_expired now) s k (u k)

get-expire_live :
    (s : Store) (now : ℕ) (k : String) (l : SessionLease)
    → IsUnique s
    → Dict.get s k ≡ some l
    → now < l.expires_at
    → Dict.get (expire s now).1 k ≡ some l
get-expire_live s now k l u held live = get-expire s now k u ∙ rw held (ground arith)

-- A live lease of another owner is respected: `acquire` with a positive ttl and `renew` both
-- return no lease, and leave the other owner's lease as it stands.
pub acquire-foreign :
    (s : Store) (r : Request) (now : ℕ) (l : SessionLease)
    → IsUnique s
    → 0 < r.ttl
    → Dict.get s (key_of r) ≡ some l
    → now < l.expires_at
    → l.owner ≢ r.owner
    → ((acquire s r now).1 ≡ ok none)
      × (Dict.get (acquire s r now).0 (key_of r) ≡ some l)
      × ((renew s r now).1 ≡ ok none)
      × (Dict.get (renew s r now).0 (key_of r) ≡ some l)
unfolding acquire renew
acquire-foreign s r now l u pos held live other =
    let kept = get-expire_live s now (key_of r) l u held live in
    (
      ground (arith, kept, eq_iff l.owner r.owner),
      ground (arith, kept, eq_iff l.owner r.owner),
      ground (arith, kept, eq_iff l.owner r.owner),
      ground (arith, kept, eq_iff l.owner r.owner),
    )

make_lease-eq : (l m : SessionLease) → make_lease l ≡ ok m → m ≡ l
unfolding make_lease
make_lease-eq l m h = ground arith

-- What a successful `acquire` stored.
acquire-stored :
    (s : Store) (r : Request) (now : ℕ) (l : SessionLease)
    → (acquire s r now).1 ≡ ok (some l)
    → let s' = (expire s now).1 in
      ((acquire s r now).0 ≡ Dict.put s' (key_of r) l)
      × (make_lease (new_lease r (Dict.get s' (key_of r)) now) ≡ ok l)
unfolding acquire
acquire-stored s r now l got = ground arith

put-IsUnique : (s : Store) (k : String) (l : SessionLease) → IsUnique s → IsUnique (Dict.put s k l)
put-IsUnique s k l u j = Dict.occurs-put-le s k j l (u j)

-- A lease that was acquired is the one that `get` finds under its key, with the caller as owner,
-- up to its deadline (the time of the call plus the ttl) and not from then on.
pub lookup-acquire :
    (s : Store) (r : Request) (now now' : ℕ) (l : SessionLease)
    → IsUnique s
    → (acquire s r now).1 ≡ ok (some l)
    → (l.owner ≡ r.owner)
      × (l.expires_at ≡ now + r.ttl)
      × ((lookup (acquire s r now).0 r.workspace_id r.voicebot_id r.session_id now').1
          ≡ (if ltb now' (now + r.ttl) then some l else none))
unfolding lookup new_lease
lookup-acquire s r now now' l u got =
    let s' = (expire s now).1 in
    let (stored, made) = acquire-stored s r now l got in
    let is_new = make_lease-eq (new_lease r (Dict.get s' (key_of r)) now) l made in
    let unique = put-IsUnique s' (key_of r) l (expire-IsUnique s now u) in
    (
      ap (λ (x : SessionLease). x.owner) is_new,
      ap (λ (x : SessionLease). x.expires_at) is_new,
      rw stored (
          get-expire (Dict.put s' (key_of r) l) now' (key_of r) unique
          ∙ rw (Dict.get-put_self s' (key_of r) l)
              (ground (arith, ap (λ (x : SessionLease). x.expires_at) is_new))),
    )

-- The lease that stands under a key once an attempt to store one is over.
abbrev pub stored_or : Result SessionLease → SessionLease → SessionLease
stored_or (ok m) old = m
stored_or (err e) old = old

-- A lease as a renewal by its owner leaves it: from now for the ttl, with the call, the transport
-- and the metadata that it had; no metadata counts as empty.
abbrev pub renewed : SessionLease → Request → ℕ → SessionLease
renewed l r now = record {
  workspace_id = r.workspace_id;
  voicebot_id = r.voicebot_id;
  session_id = r.session_id;
  owner = l.owner;
  expires_at = now + r.ttl;
  call_id = l.call_id;
  transport = l.transport;
  metadata = some (or_default l.metadata []);
}

-- The owner of a live lease renews it with a positive ttl and no new call id, transport or
-- metadata. The lease that `renew` returns and stores then ends one ttl from now, which may also
-- be earlier than before, and keeps the call id, the transport and the metadata; with blank fields
-- the call raises and leaves the old lease. Every other lease stays, unless it has run out.
pub renew-keeps :
    (s : Store) (r : Request) (now : ℕ) (l : SessionLease) (k : String)
    → IsUnique s
    → 0 < r.ttl
    → Dict.get s (key_of r) ≡ some l
    → now < l.expires_at
    → l.owner ≡ r.owner
    → (r.call_id ≡ none) × (r.transport ≡ none) × (r.metadata ≡ none)
    → let made = make_lease (renewed l r now) in
      ((renew s r now).1 ≡ (made >>= λ m. ok (some m)))
      × (Dict.get (renew s r now).0 k ≡ (
          if key_of r == k
          then some (stored_or made l)
          else survives (is_expired now) (Dict.get s k)))
unfolding renew acquire new_lease make_lease
renew-keeps s r now l k u pos held live mine (no_call, no_transport, no_metadata) =
    let s' = (expire s now).1 in
    let kept = get-expire_live s now (key_of r) l u held live in
    let again = get-expire_live s' now (key_of r) l (expire-IsUnique s now u) kept live in
    (
      ground (arith, kept, again, eq_iff l.owner r.owner),
      ground (
        arith,
        kept,
        again,
        eq_iff l.owner r.owner,
        eq_iff (key_of r) k,
        Dict.get-put (expire s' now).1 (key_of r) k (renewed l r now),
        get-expire s now k u,
        get-expire s' now k (expire-IsUnique s now u),
      ),
    )
