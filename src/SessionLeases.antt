-- ===== src/SessionLeases.antt =====
-- voicebot/session_leases.py: the lease that makes one process the owner of a session. Instants
-- are in microseconds; the texts of a lease's times, which are ISO timestamps, stand for them.
-- `now or datetime.now(UTC)` is the argument `now`. A method returns the store that it leaves,
-- also where it raises.
pub mod Ownership
pub mod Keys
use flowhunt_voicebot.Base.{
  ℕ, ◌+◌, String, Bool, true, false, not, ◌&&◌, ◌||◌, Option, none, some, List, [], ◌∷◌, ltb, leb,
  if◌then◌else◌, or_default, is_some, text_key, ◌==◌, is_blank, join_colon, keep, Result, ok, err,
  value_error, raise_if, ◌>>=◌, ◌>>◌,
}
use flowhunt_voicebot.Base.Dict
use flowhunt_voicebot.Base.Dict.{Dict}
use flowhunt_voicebot.Base.Sweep.{sweep}

pub record SessionLease : Type 0 where
  pub workspace_id : String
  pub voicebot_id : String
  pub session_id : String
  pub owner : String
  pub expires_at : ℕ
  pub call_id : Option String
  pub transport : Option String
  pub metadata : Option (Dict String String)

-- `__post_init__`
unfoldable pub make_lease : SessionLease → Result SessionLease
make_lease l = do
  raise_if (is_blank l.workspace_id) "workspace_id is required"
  raise_if (is_blank l.voicebot_id) "voicebot_id is required"
  raise_if (is_blank l.session_id) "session_id is required"
  raise_if (is_blank l.owner) "owner is required"
  ok l

unfoldable pub lease_key : String → String → String → String
lease_key workspace_id voicebot_id session_id =
    join_colon (join_colon workspace_id voicebot_id) session_id

abbrev pub Store : Type 0
Store = Dict String SessionLease

-- The arguments of `acquire` and `renew`.
pub record Request : Type 0 where
  pub workspace_id : String
  pub voicebot_id : String
  pub session_id : String
  pub owner : String
  pub ttl : ℕ
  pub call_id : Option String
  pub transport : Option String
  pub metadata : Option (Dict String String)

abbrev pub key_of : Request → String
key_of r = lease_key r.workspace_id r.voicebot_id r.session_id

abbrev pub is_expired : ℕ → SessionLease → Bool
is_expired now l = leb l.expires_at now

unfoldable pub expire : Store → ℕ → List SessionLease × Store
unfolding sweep
expire s now = sweep (is_expired now) s

-- `x or y` for optional texts: an empty one counts as none.
abbrev pub text_or_else : Option String → Option String → Option String
text_or_else none d = d
text_or_else (some t) d = if t == "" then d else some t

-- `existing.field if existing is not None else None`
abbrev pub of_existing {ℓ} :
    {A : Type ℓ} → (SessionLease → Option A) → Option SessionLease → Option A
of_existing field none = none
of_existing field (some l) = field l

abbrev pub merged_metadata : Option (Dict String String) → Option SessionLease → Dict String String
merged_metadata (some m) existing = m
merged_metadata none existing = or_default (of_existing (λ l. l.metadata) existing) []

-- The lease that a request asks for, over the one that its owner has.
unfoldable pub new_lease : Request → Option SessionLease → ℕ → SessionLease
new_lease r existing now = record {
  workspace_id = r.workspace_id;
  voicebot_id = r.voicebot_id;
  session_id = r.session_id;
  owner = r.owner;
  expires_at = now + r.ttl;
  call_id = text_or_else r.call_id (of_existing (λ l. l.call_id) existing);
  transport = text_or_else r.transport (of_existing (λ l. l.transport) existing);
  metadata = some (merged_metadata r.metadata existing);
}

-- `existing is not None and existing.owner != owner`
abbrev pub is_foreign : Option SessionLease → String → Bool
is_foreign none owner = false
is_foreign (some l) owner = not (l.owner == owner)

abbrev pub store_lease : Store → String → Result SessionLease → Store × Result (Option SessionLease)
store_lease s k (err e) = (s, err e)
store_lease s k (ok l) = (Dict.put s k l, ok (some l))

unfoldable pub acquire : Store → Request → ℕ → Store × Result (Option SessionLease)
acquire s r now =
    if leb r.ttl 0
    then (s, err (value_error "ttl_seconds must be positive"))
    else (let s' = (expire s now).1 in
        let existing = Dict.get s' (key_of r) in
        if is_foreign existing r.owner
        then (s', ok none)
        else store_lease s' (key_of r) (make_lease (new_lease r existing now)))

-- `existing is None or existing.owner != owner`
abbrev pub is_not_held : Option SessionLease → String → Bool
is_not_held none owner = true
is_not_held (some l) owner = not (l.owner == owner)

unfoldable pub renew : Store → Request → ℕ → Store × Result (Option SessionLease)
renew s r now =
    let s' = (expire s now).1 in
    if is_not_held (Dict.get s' (key_of r)) r.owner then (s', ok none) else acquire s' r now

abbrev pub is_other_owner : Option String → SessionLease → Bool
is_other_owner none l = false
is_other_owner (some owner) l = not (l.owner == owner)

unfoldable pub release :
    Store → String → String → String → Option String → Store × Option SessionLease
release s workspace_id voicebot_id session_id owner =
    let key = lease_key workspace_id voicebot_id session_id in
    elim (Dict.get s key) [
      | none ↦ (s, none)
      | some l ↦ if is_other_owner owner l then (s, none) else (Dict.pop s key, some l)
    ]

-- `get`
unfoldable pub lookup : Store → String → String → String → ℕ → Store × Option SessionLease
lookup s workspace_id voicebot_id session_id now =
    let s' = (expire s now).1 in (s', Dict.get s' (lease_key workspace_id voicebot_id session_id))

-- `JsonSessionLeaseStore._load`, over what `session_lease_from_dict` makes of each saved lease,
-- `none` where it raises; with the keys seen so far. The counters of `load_diagnostics` are left
-- out.
unfoldable pub load_loop : ℕ → List (Option SessionLease) → Dict String (Unit {0}) → Store → Store
load_loop now [] seen s = s
load_loop now (none ∷ rest) seen s = load_loop now rest seen s
load_loop now (some l ∷ rest) seen s =
    let key = lease_key l.workspace_id l.voicebot_id l.session_id in
    let is_new = not (Dict.has seen key) in
    let is_kept = is_new && not (is_expired now l) in
    load_loop now rest (if is_new then Dict.put seen key tt else seen)
      (if is_kept then Dict.put s key l else s)

unfoldable pub load : ℕ → List (Option SessionLease) → Store
unfolding load_loop
load now saved = load_loop now saved [] []
