-- ===== src/Tests/SessionLeases.antt =====
-- Session leases of two owners.
use flowhunt_voicebot.Base.{
  ◌≡◌, ◌≢◌, refl, String, none, some, [], ◌∷◌, text_key, arith, ok, ◌>>=◌, ◌+◌, ltb, if◌then◌else◌,
  ◌==◌, join_colon, eq_iff, is_blank,
}
use flowhunt_voicebot.Base.Dict
use flowhunt_voicebot.Base.Dict.{Dict}
use flowhunt_voicebot.SessionLeases.{
  SessionLease, Store, Request, key_of, is_expired, lease_key, make_lease, acquire, renew, lookup,
  expire, new_lease,
}
use flowhunt_voicebot.SessionLeases.Ownership.{
  IsUnique, acquire-foreign, lookup-acquire, stored_or, renewed, renew-keeps,
}
use flowhunt_voicebot.Base.Sweep.{survives}
use flowhunt_voicebot.SessionLeases.Keys.{acquire-shift}

abbrev lease : SessionLease
lease = record {
  workspace_id = "w:p";
  voicebot_id = "v";
  session_id = "x";
  owner = "one";
  expires_at = 10;
  call_id = some "c";
  transport = none;
  metadata = none;
}

abbrev request : String → String → String → Request
request workspace_id voicebot_id owner = record {
  workspace_id = workspace_id;
  voicebot_id = voicebot_id;
  session_id = "x";
  owner = owner;
  ttl = 10;
  call_id = none;
  transport = none;
  metadata = none;
}

abbrev leases : Store
leases = (lease_key "w:p" "v" "x", lease) ∷ []

leases-IsUnique : IsUnique leases
unfolding Dict.occurs
leases-IsUnique = λ k. ground arith

nil-IsUnique : IsUnique []
unfolding Dict.occurs
nil-IsUnique = λ k. omega arith

one-not-two : ◌≢◌ {A = String} "one" "two"
one-not-two = λ e. absurd (ground (arith, (eq_iff "one" "two").1 e))

found : Dict.get leases (lease_key "w:p" "v" "x") ≡ some lease
unfolding Dict.get
found = ground (arith, eq_iff (lease_key "w:p" "v" "x") (lease_key "w:p" "v" "x"))

acquire-foreign_example :
    ((acquire leases (request "w:p" "v" "two") 5).1 ≡ ok none)
    × (Dict.get (acquire leases (request "w:p" "v" "two") 5).0 (lease_key "w:p" "v" "x")
        ≡ some lease)
    × ((renew leases (request "w:p" "v" "two") 5).1 ≡ ok none)
    × (Dict.get (renew leases (request "w:p" "v" "two") 5).0 (lease_key "w:p" "v" "x") ≡ some lease)
acquire-foreign_example =
    acquire-foreign leases (request "w:p" "v" "two") 5 lease leases-IsUnique (omega arith) found
      (omega arith) one-not-two

abbrev fresh : SessionLease
fresh = record {
  workspace_id = "w";
  voicebot_id = "v";
  session_id = "x";
  owner = "two";
  expires_at = 13;
  call_id = none;
  transport = none;
  metadata = some [];
}

acquired : (acquire [] (request "w" "v" "two") 3).1 ≡ ok (some fresh)
unfolding acquire expire new_lease make_lease Dict.get is_blank
acquired = refl

lookup-acquire_example :
    (fresh.owner ≡ "two")
    × (fresh.expires_at ≡ 3 + 10)
    × ((lookup (acquire [] (request "w" "v" "two") 3).0 "w" "v" "x" 8).1
        ≡ (if ltb 8 (3 + 10) then some fresh else none))
lookup-acquire_example = lookup-acquire [] (request "w" "v" "two") 3 8 fresh nil-IsUnique acquired

renew-keeps_example :
    let again = request "w:p" "v" "one" in
    let made = make_lease (renewed lease again 5) in
    ((renew leases again 5).1 ≡ (made >>= λ m. ok (some m)))
    × (Dict.get (renew leases again 5).0 (key_of again) ≡ (
        if key_of again == key_of again
        then some (stored_or made lease)
        else survives (is_expired 5) (Dict.get leases (key_of again))))
renew-keeps_example =
    renew-keeps leases (request "w:p" "v" "one") 5 lease (key_of (request "w:p" "v" "one"))
      leases-IsUnique (omega arith) found (omega arith) refl (refl, refl, refl)

found_shifted : Dict.get leases (lease_key (join_colon "w" "p") "v" "x") ≡ some lease
unfolding Dict.get lease_key join_colon
found_shifted = refl

acquire-shift_example : (acquire leases (request "w" (join_colon "p" "v") "two") 5).1 ≡ ok none
acquire-shift_example =
    acquire-shift leases "w" "p" "v" "x" (request "w" (join_colon "p" "v") "two") 5 lease
      leases-IsUnique (refl, refl, refl) (omega arith) found_shifted (omega arith) one-not-two
