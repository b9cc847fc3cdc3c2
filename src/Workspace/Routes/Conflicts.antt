-- ===== src/Workspace/Routes/Conflicts.antt =====
-- A public address leads to one route.
use flowhunt_voicebot.Base.{
  text_length, ◌≤◌, ◌≡◌, sym, subst, String, Bool, true, false, Option, none, some, List, [], ◌∷◌,
  All, keep, if◌then◌else◌, text_key, eq_iff, arith, ok, after, after_keeps, Bool-cases,
  Option-cases, inl, inr,
}
use flowhunt_voicebot.Base.Dict
use flowhunt_voicebot.Base.Dict.{Dict}
use flowhunt_voicebot.Base.Sorting.{sorted_down, sorted_down-IsTop, sorted_down-All, IsTop}
use flowhunt_voicebot.Workspace.Routes.{
  Route, active, RouteStore, conflicts, find_conflict, active_conflict, save_route, find_route,
  delete_route, is_candidate, first_of, resolve_route,
}

-- Every route stands under its id, and no two active routes have one host and one path prefix.
pub record IsSeparate (s : RouteStore) : Type 0 where
  pub keyed : All (λ e. e.1.route_id ≡ e.0) s
  pub separate :
      (j k : String) (a b : Route)
      → Dict.get s j ≡ some a
      → Dict.get s k ≡ some b
      → active a.status ≡ true
      → active b.status ≡ true
      → a.host ≡ b.host
      → a.path_prefix ≡ b.path_prefix
      → j ≡ k

find_conflict-All :
    (r : Route) (s : RouteStore)
    → find_conflict r (Dict.values s) ≡ none
    → All (λ e. conflicts r e.1 ≡ false) s
unfolding find_conflict
find_conflict-All r [] h = tt
find_conflict-All r ((k, old) ∷ s) h = (ground arith, find_conflict-All r s (ground arith))

save_checks :
    (s s' : RouteStore) (r t : Route)
    → save_route s r ≡ ok (t, s')
    → (s' ≡ Dict.put s r.route_id r)
      × (active r.status ≡ true → find_conflict r (Dict.values s) ≡ none)
unfolding save_route active_conflict
save_checks s s' r t h = (ground arith, λ on. ground (arith, on))

no_conflict :
    (s : RouteStore) (r old : Route) (k : String)
    → find_conflict r (Dict.values s) ≡ none
    → Dict.get s k ≡ some old
    → conflicts r old ≡ false
no_conflict s r old k free there =
    Dict.All-get (λ e. conflicts r e.1 ≡ false) s k old there (find_conflict-All r s free)

same_address :
    (s : RouteStore) (r old : Route) (k : String)
    → All (λ e. e.1.route_id ≡ e.0) s
    → (active r.status ≡ true → find_conflict r (Dict.values s) ≡ none)
    → Dict.get s k ≡ some old
    → active old.status ≡ true
    → active r.status ≡ true
    → old.host ≡ r.host
    → old.path_prefix ≡ r.path_prefix
    → k ≡ r.route_id
same_address s r old k keyed free there on_old on host prefix = ground (
  arith,
  no_conflict s r old k (free on) there,
  Dict.All-get (λ e. e.1.route_id ≡ e.0) s k old there keyed,
  eq_iff old.route_id r.route_id,
  eq_iff old.host r.host,
  eq_iff old.path_prefix r.path_prefix,
)

save-IsSeparate :
    (s s' : RouteStore) (r t : Route) → save_route s r ≡ ok (t, s') → IsSeparate s → IsSeparate s'
save-IsSeparate s s' r t done h =
    let (made, free) = save_checks s s' r t done in
    subst IsSeparate (sym made) (record {
      keyed = Dict.All-put (λ e. e.1.route_id ≡ e.0) s r.route_id r (λ j e. sym e) h.keyed;
      separate = λ j k a b at_j at_k on_a on_b host prefix. ground (
        arith,
        Dict.get-put s r.route_id j r,
        Dict.get-put s r.route_id k r,
        eq_iff r.route_id j,
        eq_iff r.route_id k,
        h.separate j k a b,
        same_address s r a j h.keyed free,
        same_address s r b k h.keyed free,
      );
    })

pub data Call : Type 0 where
  saves : Route → Call
  deletes : String → Option String → Call

unfoldable pub step : RouteStore → Call → RouteStore
step s (saves r) = after s (save_route s r)
step s (deletes route_id workspace_id) = (delete_route s route_id workspace_id).1

unfoldable pub run : RouteStore → List Call → RouteStore
unfolding step
run s [] = s
run s (c ∷ cs) = run (step s c) cs

pop-IsSeparate : (s : RouteStore) (id : String) → IsSeparate s → IsSeparate (Dict.pop s id)
pop-IsSeparate s id h = record {
  keyed = Dict.All-pop (λ e. e.1.route_id ≡ e.0) s id h.keyed;
  separate = λ j k a b at_j at_k on_a on_b host prefix.
      ground (arith, Dict.get-pop s id j, Dict.get-pop s id k, h.separate j k a b);
}

delete-IsSeparate :
    (s : RouteStore) (route_id : String) (workspace_id : Option String)
    → IsSeparate s
    → IsSeparate (delete_route s route_id workspace_id).1
unfolding delete_route
delete-IsSeparate s route_id workspace_id h =
    elim (Option-cases (find_route s route_id workspace_id)) [
      | inl missing ↦ rw (missing, delete_route) h
      | inr (r, found) ↦ rw (found, delete_route) (pop-IsSeparate s r.route_id h)
    ]

run_from-IsSeparate : (s : RouteStore) (cs : List Call) → IsSeparate s → IsSeparate (run s cs)
unfolding run step
run_from-IsSeparate s [] h = h
run_from-IsSeparate s (saves r ∷ cs) h =
    run_from-IsSeparate (after s (save_route s r)) cs
      (after_keeps IsSeparate s (save_route s r) h λ t s' done. save-IsSeparate s s' r t done h)
run_from-IsSeparate s (deletes route_id workspace_id ∷ cs) h =
    run_from-IsSeparate (delete_route s route_id workspace_id).1 cs
      (delete-IsSeparate s route_id workspace_id h)

nil-IsSeparate : IsSeparate []
unfolding Dict.get
nil-IsSeparate = record { keyed = tt; separate = λ j k a b at_j at_k on_a on_b host prefix. cc }

-- After any saves and deletions on a store with no routes, accepted or refused, every route stands
-- under its id, and no two active routes have the same host and the same path prefix.
pub run-IsSeparate : (cs : List Call) → IsSeparate (run [] cs)
run-IsSeparate cs = run_from-IsSeparate [] cs nil-IsSeparate

keep-All :
    (p : Route → Bool) (P : Route → Type 0) (rs : List Route)
    → All P (keep p rs)
    → All (λ r. p r ≡ true → P r) rs
keep-All p P [] h = tt
keep-All p P (r ∷ rs) h = elim (Bool-cases (p r)) [
  | inl e ↦
      let kept : P r × All P (keep p rs) =
        subst (λ b. All P (if b then r ∷ keep p rs else keep p rs)) e h in
      (λ on. kept.0, keep-All p P rs kept.1)
  | inr e ↦
      let left : All P (keep p rs) =
        subst (λ b. All P (if b then r ∷ keep p rs else keep p rs)) e h in
      (λ on. cc, keep-All p P rs left)
]

kept-All : (p : Route → Bool) (rs : List Route) → All (λ r. p r ≡ true) (keep p rs)
kept-All p [] = tt
kept-All p (r ∷ rs) = elim (Bool-cases (p r)) [
  | inl e ↦ rw e (e, kept-All p rs)
  | inr e ↦ rw e (kept-All p rs)
]

abbrev pub IsLongest : (Route → Bool) → List Route → Option Route → Type 0
IsLongest p rs none = All (λ r. p r ≡ false) rs
IsLongest p rs (some top) =
    (p top ≡ true)
    × All (λ r. p r ≡ true → text_length r.path_prefix ≤ text_length top.path_prefix) rs

none_kept :
    (p : Route → Bool) (rs : List Route) → All (λ r. p r ≡ true → ⊥) rs → All (λ r. p r ≡ false) rs
none_kept p [] h = tt
none_kept p (r ∷ rs) h = elim (Bool-cases (p r)) [
  | inl e ↦ absurd (h.0 e)
  | inr e ↦ (e, none_kept p rs h.1)
]

first_of-IsLongest :
    (p : Route → Bool) (rs sorted_rs : List Route)
    → IsTop (λ (r : Route). text_length r.path_prefix) (keep p rs) sorted_rs
    → All (λ r. p r ≡ true) sorted_rs
    → IsLongest p rs (first_of sorted_rs)
first_of-IsLongest p rs [] top on = none_kept p rs (keep-All p (λ r. ⊥) rs top)
first_of-IsLongest p rs (r ∷ more) top on =
    (on.0, keep-All p (λ x. text_length x.path_prefix ≤ text_length r.path_prefix) rs top)

-- A request is resolved to a candidate with the longest path prefix of all candidates, which are
-- the routes that are active, have the host, and match the path; to none only if no route is a
-- candidate.
pub resolve_route-IsLongest :
    (lower : String → String) (s : RouteStore) (host path : String)
    → IsLongest (is_candidate lower host path) (Dict.values s) (resolve_route lower s host path)
unfolding resolve_route
resolve_route-IsLongest lower s host path =
    let p = is_candidate lower host path in
    first_of-IsLongest p (Dict.values s)
      (sorted_down (λ (r : Route). text_length r.path_prefix) (keep p (Dict.values s)))
      (sorted_down-IsTop (λ (r : Route). text_length r.path_prefix) (keep p (Dict.values s)))
      (sorted_down-All (λ (r : Route). text_length r.path_prefix) (λ r. p r ≡ true)
        (keep p (Dict.values s)) (kept-All p (Dict.values s)))
