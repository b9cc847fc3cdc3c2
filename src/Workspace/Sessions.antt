-- ===== src/Workspace/Sessions.antt =====
-- `VoicebotSessionRecord` and `VoicebotSessionStore`. Instants stand for their texts.
use flowhunt_voicebot.Base.{
  ℕ, ◌≡◌, String, Bool, true, false, not, ◌&&◌, ◌||◌, Option, none, some, List, [], ◌∷◌, keep,
  if◌then◌else◌, text_key, ◌==◌, eq_iff, is_some, ◌+s◌, arith, Result, ok, err, key_error, raise_if,
  after, ◌>>=◌, ◌>>◌,
}
use flowhunt_voicebot.Base.Dict
use flowhunt_voicebot.Base.Dict.{Dict}
use flowhunt_voicebot.Base.Sorting.{text_lt, sorted}
use flowhunt_voicebot.Workspace.Voicebots.{make_scope}

pub record SessionRecord : Type 0 where
  pub session_id : String
  pub workspace_id : String
  pub voicebot_id : String
  pub channel_id : Option String
  pub external_session_id : Option String
  pub is_ended : Bool  -- `status`, "active" or "ended"
  pub started_at : ℕ
  pub ended_at : Option ℕ
  pub metadata : Dict String String

-- `__post_init__`
unfoldable pub make_record : SessionRecord → Result SessionRecord
unfolding make_scope
make_record s = do
  raise_if (s.session_id == "") "session_id is required"
  _ ← make_scope (record {
    workspace_id = s.workspace_id;
    voicebot_id = s.voicebot_id;
    session_id = some s.session_id;
  })
  raise_if (s.is_ended && not (is_some s.ended_at))
      "ended_at is required for ended voicebot sessions"
  ok s

abbrev pub SessionStore : Type 0
SessionStore = Dict String SessionRecord

abbrev pub moved :
    (SessionRecord → SessionRecord → Bool) → Option SessionRecord → SessionRecord → Bool
moved same none s = false
moved same (some old) s = not (same old s)

unfoldable pub save_record : SessionStore → SessionRecord → Result (SessionRecord × SessionStore)
save_record d s = do
  raise_if (moved (λ old new. old.workspace_id == new.workspace_id) (Dict.get d s.session_id) s)
      "cannot move voicebot session across workspaces"
  raise_if (moved (λ old new. old.voicebot_id == new.voicebot_id) (Dict.get d s.session_id) s)
      "cannot move voicebot session across voicebots"
  ok (s, Dict.put d s.session_id s)

unfoldable pub find_record : SessionStore → String → Option String → Option SessionRecord
find_record d session_id workspace_id = elim (Dict.get d session_id) [
  | none ↦ none
  | some s ↦ elim workspace_id [
    | none ↦ some s
    | some w ↦ if s.workspace_id == w then some s else none
  ]
]

-- `VoicebotSessionRecord.end`
unfoldable pub ended : SessionRecord → ℕ → Result SessionRecord
unfolding make_record
ended s now = make_record (record s { is_ended = true; ended_at = some now })

unfoldable pub end_session :
    SessionStore → String → String → ℕ → Result (SessionRecord × SessionStore)
unfolding find_record
end_session d session_id workspace_id now = elim (find_record d session_id (some workspace_id)) [
  | none ↦
      err (key_error ("unknown session in workspace " +s (workspace_id +s (": " +s session_id))))
  | some s ↦ ended s now >>= λ e. save_record d e
]

abbrev pub is_in : Option String → String → Bool
is_in none value = true
is_in (some wanted) value = value == wanted

-- `list`
unfoldable pub records : SessionStore → Option String → Option String → Bool → List SessionRecord
records d workspace_id voicebot_id active_only =
    keep
      (λ (s : SessionRecord).
        is_in workspace_id s.workspace_id
        && (is_in voicebot_id s.voicebot_id && (not active_only || not s.is_ended)))
      (sorted (λ (a b : SessionRecord). text_lt a.session_id b.session_id) (Dict.values d))

-- `JsonVoicebotSessionStore._load`, over what `voicebot_session_from_dict` makes of each saved
-- session, `none` where it raises, with the ids seen so far.
unfoldable pub load_records :
    List (Option SessionRecord) → Dict String (Unit {0}) → SessionStore → SessionStore
load_records [] seen d = d
load_records (none ∷ rest) seen d = load_records rest seen d
load_records (some s ∷ rest) seen d =
    let is_new = not (Dict.has seen s.session_id) in
    load_records rest (if is_new then Dict.put seen s.session_id tt else seen)
      (if is_new then Dict.put d s.session_id s else d)

ended_lem :
    (s : SessionRecord) (now : ℕ)
    → make_record s ≡ ok s
    → ended s now ≡ ok (record s { is_ended = true; ended_at = some now })
unfolding ended make_record make_scope
ended_lem s now valid = ground arith

save_ended :
    (d : SessionStore) (s : SessionRecord) (now : ℕ)
    → Dict.get d s.session_id ≡ some s
    → save_record d (record s { is_ended = true; ended_at = some now })
      ≡ ok (
        record s { is_ended = true; ended_at = some now },
        Dict.put d s.session_id (record s { is_ended = true; ended_at = some now }),
      )
unfolding save_record
save_ended d s now there =
    ground (arith, there, eq_iff s.workspace_id s.workspace_id, eq_iff s.voicebot_id s.voicebot_id)

-- A session ends only for a caller that names its workspace, and then it is ended, at that
-- instant, with all else as it was; every other session is as it was in either case.
pub end_session-find :
    (d : SessionStore) (s : SessionRecord) (workspace_id other : String) (now : ℕ)
    → Dict.get d s.session_id ≡ some s
    → make_record s ≡ ok s
    → Dict.get (after d (end_session d s.session_id workspace_id now)) other ≡ (
        if s.session_id == other && s.workspace_id == workspace_id
        then some (record s { is_ended = true; ended_at = some now })
        else Dict.get d other)
unfolding end_session find_record
end_session-find d s workspace_id other now there valid = ground (
  arith,
  there,
  ended_lem s now valid,
  save_ended d s now there,
  Dict.get-put d s.session_id other (record s { is_ended = true; ended_at = some now }),
)
