-- ===== src/Workspace/Voicebots.antt =====
-- `WorkspaceScope`, `VoicebotDefinition` and `VoicebotStore`.
use flowhunt_voicebot.Base.{
  String, Bool, not, ◌&&◌, Option, none, some, List, keep, or_default, text_key, pair_key, ◌==◌,
  is_blank, ◌+s◌, Result, ok, err, key_error, raise_if, ◌>>=◌, ◌>>◌,
}
use flowhunt_voicebot.Base.Dict
use flowhunt_voicebot.Base.Dict.{Dict}
use flowhunt_voicebot.Base.Sorting.{text_lt, sorted}

pub record Scope : Type 0 where
  pub workspace_id : String
  pub voicebot_id : String
  pub session_id : Option String

-- `__post_init__`
unfoldable pub make_scope : Scope → Result Scope
make_scope s = do
  raise_if (s.workspace_id == "") "workspace_id is required"
  raise_if (s.voicebot_id == "") "voicebot_id is required"
  ok s

pub record Voicebot : Type 0 where
  pub workspace_id : String
  pub voicebot_id : String
  pub display_name : String
  pub enabled : Bool
  pub metadata : Dict String String

-- `__post_init__`
unfoldable pub make_voicebot : Voicebot → Result Voicebot
make_voicebot v = do
  raise_if (is_blank v.workspace_id) "workspace_id is required"
  raise_if (is_blank v.voicebot_id) "voicebot_id is required"
  raise_if (not (v.display_name == "") && is_blank v.display_name) "display_name must not be blank"
  ok v

abbrev pub VoicebotStore : Type 0
VoicebotStore = Dict (String × String) Voicebot

abbrev pub id_of : Voicebot → String × String
id_of v = (v.workspace_id, v.voicebot_id)

unfoldable pub create : VoicebotStore → Voicebot → Result (Voicebot × VoicebotStore)
create s v = do
  raise_if (Dict.has s (id_of v)) "voicebot already exists"
  ok (v, Dict.put s (id_of v) v)

unfoldable pub save : VoicebotStore → Voicebot → Voicebot × VoicebotStore
save s v = (v, Dict.put s (id_of v) v)

unfoldable pub find : VoicebotStore → String → String → Option Voicebot
find s workspace_id voicebot_id = Dict.get s (workspace_id, voicebot_id)

-- `replace` runs the checks of the constructor again.
unfoldable pub patch :
    VoicebotStore
    → String
    → String
    → Option String
    → Option Bool
    → Option (Dict String String)
    → Result (Voicebot × VoicebotStore)
unfolding find make_voicebot save
patch s workspace_id voicebot_id display_name enabled metadata =
    elim (find s workspace_id voicebot_id) [
      | none ↦ err (key_error ("voicebot not found: " +s voicebot_id))
      | some old ↦ do
        v ← make_voicebot (record old {
          display_name = or_default display_name old.display_name;
          enabled = or_default enabled old.enabled;
          metadata = or_default metadata old.metadata;
        })
        ok (save s v)
    ]

-- `list`
unfoldable pub voicebots : VoicebotStore → String → List Voicebot
voicebots s workspace_id =
    sorted (λ (a b : Voicebot). text_lt a.voicebot_id b.voicebot_id)
      (keep (λ (v : Voicebot). v.workspace_id == workspace_id) (Dict.values s))

unfoldable pub delete : VoicebotStore → String → String → Option Voicebot × VoicebotStore
delete s workspace_id voicebot_id =
    (Dict.get s (workspace_id, voicebot_id), Dict.pop s (workspace_id, voicebot_id))
