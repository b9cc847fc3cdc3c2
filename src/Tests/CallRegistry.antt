-- ===== src/Tests/CallRegistry.antt =====
-- A call that changes its id and ends, beside one that goes on.
use flowhunt_voicebot.Base.{strip, is_blank, List, [], ◌∷◌, All, refl}
use flowhunt_voicebot.Calls.States.{Snapshot}
use flowhunt_voicebot.Calls.Registry.Active.{
  Call, adds, replaces, stops, takes_all, BringsClean, InStep, run, new_registry, run-InStep,
}

abbrev call_named : Snapshot
call_named = record { call_id = "c1"; values = [] }

abbrev call_renamed : Snapshot
call_renamed = record { call_id = "c2"; values = [] }

abbrev other_call : Snapshot
other_call = record { call_id = "c3"; values = [] }

abbrev registry_calls : List Call
registry_calls =
    adds call_named 1
    ∷ adds other_call 2
    ∷ replaces "c1" call_renamed 3
    ∷ stops "c2" 4
    ∷ takes_all 5
    ∷ []

registry_calls-clean : All BringsClean registry_calls
unfolding strip is_blank
registry_calls-clean =
    ((refl, refl), ((refl, refl), (((refl, refl), (refl, refl)), ((refl, refl), (tt, tt)))))

run-InStep_example : InStep (run new_registry registry_calls)
run-InStep_example = run-InStep registry_calls registry_calls-clean
