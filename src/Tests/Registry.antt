-- ===== src/Tests/Registry.antt =====
-- A worker that beats its heart twice.
use flowhunt_voicebot.Base.{◌≡◌, refl, none, some, [], ◌∷◌, true, text_key, ok, arith}
use flowhunt_voicebot.Base.Dict
use flowhunt_voicebot.Scaling.Registry.{
  Worker, Registry, stt_worker, heartbeat, make_worker, beaten, expire, IsRegistered, new_registry,
  expire-heartbeat, heartbeat-IsRegistered,
}

abbrev worker : Worker
worker = record {
  worker_id = "a";
  role = stt_worker;
  queue = "stt";
  workspace_id = none;
  voicebot_id = none;
  capacity = 2;
  active = true;
  last_heartbeat_at = 0;
}

abbrev nobody : Registry
nobody = record { heartbeat_ttl = 30; workers = [] }

abbrev one : Registry
one = record { heartbeat_ttl = 30; workers = ("a", beaten worker 5) ∷ [] }

first_beat : heartbeat nobody worker 5 ≡ ok (beaten worker 5, one)
unfolding heartbeat Dict.get Dict.put
first_beat = refl

second_beat :
    heartbeat one worker 20
    ≡ ok (beaten worker 20, record one { workers = ("a", beaten worker 20) ∷ [] })
unfolding heartbeat Dict.get flowhunt_voicebot.Scaling.Registry.same_role Dict.put
second_beat = refl

nobody-IsRegistered : IsRegistered nobody
unfolding Dict.occurs
nobody-IsRegistered id = ground arith

one-IsRegistered : IsRegistered one
one-IsRegistered =
    heartbeat-IsRegistered nobody one worker (beaten worker 5) 5 nobody-IsRegistered first_beat

expire-heartbeat_example :
    Dict.get (expire (record one { workers = ("a", beaten worker 20) ∷ [] }) 40).1.workers "a"
    ≡ some (beaten worker 20)
expire-heartbeat_example =
    expire-heartbeat one (record one { workers = ("a", beaten worker 20) ∷ [] }) worker
      (beaten worker 20) 20 40 "a" one-IsRegistered second_beat
