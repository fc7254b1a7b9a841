-- ===== src/Hub/Tests.antt =====
-- Instances of the theorem of pkg/managerruntime/daemonhub.go, with a Boolean for a daemon that runs or not.
use hybridnet.Base.{◌≡◌, [], ◌∷◌, refl, Bool, true, false, none, some}
use hybridnet.Base.Dict.{Dict, lookup}
use hybridnet.Hub.{Daemon, unregisters, runs, call, unregister, is_running}
use hybridnet.Hub.Laws.{Fate, call-Fate}

abbrev switch : Daemon Bool
switch = record { run = λ b. (true, none); stop = λ b. (false, none); running = λ b. b }

abbrev hub : Dict Bool
hub = ("a", false) ∷ ("b", true) ∷ []

call-Fate_example : Fate switch "a" false (runs "a") (lookup "a" (call switch (runs "a") hub).0)
unfolding lookup
call-Fate_example = call-Fate switch "a" false hub refl (runs "a")

-- A daemon that runs stays.
unregister_test : call switch (unregisters "b") hub ≡ (hub, some is_running)
unfolding unregister lookup
unregister_test = refl
