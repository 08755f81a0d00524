-- ===== src/Tree/Levels/Tests.antt =====
-- tree/builtins.go: sequences of triggers over two hard levels.
use rips.Prelude.{refl, false, if◌then◌else◌, str_eq, String, List, [], ◌∷◌}
use rips.Prelude.Int.{ℤ, pos, ◌≤ℤ◌}
use rips.Tree.Levels.{Level, Engine}
use rips.Tree.Levels.Reach.{trigger_all, trigger_all-InStep, hard_levels_never_sink, InStep}
use rips.Fixtures.{running_ctx, willing_host}

abbrev normal : Level
normal = record { name = "DEFAULT"; slevel = pos 0; is_soft = false }

abbrev alert_level : Level
alert_level = record { name = "ALERT"; slevel = pos 1; is_soft = false }

abbrev numbers : String → ℤ
numbers name = if str_eq name "ALERT" then pos 1 else pos 0

abbrev start : Engine
start = record { ctx = running_ctx; level = normal }

abbrev wanted : List Level
wanted = alert_level ∷ normal ∷ []

trigger_all-InStep_example : InStep willing_host (trigger_all willing_host wanted start)
trigger_all-InStep_example =
    trigger_all-InStep willing_host numbers wanted start (refl, (refl, tt)) refl refl

hard_levels_never_sink_example :
    start.level.slevel ≤ℤ (trigger_all willing_host wanted start).level.slevel
hard_levels_never_sink_example =
    hard_levels_never_sink willing_host numbers wanted start ((refl, refl), ((refl, refl), tt))
      (refl, refl) refl
