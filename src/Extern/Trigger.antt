-- ===== src/Extern/Trigger.antt =====
-- extern/actions.go: the actions `alert` and `exec`, and `Trigger`, which changes the alert level.
pub mod Laws
pub mod Frame
pub mod Reported
mod Tests
use rips.Prelude.{
  ℕ, ◌+◌, ◌-◌, Bool, true, false, not, ◌&&◌, ◌||◌, if◌then◌else◌, str_eq, String, List, [], ◌∷◌,
}
use rips.Prelude.Int.{ℤ, pos, negsuc, ltb_ℤ, eqb_ℤ, ◌-ℤ◌}
use Prim.Native.String.{◌++◌}
use rips.Extern.Ctx.{Ctx, Effect, ran, sent, alerted, changed_level}
use rips.Extern.Host.{Host}

abbrev pub add_effect : Ctx → Effect → Ctx
add_effect c e = record c { effects = e ∷ c.effects }

unfoldable pub alert : Ctx → String → Ctx × Bool
alert c msg = (add_effect c (sent (alerted msg)), true)

unfoldable pub exec : Host → Ctx → String → List String → Ctx × Bool
exec host c path arguments = (add_effect c (ran path arguments), host.run_ok path arguments)

-- The names of the two scripts of a level.
abbrev script_from : Ctx → String → String
script_from c level = c.scripts_path ++ "/" ++ level ++ ".from"

abbrev script_to : Ctx → String → String
script_to c level = c.scripts_path ++ "/" ++ level ++ ".to"

-- The denominator of the gravity that is reported.
abbrev pub max_level : Ctx → ℤ
max_level c = let max = pos c.n_levels -ℤ pos 1 in if eqb_ℤ max (pos 0) then pos 1 else max

abbrev run_script : Host → Ctx → String → String → String → Ctx × Bool
run_script host c path levelto levelfrom = (
  add_effect c (ran path (levelto ∷ levelfrom ∷ [])),
  host.run_ok path (levelto ∷ levelfrom ∷ []),
)

-- The script of the new level, and what follows it.
enter_level : Host → Ctx → String → ℤ → String → Ctx × Bool
unfolding ◌-ℤ◌
enter_level host c levelto levelidto levelfrom =
    let (c', done) = run_script host c (script_to c levelto) levelto levelfrom in
    if not done then (c', false) else (
      add_effect (record c' { curr_level = levelidto })
          (sent (changed_level levelto levelidto (max_level c'))),
      true,
    )

-- The scripts: that of the old level only if there was one.
run_scripts : Host → Ctx → Bool → String → ℤ → String → Ctx × Bool
unfolding enter_level
run_scripts host c isfirst levelto levelidto levelfrom =
    if isfirst
    then enter_level host c levelto levelidto levelfrom
    else (let (c', done) = run_script host c (script_from c levelfrom) levelto levelfrom in
        if not done then (c', false) else enter_level host c' levelto levelidto levelfrom)

-- The tests behind `context.Init = true`.
change_level : Host → Ctx → Bool → String → ℤ → String → ℤ → Bool → Ctx × Bool
unfolding run_scripts ◌-ℤ◌
change_level host c isfirst levelto levelidto levelfrom levelidfrom fromsoft =
    let tohigher = ltb_ℤ levelidfrom levelidto || isfirst in
    let tolower = fromsoft && eqb_ℤ (levelidfrom -ℤ pos 1) levelidto in
    if not tohigher && not tolower
    then (c, false)
    else if str_eq c.scripts_path ""
    then (c, false)
    else if not (host.is_executable (script_from c levelfrom))
    then (c, false)
    else if not (host.is_executable (script_to c levelto))
    then (c, false)
    else run_scripts host c isfirst levelto levelidto levelfrom

unfoldable pub trigger : Host → Ctx → String → ℤ → String → ℤ → Bool → Ctx × Bool
unfolding change_level
trigger host c levelto levelidto levelfrom levelidfrom fromsoft =
    let isfirst = not c.init in
    if str_eq levelto levelfrom && not isfirst
    then (c, true)
    else if ltb_ℤ (pos c.n_levels) levelidto || ltb_ℤ levelidto (pos 0)
    then (c, false)
    else change_level host (record c { init = true }) isfirst levelto levelidto levelfrom
        levelidfrom fromsoft
