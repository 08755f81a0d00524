-- ===== src/Extern/Trigger/Laws.antt =====
-- extern/actions.go: what a change of level may do.
use rips.Prelude.{◌≡◌, ◌≢◌, ◌⊎◌, Bool, true, false, not, String, List, [], ◌∷◌, arith, str_eq_iff}
use rips.Prelude.Int.{eqb_ℤ, ℤ, pos, ◌<ℤ◌, ◌≤ℤ◌, ◌-ℤ◌}
use rips.Extern.Ctx.{Ctx, Effect, Report, ran, sent, changed_level}
use rips.Extern.Host.{Host}
use rips.Extern.Trigger.{
  trigger, change_level, run_scripts, enter_level, max_level, script_from, script_to,
}

-- The reports that the engine sent, the latest first.
unfoldable pub reports : List Effect → List Report
reports [] = []
reports (ran p as_given ∷ es) = reports es
reports (sent r ∷ es) = r ∷ reports es

-- What a step of a change of level leaves behind: the level and a report of it, or neither.
record Done (c : Ctx) (levelto : String) (levelidto : ℤ) (r : Ctx × Bool) : Type 0 where
  kept_init : r.0.init ≡ c.init
  kept_levels : r.0.n_levels ≡ c.n_levels
  entered :
      r.1 ≡ true
      → (r.0.curr_level ≡ levelidto)
        × (reports r.0.effects ≡ changed_level levelto levelidto (max_level c) ∷ reports c.effects)
  stayed : r.1 ≡ false → (r.0.curr_level ≡ c.curr_level) × (reports r.0.effects ≡ reports c.effects)

module _ (host : Host) (levelto : String) (levelidto : ℤ) (levelfrom : String) where
  enter_level-Done :
      (c : Ctx) → Done c levelto levelidto (enter_level host c levelto levelidto levelfrom)
  unfolding enter_level reports
  enter_level-Done c = record {
    kept_init = ground arith;
    kept_levels = ground arith;
    entered = λ h. (ground arith, ground arith);
    stayed = λ h. (ground arith, ground arith);
  }

  run_scripts-Done :
      (c : Ctx) (isfirst : Bool)
      → Done c levelto levelidto (run_scripts host c isfirst levelto levelidto levelfrom)
  unfolding run_scripts enter_level reports
  run_scripts-Done c isfirst = record {
    kept_init = ground arith;
    kept_levels = ground arith;
    entered = λ h. (ground arith, ground arith);
    stayed = λ h. (ground arith, ground arith);
  }

  change_level-Done :
      (c : Ctx) (isfirst : Bool) (levelidfrom : ℤ) (fromsoft : Bool)
      → Done c levelto levelidto
          (change_level host c isfirst levelto levelidto levelfrom levelidfrom fromsoft)
  unfolding change_level
  change_level-Done c isfirst levelidfrom fromsoft =
      let d = run_scripts-Done c isfirst in
      record {
        kept_init = ground (arith, d.kept_init);
        kept_levels = ground (arith, d.kept_levels);
        entered = λ h. (ground (arith, d.entered), ground (arith, d.entered));
        stayed = λ h. (ground (arith, d.stayed), ground (arith, d.stayed));
      }

-- The level may rise, it may be entered for the first time, and from a soft level it may sink by one.
abbrev pub IsPermitted : Bool → ℤ → ℤ → Bool → Type 0
IsPermitted isfirst levelidfrom levelidto fromsoft =
    (levelidfrom <ℤ levelidto)
    ⊎ (isfirst ≡ true)
    ⊎ (fromsoft ≡ true) × (levelidfrom -ℤ pos 1 ≡ levelidto)

eqb_ℤ_sound : (a b : ℤ) → eqb_ℤ a b ≡ true → a ≡ b
eqb_ℤ_sound a b h = ground arith

change_level-IsPermitted :
    (host : Host) (c : Ctx) (isfirst : Bool) (levelto : String) (levelidto : ℤ) (levelfrom : String)
    (levelidfrom : ℤ) (fromsoft : Bool)
    → (change_level host c isfirst levelto levelidto levelfrom levelidfrom fromsoft).1 ≡ true
    → IsPermitted isfirst levelidfrom levelidto fromsoft
unfolding change_level
change_level-IsPermitted host c isfirst levelto levelidto levelfrom levelidfrom fromsoft h =
    ground (arith, eqb_ℤ_sound (levelidfrom -ℤ pos 1) levelidto)

module _ (host : Host) (c : Ctx) (levelto : String) (levelidto : ℤ) (levelfrom : String)
    (levelidfrom : ℤ) (fromsoft : Bool) where
  abbrev pub after : Ctx × Bool
  after = trigger host c levelto levelidto levelfrom levelidfrom fromsoft

  -- A trigger that answers true either found the engine started and already at the level of that
  -- name, and changed nothing; or the level of the context is now the one asked for, which was
  -- reported with it, its number is not negative and at most the number of levels, and the change
  -- is upwards, the first one, or by one down from a soft level.
  pub trigger_succeeds :
      after.1 ≡ true
      → (after.0 ≡ c) × (levelto ≡ levelfrom) × (c.init ≡ true)
        ⊎ (after.0.curr_level ≡ levelidto)
          × (reports after.0.effects
              ≡ changed_level levelto levelidto (max_level c) ∷ reports c.effects)
          × (pos 0 ≤ℤ levelidto)
          × (levelidto ≤ℤ pos c.n_levels)
          × IsPermitted (not c.init) levelidfrom levelidto fromsoft
  unfolding trigger
  trigger_succeeds h =
      let c₁ = record c { init = true } in
      let d =
        change_level-Done host levelto levelidto levelfrom c₁ (not c.init) levelidfrom fromsoft in
      ground (
        arith,
        d.entered,
        str_eq_iff levelto levelfrom,
        change_level-IsPermitted host c₁ (not c.init) levelto levelidto levelfrom levelidfrom
            fromsoft,
      )

  -- A trigger that answers false leaves the level of the context as it was and reports no level.
  pub trigger_fails :
      after.1 ≡ false
      → (after.0.curr_level ≡ c.curr_level) × (reports after.0.effects ≡ reports c.effects)
  unfolding trigger
  trigger_fails h =
      let c₁ = record c { init = true } in
      let d =
        change_level-Done host levelto levelidto levelfrom c₁ (not c.init) levelidfrom fromsoft in
      ground (arith, d.stayed)

  -- The first trigger that passes the test of the bounds starts the engine for good.
  pub trigger-init : c.init ≡ true → after.0.init ≡ true
  unfolding trigger
  trigger-init h =
      let c₁ = record c { init = true } in
      let d =
        change_level-Done host levelto levelidto levelfrom c₁ (not c.init) levelidfrom fromsoft in
      ground (arith, d.kept_init)

  -- No trigger changes the number of levels.
  pub trigger-n_levels : after.0.n_levels ≡ c.n_levels
  unfolding trigger
  trigger-n_levels =
      let c₁ = record c { init = true } in
      let d =
        change_level-Done host levelto levelidto levelfrom c₁ (not c.init) levelidfrom fromsoft in
      ground (arith, d.kept_levels)

-- The test of the bounds lets through the number of levels itself, which is no level: on a host
-- where the scripts can be run, a started engine with a lower level enters it.
pub trigger_beyond_last :
    (host : Host) (c : Ctx) (levelto levelfrom : String) (levelidfrom : ℤ) (fromsoft : Bool)
    → ((path : String) → host.is_executable path ≡ true)
    → ((path : String) (arguments : List String) → host.run_ok path arguments ≡ true)
    → c.scripts_path ≢ ""
    → c.init ≡ true
    → levelto ≢ levelfrom
    → levelidfrom <ℤ pos c.n_levels
    → (trigger host c levelto (pos c.n_levels) levelfrom levelidfrom fromsoft).0.curr_level
      ≡ pos c.n_levels
unfolding trigger change_level run_scripts enter_level
trigger_beyond_last host c levelto levelfrom levelidfrom fromsoft exe run path started differ
      lower =
    let from_args = levelto ∷ levelfrom ∷ [] in
    ground (
      arith,
      exe (script_from c levelfrom),
      exe (script_to c levelto),
      run (script_from c levelfrom) from_args,
      run (script_to c levelto) from_args,
      str_eq_iff c.scripts_path "",
      str_eq_iff levelto levelfrom,
    )
