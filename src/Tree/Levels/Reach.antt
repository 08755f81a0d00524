-- ===== src/Tree/Levels/Reach.antt =====
-- tree/builtins.go and extern/actions.go: what a sequence of triggers can do to the level.
use rips.Prelude.{◌≡◌, ◌⊎◌, true, false, not, String, List, [], ◌∷◌, arith, All, ap}
use rips.Prelude.Int.{ℤ, ◌≤ℤ◌}
use rips.Extern.Host.{Host}
use rips.Extern.Trigger.Laws.{trigger_succeeds, trigger_fails, trigger-init, IsPermitted}
use rips.Tree.Levels.{Level, Engine, trigger_level}

module _ (host : Host) where
  -- The engine after triggers to the levels of the list, in turn, whatever they answer.
  pub trigger_all : List Level → Engine → Engine
  trigger_all [] e = e
  trigger_all (to ∷ rest) e = trigger_all rest (trigger_level host e to).0

  -- The level of the context and that of the environment agree.
  abbrev pub InStep : Engine → Type 0
  InStep e = e.ctx.curr_level ≡ e.level.slevel

  trigger_level-hard :
      (e : Engine) (to : Level)
      → e.level.is_soft ≡ false
      → to.is_soft ≡ false
      → (trigger_level host e to).0.level.is_soft ≡ false
  unfolding trigger_level
  trigger_level-hard e to h k = ground arith

  module _ (number : String → ℤ) where
    -- The level has the number that its name was declared with.
    abbrev pub IsDeclared : Level → Type 0
    IsDeclared l = l.slevel ≡ number l.name

    -- What one trigger does to an engine whose level is declared.
    record Moved (e : Engine) (to : Level) (r : Engine) : Type 0 where
      declared : IsDeclared r.level
      started : e.ctx.init ≡ true → r.ctx.init ≡ true
      in_step : InStep e → InStep r
      step :
          (r.level.slevel ≡ e.level.slevel)
          ⊎ (r.level ≡ to) × IsPermitted (not e.ctx.init) e.level.slevel to.slevel e.level.is_soft

    trigger_level-Moved :
        (e : Engine) (to : Level)
        → IsDeclared e.level
        → IsDeclared to
        → Moved e to (trigger_level host e to).0
    unfolding trigger_level
    trigger_level-Moved e to de dt =
        let l = e.level in
        let yes_case = trigger_succeeds host e.ctx to.name to.slevel l.name l.slevel l.is_soft in
        let no_case = trigger_fails host e.ctx to.name to.slevel l.name l.slevel l.is_soft in
        let init = trigger-init host e.ctx to.name to.slevel l.name l.slevel l.is_soft in
        record {
          declared = ground arith;
          started = λ h. ground (arith, init h);
          in_step = λ h. ground (arith, yes_case, no_case, ap number);
          step = ground (arith, yes_case, no_case);
        }

    -- Whatever triggers are made, the level that the rules read as `CurrLevel` is the level of the
    -- context, if it was at the start and every level has the number its name was declared with.
    pub trigger_all-InStep :
        (list : List Level) (e : Engine)
        → All IsDeclared list
        → IsDeclared e.level
        → InStep e
        → InStep (trigger_all list e)
    unfolding trigger_all
    trigger_all-InStep [] e h d i = i
    trigger_all-InStep (to ∷ rest) e h d i =
        let m = trigger_level-Moved e to d h.0 in
        trigger_all-InStep rest (trigger_level host e to).0 h.1 m.declared (m.in_step i)

    -- A level that was declared, and not as soft.
    abbrev pub IsHard : Level → Type 0
    IsHard l = IsDeclared l × (l.is_soft ≡ false)

    -- In a started engine whose levels are not soft, and each with the number its name was declared
    -- with, no sequence of triggers lowers the level.
    pub hard_levels_never_sink :
        (list : List Level) (e : Engine)
        → All IsHard list
        → IsHard e.level
        → e.ctx.init ≡ true
        → e.level.slevel ≤ℤ (trigger_all list e).level.slevel
    unfolding trigger_all
    hard_levels_never_sink [] e h d i = omega arith
    hard_levels_never_sink (to ∷ rest) e h d i =
        let m = trigger_level-Moved e to d.0 h.0.0 in
        let next = (trigger_level host e to).0 in
        let hard : next.level.is_soft ≡ false = trigger_level-hard e to d.1 h.0.1 in
        let ih = hard_levels_never_sink rest next h.1 (m.declared, hard) (m.started i) in
        ground (arith, ih, m.step)
