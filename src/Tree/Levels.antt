-- ===== src/Tree/Levels.antt =====
-- tree/builtins.go: the builtin `trigger`, which keeps the level symbol of the environment (the
-- value of `CurrLevel`) in step with the level of the context, and `levelname`.
pub mod Reach
mod Tests
use rips.Prelude.{
  ℕ, Bool, true, false, not, ◌&&◌, if◌then◌else◌, String, List, get_elem?, Option, none, some,
}
use rips.Prelude.Int.{ℤ, pos_part, pos, ltb_ℤ}
use rips.Prelude.Result.{Result, ok, panic}
use rips.Extern.Ctx.{Ctx}
use rips.Extern.Host.{Host}
use rips.Extern.Trigger.{trigger}

-- The fields of a level symbol that are used here.
pub record Level : Type 0 where
  pub name : String
  pub slevel : ℤ
  pub is_soft : Bool

-- The context, and the level that `CurrLevel` stands for.
pub record Engine : Type 0 where
  pub ctx : Ctx
  pub level : Level

-- `Trigger(context, currlevel, slevelto)`.
unfoldable pub trigger_level : Host → Engine → Level → Engine × Bool
trigger_level host e to =
    let (c', v) =
      trigger host e.ctx to.name to.slevel (e.level).name (e.level).slevel (e.level).is_soft in
    if v then (record { ctx = c'; level = to }, true) else (record e { ctx = c' }, false)

-- `LevelName`, on the number of a level; the context's names may be fewer than `NLevels`.
unfoldable pub level_name : Ctx → ℤ → Result String
level_name c n =
    if not (ltb_ℤ n (pos 0)) && ltb_ℤ n (pos c.n_levels)
    then (elim (get_elem? c.levels (pos_part n)) [ none ↦ panic | some s ↦ ok s ])
    else ok ""
