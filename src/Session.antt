-- ===== src/Session.antt =====
-- rips/rips.go and extern/conc.go: the engine from its start over the messages, polls, signals and
-- paths that the dispatcher takes one after the other. `Coremain` is `Prog.Interp` on the environment
-- of execution. The steps of the dispatcher beside its decoder are in Extern.Dispatch.
pub mod Laws
pub mod Reported
mod Tests
use rips.Prelude.{Bool, false, String, Option, none, some, List, [], ◌∷◌, length}
use rips.Prelude.Result.{Result, ok, ◌>>=◌}
use rips.Extern.Ctx.{Ctx, RosMsg, new_context, update, add_level}
use rips.Extern.Host.{Host}
use rips.Extern.Signals.{Sig, receive}
use rips.Extern.Trigger.{trigger}
use rips.Tree.Sym.{Floats, Val}
use rips.Tree.Builtins.World.{World}
use rips.Tree.Exec.{Times, Exec, Prog, set_predef_vars, interp}

-- What the dispatcher takes at its `select`, with the time of a run of the program.
pub data Event (T : Type 0) : Type 0 where
  message : T → RosMsg → Event T
  polled : T → Event T
  path_found : String → Event T
  signalled : Sig → Event T

module _ {F : Type 0} where
  unfoldable pub add_levels : List (Val F) → Ctx → Ctx
  add_levels [] c = c
  add_levels (l ∷ ls) c = add_levels ls (add_level c l.name)

  -- The context of a program with these levels.
  unfoldable pub engine_ctx : String → List (Val F) → Ctx
  engine_ctx spath levels = add_levels levels (new_context none spath (length levels))

module _ {F T : Type 0} (times : Times T) (fl : Floats F) (host : Host) (p : Prog F) where
  -- The level at the start is entered.
  unfoldable pub enter_first : Exec F T → Exec F T
  enter_first e =
      let l = e.world.curr_level in
      record e {
        world = record e.world {
          ctx = (trigger host e.world.ctx l.name l.slevel l.name l.slevel false).0;
        };
      }

  -- `main`, on the variables and the level that the new environment of execution has.
  unfoldable pub boot : String → T → T → List (String × Val F) → Val F → Result (Exec F T)
  boot spath now zero_time vars level =
      set_predef_vars times p now (record {
        world = record { vars = vars; curr_level = level; ctx = engine_ctx spath p.levels };
        time_started = zero_time;
      })
      >>= λ e. ok (enter_first e)

  abbrev pub with_ctx : Ctx → Exec F T → Exec F T
  with_ctx c e = record e { world = record e.world { ctx = c } }

  unfoldable pub react : Event T → Exec F T → Result (Exec F T)
  react (message now m) e = interp times fl host p now (with_ctx (update e.world.ctx (some m)) e)
  react (polled now) e = interp times fl host p now (with_ctx (update e.world.ctx none) e) >>= λ e.
      ok (with_ctx (record e.world.ctx { paths = [] }) e)
  react (path_found s) e = ok (with_ctx (record e.world.ctx { paths = s ∷ e.world.ctx.paths }) e)
  react (signalled s) e = ok (with_ctx (receive s e.world.ctx) e)

  unfoldable pub react_all : List (Event T) → Exec F T → Result (Exec F T)
  react_all [] e = ok e
  react_all (ev ∷ evs) e = react ev e >>= react_all evs

  unfoldable pub session :
      String → T → T → List (String × Val F) → Val F → List (Event T) → Result (Exec F T)
  session spath now zero_time vars level evs = boot spath now zero_time vars level >>= react_all evs
