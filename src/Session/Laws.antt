-- ===== src/Session/Laws.antt =====
-- rips/rips.go and extern/conc.go: the alert level over a session.
use rips.Prelude.{◌≡◌, refl, sym, false, none, String, List, [], ◌∷◌, length, arith}
use mathlib.Core.Path.{subst}
use rips.Prelude.Int.{pos, negsuc, ◌≤ℤ◌}
use rips.Extern.Ctx.{Ctx, new_context, update, add_level}
use rips.Extern.Host.{Host}
use rips.Extern.Signals.{sigusr1, sigusr2, receive}
use rips.Extern.Trigger.Reported.{InRange, trigger-InRange}
use rips.Tree.Sym.{Floats, Val}
use rips.Tree.Chain.Invariant.{EndsIn, bind-EndsIn}
use rips.Tree.Exec.{Times, Exec, Prog}
use rips.Tree.Exec.Laws.{FromZero, set_predef_vars-InRange, interp-InRange}
use rips.Session.{
  Event, message, polled, path_found, signalled, add_levels, engine_ctx, enter_first, boot, react,
}

module _ {F : Type 0} where
  add_levels-curr_level :
      (ls : List (Val F)) (c : Ctx) → (add_levels ls c).curr_level ≡ c.curr_level
  unfolding add_levels add_level
  add_levels-curr_level [] c = refl
  add_levels-curr_level (l ∷ ls) c = add_levels-curr_level ls (add_level c l.name)

  -- Before the first run, the level is -1.
  pub engine_ctx-curr_level :
      (spath : String) (ls : List (Val F)) → (engine_ctx spath ls).curr_level ≡ negsuc 0
  unfolding engine_ctx new_context
  engine_ctx-curr_level spath ls = add_levels-curr_level ls (new_context none spath (length ls))

module _ {F T : Type 0} (times : Times T) (fl : Floats F) (host : Host) (p : Prog F)
    (zeroth : FromZero p.levels) where
  abbrev LevelInRange : Exec F T → Type 0
  LevelInRange e = InRange e.world.ctx

  pub boot-InRange :
      (spath : String) (now zero_time : T) (vars : List (String × Val F)) (level : Val F)
      → EndsIn LevelInRange (boot times fl host p spath now zero_time vars level)
  unfolding boot enter_first
  boot-InRange spath now zero_time vars level =
      bind-EndsIn LevelInRange LevelInRange _ _
        (set_predef_vars-InRange times p now _
          (subst (λ k. k ≤ℤ pos (engine_ctx spath p.levels).n_levels)
            (sym (engine_ctx-curr_level spath p.levels)) (omega arith))
          zeroth)
        (λ e h.
          trigger-InRange host e.world.ctx e.world.curr_level.name e.world.curr_level.slevel
            e.world.curr_level.name e.world.curr_level.slevel false h)

  pub react-InRange :
      (ev : Event T) (e : Exec F T)
      → LevelInRange e
      → EndsIn LevelInRange (react times fl host p ev e)
  unfolding react update receive
  react-InRange (message now m) e h = interp-InRange times fl host p now _ h.1 zeroth
  react-InRange (polled now) e h =
      bind-EndsIn LevelInRange LevelInRange _ _ (interp-InRange times fl host p now _ h.1 zeroth)
        (λ e h. h)
  react-InRange (path_found s) e h = h
  react-InRange (signalled sigusr1) e h = h
  react-InRange (signalled sigusr2) e h = h
