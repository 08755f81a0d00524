-- ===== src/Session/Reported.antt =====
-- rips/rips.go and extern/conc.go: the alert level over a session against the reports of the engine.
use rips.Prelude.{◌≡◌, refl, sym, false, none, String, List, [], ◌∷◌, length}
use mathlib.Core.Path.{subst}
use rips.Prelude.Int.{pos}
use rips.Prelude.Result.{Result, ok, fatal, panic}
use rips.Extern.Ctx.{Ctx, new_context, update, add_level}
use rips.Extern.Host.{Host}
use rips.Extern.Signals.{sigusr1, sigusr2, receive}
use rips.Extern.Trigger.Laws.{reports}
use rips.Extern.Trigger.Reported.{InRange, IsReported, reported_level, trigger-IsReported}
use rips.Tree.Sym.{Floats, Val}
use rips.Tree.Chain.Invariant.{EndsIn, bind-EndsIn}
use rips.Tree.Exec.{Times, Exec, Prog}
use rips.Tree.Exec.Laws.{FromZero, set_predef_vars-EndsIn}
use rips.Tree.Exec.Reported.{set_curr_level-first, interp-IsReported}
use rips.Session.{
  Event, message, polled, path_found, signalled, add_levels, engine_ctx, enter_first, boot, react,
  react_all, session,
}
use rips.Session.Laws.{engine_ctx-curr_level, boot-InRange, react-InRange}

both-EndsIn :
    {W : Type 0} (I J : W → Type 0) (r : Result W)
    → EndsIn I r
    → EndsIn J r
    → EndsIn (λ w. I w × J w) r
both-EndsIn I J (ok w) i j = (i, j)
both-EndsIn I J fatal i j = tt
both-EndsIn I J panic i j = tt

module _ {F : Type 0} where
  add_levels-effects : (ls : List (Val F)) (c : Ctx) → (add_levels ls c).effects ≡ c.effects
  unfolding add_levels add_level
  add_levels-effects [] c = refl
  add_levels-effects (l ∷ ls) c = add_levels-effects ls (add_level c l.name)

  engine_ctx-effects : (spath : String) (ls : List (Val F)) → (engine_ctx spath ls).effects ≡ []
  unfolding engine_ctx new_context
  engine_ctx-effects spath ls = add_levels-effects ls (new_context none spath (length ls))

  -- Before the first report, the level counts as 0.
  engine_ctx-IsReported :
      (spath : String) (ls : List (Val F))
      → IsReported (pos 0) (record (engine_ctx spath ls) { curr_level = pos 0 })
  unfolding reports reported_level
  engine_ctx-IsReported spath ls =
      subst (λ es. pos 0 ≡ reported_level (pos 0) (reports es)) (sym (engine_ctx-effects spath ls))
        refl

module _ {F T : Type 0} where
  abbrev Reported : Exec F T → Type 0
  Reported e = IsReported (pos 0) e.world.ctx

  abbrev pub RangeReported : Exec F T → Type 0
  RangeReported e = InRange e.world.ctx × Reported e

module _ {F T : Type 0} (times : Times T) (fl : Floats F) (host : Host) (p : Prog F)
    (zeroth : FromZero p.levels) where
  boot-Reported :
      (spath : String) (now zero_time : T) (vars : List (String × Val F)) (level : Val F)
      → EndsIn Reported (boot times fl host p spath now zero_time vars level)
  unfolding boot enter_first
  boot-Reported spath now zero_time vars level =
      bind-EndsIn Reported Reported _ _
        (set_predef_vars-EndsIn times (IsReported (pos 0)) p now _ (
          set_curr_level-first (IsReported (pos 0)) p.levels _
            (engine_ctx-curr_level spath p.levels) zeroth (engine_ctx-IsReported spath p.levels)))
        (λ e h.
          trigger-IsReported host (pos 0) e.world.ctx e.world.curr_level.name
            e.world.curr_level.slevel e.world.curr_level.name e.world.curr_level.slevel false h)

  react-Reported :
      (ev : Event T) (e : Exec F T) → RangeReported e → EndsIn Reported (react times fl host p ev e)
  unfolding react update receive
  react-Reported (message now m) e h = interp-IsReported times fl host p (pos 0) now _ (h.0).0 h.1
  react-Reported (polled now) e h =
      bind-EndsIn Reported Reported _ _
        (interp-IsReported times fl host p (pos 0) now _ (h.0).0 h.1) (λ e h. h)
  react-Reported (path_found s) e h = h.1
  react-Reported (signalled sigusr1) e h = h.1
  react-Reported (signalled sigusr2) e h = h.1

  react_all-RangeReported :
      (evs : List (Event T)) (e : Exec F T)
      → RangeReported e
      → EndsIn RangeReported (react_all times fl host p evs e)
  unfolding react_all
  react_all-RangeReported [] e h = h
  react_all-RangeReported (ev ∷ evs) e h =
      bind-EndsIn RangeReported RangeReported _ _
        (both-EndsIn (λ e. InRange e.world.ctx) Reported _
          (react-InRange times fl host p zeroth ev e h.0) (react-Reported ev e h))
        (react_all-RangeReported evs)

  -- If the first level of the program has the number 0, then from the start of the engine, whatever
  -- variables it starts with and whatever messages, polls, paths and signals the dispatcher takes,
  -- the level of the context is between 0 and the number of levels, and it is the one that the
  -- engine reported last, or 0 before any report of a level, if each run of the program ends.
  pub session-RangeReported :
      (spath : String) (now zero_time : T) (vars : List (String × Val F)) (level : Val F)
      (evs : List (Event T))
      → EndsIn RangeReported (session times fl host p spath now zero_time vars level evs)
  unfolding session
  session-RangeReported spath now zero_time vars level evs =
      bind-EndsIn RangeReported RangeReported _ _
        (both-EndsIn (λ e. InRange e.world.ctx) Reported _
          (boot-InRange times fl host p zeroth spath now zero_time vars level)
          (boot-Reported spath now zero_time vars level))
        (react_all-RangeReported evs)
