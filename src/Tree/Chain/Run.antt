-- ===== src/Tree/Chain/Run.antt =====
-- tree/interp.go: what the rules of a program can do to the context of execution on one message.
mod Tests
use rips.Prelude.{ℕ, ◌≡◌, refl, ◌∙◌, String, Option, List, [], ◌∷◌, arith}
use rips.Prelude.Int.{ℤ, pos, ◌≤ℤ◌}
use rips.Extern.Host.{Host}
use rips.Extern.Ctx.{Ctx, RosMsg}
use rips.Extern.Expr.{signal}
use rips.Extern.Trigger.{alert, exec, trigger}
use rips.Extern.Trigger.Laws.{reports, trigger_succeeds, trigger_fails}
use rips.Extern.Trigger.Frame.{
  Frame, Frame-refl, alert-Frame, exec-Frame, signal-Frame, trigger-Frame,
}
use rips.Extern.Trigger.Reported.{
  IsReported, alert-IsReported, exec-IsReported, signal-IsReported, trigger-IsReported, InRange,
  alert-InRange, exec-InRange, signal-InRange, trigger-InRange,
}
use rips.Tree.Sym.{Floats}
use rips.Tree.Builtins.World.{World}
use rips.Tree.Builtins.Table.{machine}
use rips.Tree.Builtins.Invariant.{call_builtin-Ends, InCtx}
use rips.Tree.Chain.{RuleSect, interp_prog}
use rips.Tree.Chain.Invariant.{EndsIn, interp_prog-EndsIn}

module _ {F : Type 0} (fl : Floats F) (host : Host) (sects : List (RuleSect F))
    (msg : Option RosMsg) (w : World F) where
  -- If the run of a program on a message ends, the context has the message, the folder of scripts,
  -- the levels and the logs that it had, no signal counted more than before, the engine is still
  -- started if it was, and the effects are those before with more after them.
  pub interp_prog-Frame :
      EndsIn (λ w'. Frame w.ctx w'.ctx) (interp_prog fl (machine fl host) sects msg w)
  interp_prog-Frame =
      interp_prog-EndsIn fl (machine fl host) _
        (call_builtin-Ends fl host (Frame w.ctx) (alert-Frame host w.ctx) (exec-Frame host w.ctx)
          (signal-Frame host w.ctx) (trigger-Frame host w.ctx))
        sects msg w (Frame-refl w.ctx)

  -- If the level of the context is the one that the engine reported last (or, before any report, the
  -- level `n`), it still is after the run of a program on a message, if the run ends.
  pub interp_prog-IsReported :
      (n : ℤ)
      → IsReported n w.ctx
      → EndsIn (λ w'. IsReported n w'.ctx) (interp_prog fl (machine fl host) sects msg w)
  interp_prog-IsReported n h =
      interp_prog-EndsIn fl (machine fl host) _
        (call_builtin-Ends fl host (IsReported n) (alert-IsReported host n) (exec-IsReported host n)
          (signal-IsReported host n) (trigger-IsReported host n))
        sects msg w h

  -- If the level of the context is between 0 and the number of levels, it still is after the run of a
  -- program on a message, if the run ends.
  pub interp_prog-InRange :
      InRange w.ctx → EndsIn (λ w'. InRange w'.ctx) (interp_prog fl (machine fl host) sects msg w)
  interp_prog-InRange h =
      interp_prog-EndsIn fl (machine fl host) _
        (call_builtin-Ends fl host InRange (alert-InRange host) (exec-InRange host)
          (signal-InRange host) (trigger-InRange host))
        sects msg w h
