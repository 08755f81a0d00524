-- ===== src/Extern/Signals/Tests.antt =====
-- extern/conc.go: the theorem at a short trace.
use rips.Prelude.{◌+◌, ◌≡◌, List, [], ◌∷◌}
use rips.Extern.Signals.{
  SigEvent, arrives, asked, sigusr1, sigusr2, answered, arrived, sig_run, signals_conserved,
}
use rips.Fixtures.{running_ctx}

abbrev trace : List SigEvent
trace = arrives sigusr1 ∷ asked "SIGUSR1" ∷ arrives sigusr2 ∷ asked "SIGUSR2" ∷ []

signals_conserved_example :
    answered trace running_ctx + (sig_run trace running_ctx).nusr1
    ≡ running_ctx.nusr1 + arrived trace
signals_conserved_example = signals_conserved trace running_ctx
