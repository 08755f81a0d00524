-- ===== src/Extern/Dispatch/Tests.antt =====
-- extern/conc.go: the theorems on the dispatcher at a run with two messages and a signal between.
use rips.Prelude.{◌≡◌, refl, false, none, some, List, [], ◌∷◌}
use rips.Prelude.Result.{Result, ok}
use rips.Extern.Ctx.{Ctx, RosMsg, update}
use rips.Extern.Signals.{sigusr1, receive}
use rips.Extern.Dispatch.{
  decoding, waiting, starting, selecting, running, Work, system, exited, kick, decode, send, start,
  take, usr, Reach, here, next, started,
}
use rips.Extern.Dispatch.Laws.{Ordered, started-Ordered}
use rips.Extern.Dispatch.Ends.{started-CanEnd}
use rips.Fixtures.{camera_msg, running_ctx}

abbrev quiet : Ctx → Result Ctx
quiet c = ok (record c { nusr1 = 0 })

abbrev two : List RosMsg
two = camera_msg ∷ camera_msg ∷ []

abbrev at_start : Work
at_start = record { input = two; ctx = running_ctx; ran = [] }

abbrev at_one : Work
at_one = record { input = camera_msg ∷ []; ctx = running_ctx; ran = [] }

abbrev at_signal : Work
at_signal = record { input = camera_msg ∷ []; ctx = receive sigusr1 running_ctx; ran = [] }

abbrev at_take : Work
at_take = record {
  input = camera_msg ∷ [];
  ctx = update (receive sigusr1 running_ctx) (some camera_msg);
  ran = [];
}

abbrev reached :
    Reach quiet (started running_ctx two) (system waiting none false (running camera_msg) at_take)
reached =
    next _ _
      (next _ _
        (next _ _
          (next _ _
            (next _ _ (next _ _ here (kick starting at_start)) (start decoding none false at_start))
            (decode none false selecting at_start camera_msg (camera_msg ∷ [])))
          (send camera_msg false selecting at_one))
        (usr waiting (some (some camera_msg)) false at_one sigusr1))
      (take waiting camera_msg false at_signal)

started-Ordered_example : Ordered two (system waiting none false (running camera_msg) at_take)
started-Ordered_example = started-Ordered quiet two running_ctx reached

started-CanEnd_example :
    (v : Work) × Reach quiet (system waiting none false (running camera_msg) at_take) (exited 0 v)
    × (v.ran ≡ two)
started-CanEnd_example =
    started-CanEnd quiet (λ c. (_, refl)) running_ctx two waiting none false (running camera_msg)
      at_take reached
