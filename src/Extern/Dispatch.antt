-- ===== src/Extern/Dispatch.antt =====
-- extern/conc.go: `MsgDecoder` and `Dispatcher`, with the two channels between them. The channels hold
-- one message, as rips/rips.go makes them. A step is what one of the two does, or what comes from
-- outside; `select` takes any case that is ready. `Decode` gives the messages of `input` and then an
-- error, io.EOF or another, which sets the status with which the main thread ends the process (rips/rips.go)
-- if the dispatcher does not do it first. `Coremain` is a parameter, which may not return: a panic,
-- `context.Fatal` and the action crash all end the process with status 2.
mod Ends
mod Laws
mod Tests
use rips.Prelude.{ℕ, zero, suc, Bool, true, false, String, Option, none, some, List, [], ◌∷◌, ◌++◌}
use rips.Prelude.{◌≡◌}
use rips.Prelude.Result.{Result, ok, fatal, panic}
use rips.Extern.Ctx.{Ctx, RosMsg, update}
use rips.Extern.Signals.{Sig, receive}

-- Where `MsgDecoder` is: before its first message to the dispatcher, before `Decode`, before the send of
-- a message, before the receive of the answer, before its last send, and at its end.
pub data Decoder : Type 0 where
  kicking decoding waiting finishing returned : Decoder
  sending : RosMsg → Decoder

-- Where `Dispatcher` is: before the kick-off, at `select`, before `Coremain` on a message, and before the
-- answer.
pub data Dispatcher : Type 0 where
  starting selecting answering : Dispatcher
  running : RosMsg → Dispatcher

-- What is left to decode, the context, and the messages on which `Coremain` has returned, in order.
pub record Work : Type 0 where
  pub input : List RosMsg
  pub ctx : Ctx
  pub ran : List RosMsg

-- The decoder, the channel `mc`, whether an answer is in `mcr`, and the dispatcher; or the exit of the
-- process with its status.
pub data System : Type 0 where
  system : Decoder → Option (Option RosMsg) → Bool → Dispatcher → Work → System
  exited : ℕ → Work → System

-- `Coremain` does not return.
abbrev pub Dies : Result Ctx → Type 0
Dies (ok c) = ⊥
Dies fatal = Unit {0}
Dies panic = Unit {0}

module _ (coremain : Ctx → Result Ctx) where
  pub data Step : System → System → Type 0 where
    kick :
        (p : Dispatcher) (w : Work)
        → Step (system kicking none false p w) (system decoding (some none) false p w)
    decode :
        (c : Option (Option RosMsg)) (a : Bool) (p : Dispatcher) (w : Work) (m : RosMsg)
        (ms : List RosMsg)
        → Step
            (system decoding c a p (record w { input = m ∷ ms }))
            (system (sending m) c a p (record w { input = ms }))
    at_eof :
        (c : Option (Option RosMsg)) (a : Bool) (p : Dispatcher) (w : Work)
        → Step
            (system decoding c a p (record w { input = [] }))
            (system finishing c a p (record w { input = [] }))
    send :
        (m : RosMsg) (a : Bool) (p : Dispatcher) (w : Work)
        → Step (system (sending m) none a p w) (system waiting (some (some m)) a p w)
    answered :
        (c : Option (Option RosMsg)) (p : Dispatcher) (w : Work)
        → Step (system waiting c true p w) (system decoding c false p w)
    send_last :
        (a : Bool) (p : Dispatcher) (w : Work)
        → Step (system finishing none a p w) (system returned (some none) a p w)
    start :
        (d : Decoder) (o : Option RosMsg) (a : Bool) (w : Work)
        → Step (system d (some o) a starting w) (system d none a selecting w)
    take :
        (d : Decoder) (m : RosMsg) (a : Bool) (w : Work)
        → Step
            (system d (some (some m)) a selecting w)
            (system d none a (running m) (record w { ctx = update w.ctx (some m) }))
    run :
        (d : Decoder) (c : Option (Option RosMsg)) (a : Bool) (m : RosMsg) (w : Work) (x : Ctx)
        → coremain w.ctx ≡ ok x
        → Step
            (system d c a (running m) w)
            (system d c a answering (record w { ctx = x; ran = w.ran ++ m ∷ [] }))
    run_dies :
        (d : Decoder) (c : Option (Option RosMsg)) (a : Bool) (m : RosMsg) (w : Work)
        → Dies (coremain w.ctx)
        → Step (system d c a (running m) w) (exited 2 w)
    answer :
        (d : Decoder) (c : Option (Option RosMsg)) (w : Work)
        → Step (system d c false answering w) (system d c true selecting w)
    take_last :
        (d : Decoder) (a : Bool) (w : Work)
        → Step
            (system d (some none) a selecting w)
            (exited 0 (record w { ctx = update w.ctx none }))
    path :
        (d : Decoder) (c : Option (Option RosMsg)) (a : Bool) (w : Work) (s : String)
        → Step
            (system d c a selecting w)
            (system d c a selecting (record w { ctx = record w.ctx { paths = s ∷ w.ctx.paths } }))
    poll :
        (d : Decoder) (c : Option (Option RosMsg)) (a : Bool) (w : Work) (x : Ctx)
        → coremain (update w.ctx none) ≡ ok x
        → Step
            (system d c a selecting w)
            (system d c a selecting (record w { ctx = record x { paths = [] } }))
    poll_dies :
        (d : Decoder) (c : Option (Option RosMsg)) (a : Bool) (w : Work)
        → Dies (coremain (update w.ctx none))
        → Step (system d c a selecting w) (exited 2 (record w { ctx = update w.ctx none }))
    usr :
        (d : Decoder) (c : Option (Option RosMsg)) (a : Bool) (w : Work) (s : Sig)
        → Step
            (system d c a selecting w)
            (system d c a selecting (record w { ctx = receive s w.ctx }))
    killed :
        (d : Decoder) (c : Option (Option RosMsg)) (a : Bool) (w : Work)
        → Step (system d c a selecting w) (exited 1 w)
    main_returns :
        (c : Option (Option RosMsg)) (a : Bool) (p : Dispatcher) (w : Work)
        → Step (system returned c a p w) (exited 0 w)
    main_fails :
        (c : Option (Option RosMsg)) (a : Bool) (p : Dispatcher) (w : Work)
        → Step (system returned c a p w) (exited 1 w)

  pub data Reach (s : System) : System → Type 0 where
    here : Reach s s
    next : (t u : System) → Reach s t → Step t u → Reach s u

-- Both sides at their start, with the messages that the socket will give.
abbrev pub started : Ctx → List RosMsg → System
started c ms = system kicking none false starting (record { input = ms; ctx = c; ran = [] })
