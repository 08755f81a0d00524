-- ===== src/Extern/Dispatch/Laws.antt =====
-- extern/conc.go: no message is lost, run twice or out of order.
use rips.Prelude.{
  zero, suc, ◌≡◌, refl, sym, ap, ◌∙◌, Bool, true, false, Option, none, some, List, [], ◌∷◌, ◌++◌,
}
use mathlib.Core.List.{append_assoc, append-nil}
use rips.Prelude.Result.{Result}
use rips.Extern.Ctx.{Ctx, RosMsg}
use rips.Extern.Dispatch.{
  Decoder, kicking, decoding, waiting, finishing, returned, sending, Dispatcher, starting,
  selecting, answering, running, Work, System, system, exited, Step, kick, decode, at_eof, send,
  answered, send_last, start, take, run, run_dies, poll_dies, answer, take_last, main_returns,
  main_fails, path, poll, usr, killed, Reach, here, next, started,
}

-- The phases of the two sides together, with the message that is on its way between them.
pub data Phase
    : Decoder
      → Option (Option RosMsg)
      → Bool
      → Dispatcher
      → List RosMsg
      → List RosMsg
      → Type 0 where
  at_kick : (i : List RosMsg) → Phase kicking none false starting [] i
  early_decode : (i : List RosMsg) → Phase decoding (some none) false starting [] i
  early_send :
      (m : RosMsg) (i : List RosMsg) → Phase (sending m) (some none) false starting (m ∷ []) i
  early_finish : (i : List RosMsg) → i ≡ [] → Phase finishing (some none) false starting [] i
  at_decode : (i : List RosMsg) → Phase decoding none false selecting [] i
  at_send : (m : RosMsg) (i : List RosMsg) → Phase (sending m) none false selecting (m ∷ []) i
  at_finish : (i : List RosMsg) → i ≡ [] → Phase finishing none false selecting [] i
  sent : (m : RosMsg) (i : List RosMsg) → Phase waiting (some (some m)) false selecting (m ∷ []) i
  at_run : (m : RosMsg) (i : List RosMsg) → Phase waiting none false (running m) (m ∷ []) i
  at_answer : (i : List RosMsg) → Phase waiting none false answering [] i
  acked : (i : List RosMsg) → Phase waiting none true selecting [] i
  last_sent : (i : List RosMsg) → i ≡ [] → Phase returned (some none) false selecting [] i

-- Of the messages `ms`, those that ran, the one on its way and those to decode are all, in order.
abbrev pub Ordered : List RosMsg → System → Type 0
Ordered ms (system d c a p w) =
    (f : List RosMsg) × Phase d c a p f w.input × (w.ran ++ (f ++ w.input) ≡ ms)
Ordered ms (exited zero w) = w.ran ≡ ms
Ordered ms (exited (suc n) w) = (rest : List RosMsg) × (w.ran ++ rest ≡ ms)

module _ (coremain : Ctx → Result Ctx) (ms : List RosMsg) where
  nothing_left : (w : Work) → w.input ≡ [] → w.ran ++ w.input ≡ ms → w.ran ≡ ms
  nothing_left w h e = sym (append-nil w.ran) ∙ ap (λ i. w.ran ++ i) (sym h) ∙ e

  Step-Ordered : {s t : System} → Step coremain s t → Ordered ms s → Ordered ms t
  Step-Ordered (kick p w) (f, at_kick i, e) = ([], early_decode i, e)
  Step-Ordered (decode c a p w m i) (f, early_decode j, e) = (m ∷ [], early_send m i, e)
  Step-Ordered (decode c a p w m i) (f, at_decode j, e) = (m ∷ [], at_send m i, e)
  Step-Ordered (at_eof c a p w) (f, early_decode j, e) = ([], early_finish [] refl, e)
  Step-Ordered (at_eof c a p w) (f, at_decode j, e) = ([], at_finish [] refl, e)
  Step-Ordered (send m a p w) (f, at_send n i, e) = (m ∷ [], sent m w.input, e)
  Step-Ordered (answered c p w) (f, acked i, e) = ([], at_decode w.input, e)
  Step-Ordered (send_last a p w) (f, at_finish i h, e) = ([], last_sent w.input h, e)
  Step-Ordered (start d o a w) (f, early_decode i, e) = ([], at_decode w.input, e)
  Step-Ordered (start d o a w) (f, early_send m i, e) = (m ∷ [], at_send m w.input, e)
  Step-Ordered (start d o a w) (f, early_finish i h, e) = ([], at_finish w.input h, e)
  Step-Ordered (take d m a w) (f, sent n i, e) = (m ∷ [], at_run m w.input, e)
  Step-Ordered (run d c a m w x r) (f, at_run n i, e) =
      ([], at_answer w.input, append_assoc w.ran (m ∷ []) w.input ∙ e)
  Step-Ordered (run_dies d c a m w r) (f, q, e) = (f ++ w.input, e)
  Step-Ordered (answer d c w) (f, at_answer i, e) = ([], acked w.input, e)
  Step-Ordered (take_last d a w) (f, last_sent i h, e) = nothing_left w h e
  Step-Ordered (path d c a w s) (f, q, e) = (f, q, e)
  Step-Ordered (poll d c a w x r) (f, q, e) = (f, q, e)
  Step-Ordered (poll_dies d c a w r) (f, q, e) = (f ++ w.input, e)
  Step-Ordered (usr d c a w s) (f, q, e) = (f, q, e)
  Step-Ordered (killed d c a w) (f, q, e) = (f ++ w.input, e)
  Step-Ordered (main_returns c a p w) (f, last_sent i h, e) = nothing_left w h e
  Step-Ordered (main_fails c a p w) (f, q, e) = (f ++ w.input, e)

  Reach-Ordered : {s t : System} → Ordered ms s → Reach coremain s t → Ordered ms t
  Reach-Ordered h here = h
  Reach-Ordered h (next t u r st) = Step-Ordered st (Reach-Ordered h r)

  -- From the start, whatever the decoder, the dispatcher and the outside do, at any time the messages on
  -- which `Coremain` has returned, the one on its way and those still to decode are the messages of the
  -- socket, each once and in order. When the process ends with status 0, `Coremain` has returned on each
  -- of them, once and in order; when it ends with another status, as it does if `Coremain` does not
  -- return, on the first so many of them.
  pub started-Ordered : (c : Ctx) {t : System} → Reach coremain (started c ms) t → Ordered ms t
  started-Ordered c = Reach-Ordered ([], at_kick ms, refl)
