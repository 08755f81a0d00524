-- ===== src/Extern/Dispatch/Ends.antt =====
-- extern/conc.go: the decoder and the dispatcher cannot block each other.
use rips.Prelude.{◌≡◌, Bool, true, false, Option, none, some, List, [], ◌∷◌, ◌++◌}
use rips.Prelude.Result.{Result, ok}
use rips.Extern.Ctx.{Ctx, RosMsg, update}
use rips.Extern.Dispatch.{
  Decoder, decoding, waiting, finishing, returned, sending, Dispatcher, starting, selecting,
  answering, running, Work, System, system, exited, Step, kick, decode, at_eof, send, answered,
  send_last, start, take, run, answer, take_last, Reach, here, next, started,
}
use rips.Extern.Dispatch.Laws.{
  Phase, started-Ordered, early_decode, early_send, early_finish, at_kick, at_decode, at_send,
  at_finish, sent, at_run, at_answer, acked, last_sent,
}

-- Steps of the two lead from the state to an end of the process with status 0.
abbrev pub CanEnd : (Ctx → Result Ctx) → System → Type 0
CanEnd coremain s = (w : Work) × Reach coremain s (exited 0 w)

-- `Coremain` returns on every context: it does not panic, and does not stop the process.
abbrev pub Returns : (Ctx → Result Ctx) → Type 0
Returns coremain = (c : Ctx) → (x : Ctx) × (coremain c ≡ ok x)

module _ (coremain : Ctx → Result Ctx) where
  precede : {s t u : System} → Step coremain s t → Reach coremain t u → Reach coremain s u
  precede {s = s} {t = t} st here = next s t here st
  precede st (next v u r st₂) = next v u (precede st r) st₂

  onward : {s t u : System} → Reach coremain s t → Reach coremain t u → Reach coremain s u
  onward r here = r
  onward r (next t u r₂ st) = next t u (onward r r₂) st

  first : {s t : System} → Step coremain s t → CanEnd coremain t → CanEnd coremain s
  first st (w, r) = (w, precede st r)

module _ (coremain : Ctx → Result Ctx) (returns : Returns coremain) where
  from_last : (w : Work) → CanEnd coremain (system returned (some none) false selecting w)
  from_last w =
      first coremain (take_last returned false w) (record w { ctx = update w.ctx none }, here)

  from_finish : (w : Work) → CanEnd coremain (system finishing none false selecting w)
  from_finish w = first coremain (send_last false selecting w) (from_last w)

  run_ctx : Ctx → Ctx
  run_ctx c = (returns c).0

  after : RosMsg → Work → Work
  after m w = record w { ctx = run_ctx (update w.ctx (some m)); ran = w.ran ++ m ∷ [] }

  Resumes : Work → Type 0
  Resumes w = CanEnd coremain (system decoding none false selecting w)

  from_acked : (w : Work) → Resumes w → CanEnd coremain (system waiting none true selecting w)
  unfolding Resumes
  from_acked w h = first coremain (answered none selecting w) h

  from_answer : (w : Work) → Resumes w → CanEnd coremain (system waiting none false answering w)
  from_answer w h = first coremain (answer waiting none w) (from_acked w h)

  from_run :
      (m : RosMsg) (w : Work)
      → Resumes (record w { ctx = run_ctx w.ctx; ran = w.ran ++ m ∷ [] })
      → CanEnd coremain (system waiting none false (running m) w)
  unfolding run_ctx
  from_run m w h =
      first coremain (run waiting none false m w (run_ctx w.ctx) (returns w.ctx).1)
        (from_answer (record w { ctx = run_ctx w.ctx; ran = w.ran ++ m ∷ [] }) h)

  from_sent :
      (m : RosMsg) (w : Work)
      → Resumes (after m w)
      → CanEnd coremain (system waiting (some (some m)) false selecting w)
  unfolding after run_ctx
  from_sent m w h =
      first coremain (take waiting m false w)
        (from_run m (record w { ctx = update w.ctx (some m) }) h)

  from_send :
      (m : RosMsg) (w : Work)
      → Resumes (after m w)
      → CanEnd coremain (system (sending m) none false selecting w)
  from_send m w h = first coremain (send m false selecting w) (from_sent m w h)

  from_decode : (i r : List RosMsg) (c : Ctx) → Resumes (record { input = i; ctx = c; ran = r })
  unfolding Resumes after run_ctx
  from_decode [] r c =
      first coremain (at_eof none false selecting (record { input = []; ctx = c; ran = r }))
        (from_finish (record { input = []; ctx = c; ran = r }))
  from_decode (m ∷ i) r c =
      first coremain (decode none false selecting (record { input = m ∷ i; ctx = c; ran = r }) m i)
        (from_send m (record { input = i; ctx = c; ran = r })
          (from_decode i (r ++ m ∷ []) (run_ctx (update c (some m)))))

  resume : (w : Work) → Resumes w
  resume w = from_decode w.input w.ran w.ctx

  from_phase :
      (d : Decoder) (c : Option (Option RosMsg)) (a : Bool) (p : Dispatcher) (w : Work)
      (f : List RosMsg)
      → Phase d c a p f w.input
      → CanEnd coremain (system d c a p w)
  unfolding Resumes
  from_phase d c a p w f (at_kick i) =
      first coremain (kick starting w) (first coremain (start decoding none false w) (resume w))
  from_phase d c a p w f (early_decode i) = first coremain (start decoding none false w) (resume w)
  from_phase d c a p w f (early_send m i) =
      first coremain (start (sending m) none false w) (from_send m w (resume (after m w)))
  from_phase d c a p w f (early_finish i h) =
      first coremain (start finishing none false w) (from_finish w)
  from_phase d c a p w f (at_decode i) = resume w
  from_phase d c a p w f (at_send m i) = from_send m w (resume (after m w))
  from_phase d c a p w f (at_finish i h) = from_finish w
  from_phase d c a p w f (sent m i) = from_sent m w (resume (after m w))
  from_phase d c a p w f (at_run m i) =
      from_run m w (resume (record w { ctx = run_ctx w.ctx; ran = w.ran ++ m ∷ [] }))
  from_phase d c a p w f (at_answer i) = from_answer w (resume w)
  from_phase d c a p w f (acked i) = from_acked w (resume w)
  from_phase d c a p w f (last_sent i h) = from_last w

  -- From every state that the decoder, the dispatcher and the outside can have reached from the start and
  -- in which the process runs, some further steps lead to the end with status 0, and `Coremain` has then
  -- returned on each message of the socket once and in order, if `Coremain` returns on every context.
  pub started-CanEnd :
      (c : Ctx) (ms : List RosMsg) (d : Decoder) (ch : Option (Option RosMsg)) (a : Bool)
      (p : Dispatcher) (w : Work)
      → Reach coremain (started c ms) (system d ch a p w)
      → (v : Work) × Reach coremain (system d ch a p w) (exited 0 v) × (v.ran ≡ ms)
  started-CanEnd c ms d ch a p w r =
      let (f, q, _) = started-Ordered coremain ms c r in
      let (v, r₂) = from_phase d ch a p w f q in
      (v, r₂, started-Ordered coremain ms c (onward coremain r r₂))
