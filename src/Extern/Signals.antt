-- ===== src/Extern/Signals.antt =====
-- extern/conc.go and extern/expr.go: the counters of the signals SIGUSR1 and SIGUSR2. The dispatcher
-- adds one for each signal, and the predicate `signal` takes one away for each answer true.
mod Tests
use rips.Prelude.{
  ℕ, zero, suc, ◌+◌, ◌≡◌, refl, Bool, true, false, if◌then◌else◌, str_eq, String, List, [], ◌∷◌,
  arith, str_eq_iff,
}
use rips.Extern.Ctx.{Ctx}
use rips.Extern.Expr.{signal}

pub data Sig : Type 0 where
  sigusr1 sigusr2 : Sig

-- The `switch` of the dispatcher on a signal; any other signal ends it.
unfoldable pub receive : Sig → Ctx → Ctx
receive sigusr1 c = record c { nusr1 = c.nusr1 + 1 }
receive sigusr2 c = record c { nusr2 = c.nusr2 + 1 }

-- What happens to the counters: a signal arrives, or a rule asks for one.
pub data SigEvent : Type 0 where
  arrives : Sig → SigEvent
  asked : String → SigEvent

pub sig_step : SigEvent → Ctx → Ctx
sig_step (arrives s) c = receive s c
sig_step (asked name) c = (signal c name).0

abbrev is_usr1 : Sig → ℕ
is_usr1 sigusr1 = 1
is_usr1 sigusr2 = 0

-- The SIGUSR1 that arrive in a trace, and the times that a question for SIGUSR1 is answered true.
pub arrived : List SigEvent → ℕ
arrived [] = 0
arrived (arrives s ∷ es) = is_usr1 s + arrived es
arrived (asked name ∷ es) = arrived es

answered_by : Ctx → String → ℕ
answered_by c name = if str_eq name "SIGUSR1" then (if (signal c name).1 then 1 else 0) else 0

pub answered : List SigEvent → Ctx → ℕ
answered [] c = 0
answered (arrives s ∷ es) c = answered es (receive s c)
answered (asked name ∷ es) c = answered_by c name + answered es (signal c name).0

pub sig_run : List SigEvent → Ctx → Ctx
sig_run [] c = c
sig_run (e ∷ es) c = sig_run es (sig_step e c)

usr1_is_not_usr2 : (name : String) → str_eq name "SIGUSR1" ≡ true → str_eq name "SIGUSR2" ≡ false
usr1_is_not_usr2 name h = rw ((str_eq_iff name "SIGUSR1").0 h) refl

signal-nusr1 : (c : Ctx) (name : String) → answered_by c name + (signal c name).0.nusr1 ≡ c.nusr1
unfolding signal answered_by
signal-nusr1 c name = ground (arith, usr1_is_not_usr2 name)

receive-nusr1 : (s : Sig) (c : Ctx) → (receive s c).nusr1 ≡ is_usr1 s + c.nusr1
unfolding receive
receive-nusr1 sigusr1 c = omega arith
receive-nusr1 sigusr2 c = omega arith

-- No signal is lost or answered twice: over every sequence of arrivals and questions, the answers
-- true to `signal("SIGUSR1")` and the signals still counted add up to the count at the start and
-- the SIGUSR1 that arrived.
pub signals_conserved :
    (es : List SigEvent) (c : Ctx) → answered es c + (sig_run es c).nusr1 ≡ c.nusr1 + arrived es
unfolding answered sig_run sig_step arrived
signals_conserved [] c = omega arith
signals_conserved (arrives s ∷ es) c =
    omega (arith, signals_conserved es (receive s c), receive-nusr1 s c)
signals_conserved (asked name ∷ es) c =
    omega (arith, signals_conserved es (signal c name).0, signal-nusr1 c name)
