-- ===== src/Session/Tests.antt =====
-- rips/rips.go: a session of a program with two levels and no rules.
use rips.Prelude.{ℕ, ◌-◌, ◌≡◌, refl, Option, none, some, String, List, [], ◌∷◌}
use rips.Prelude.Int.{ℤ, pos}
use rips.Prelude.Int64.{signed, pattern_of}
use rips.Prelude.Result.{Result, ok}
use rips.Types.{int_type}
use rips.Extern.Ctx.{Report, changed_level, new_context, update, add_level}
use rips.Extern.Signals.{sigusr1, receive}
use rips.Extern.Trigger.{trigger}
use rips.Extern.Trigger.Laws.{reports}
use rips.Tree.Sym.{Val, new_anon_sym, s_level}
use rips.Tree.Builtins.World.{get_val, set_val, lookup_var}
use rips.Tree.Chain.{interp_prog, interp_sects}
use rips.Tree.Chain.Invariant.{EndsIn}
use rips.Tree.Exec.{Times, Exec, Prog, set_int, set_curr_level, set_predef_vars, interp}
use rips.Session.{
  Event, message, polled, path_found, signalled, add_levels, engine_ctx, enter_first, boot, react,
  react_all, session,
}
use rips.Session.Reported.{session-RangeReported, RangeReported}
use rips.Fixtures.{sample_floats, willing_host, camera_msg}

abbrev nanoseconds : Times ℕ
nanoseconds = record { unix_nano = λ t. t; sub_nano = λ a b. a - b }

abbrev level_val : String → ℕ → Val (Option ℕ)
level_val s n = record (new_anon_sym sample_floats s_level) {
  name = s;
  data_type = int_type;
  int_val = n;
  slevel = pos n;
}

abbrev program : Prog (Option ℕ)
program = record { levels = level_val "DEFAULT" 0 ∷ level_val "ALERT" 1 ∷ []; rule_sects = [] }

abbrev variables : List (String × Val (Option ℕ))
variables = ("Time", level_val "lit" 0) ∷ ("Uptime", level_val "lit" 0) ∷ []

abbrev events : List (Event ℕ)
events = path_found "/tmp/alert" ∷ signalled sigusr1 ∷ message 80 camera_msg ∷ polled 90 ∷ []

abbrev final : Result (Exec (Option ℕ) ℕ)
final =
    session nanoseconds sample_floats willing_host program "/etc/rips/scripts" 70 0 variables
      (level_val "lit" 0) events

abbrev seen : Result (Exec (Option ℕ) ℕ) → Option (ℤ × ℕ × List String × List Report)
seen (ok e) =
    some (e.world.ctx.curr_level, e.world.ctx.nusr1, e.world.ctx.paths, reports e.world.ctx.effects)
seen _ = none

session_runs : seen final ≡ some (pos 0, 1, [], changed_level "DEFAULT" (pos 0) (pos 1) ∷ [])
unfolding session boot react react_all engine_ctx add_levels enter_first set_predef_vars
    set_curr_level set_int get_val add_level new_context lookup_var set_val interp update receive
    trigger interp_prog interp_sects reports new_anon_sym signed pattern_of
session_runs = refl

session-RangeReported_example : EndsIn RangeReported final
unfolding new_anon_sym
session-RangeReported_example =
    session-RangeReported nanoseconds sample_floats willing_host program refl "/etc/rips/scripts" 70
      0 variables (level_val "lit" 0) events
