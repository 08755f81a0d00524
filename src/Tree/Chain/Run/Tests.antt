-- ===== src/Tree/Chain/Run/Tests.antt =====
-- tree/interp.go: a program with one rule, `signal("SIGUSR1") ? trigger(ALERT) => alert("hot");`, on a
-- message, with a signal that waits.
use rips.Prelude.{arith, ℕ, ◌-◌, ◌≡◌, refl, false, String, Option, some, List, [], ◌∷◌}
use rips.Prelude.Int.{ℤ, pos}
use rips.Prelude.Result.{Result, ok}
use rips.Lex.Token.{tok_comma, tok_then}
use rips.Types.{bool_type, int_type}
use rips.Extern.Ctx.{Report, msg_type_name, alerted, changed_level}
use rips.Extern.Expr.{signal}
use rips.Extern.Trigger.{trigger, alert}
use rips.Extern.Trigger.Frame.{Frame}
use rips.Extern.Trigger.Laws.{reports}
use rips.Extern.Trigger.Reported.{IsReported, reported_level}
use rips.Tree.Levels.{trigger_level}
use rips.Tree.Sym.{
  Val, Sym, Args, no_args, arg, leaf, fcall, new_anon_sym, new_string, new_bool, s_level, s_fcall,
}
use rips.Tree.Eval.{eval_expr}
use rips.Tree.Builtins.World.{World, str_at, arg_at}
use rips.Tree.Builtins.Fns as Fns
use rips.Tree.Builtins.Table.{machine, call_builtin}
use rips.Tree.Chain.{RuleSect, interp_prog, interp_sects, interp_rules, run_actions, do_next}
use rips.Tree.Ops.{copy_val_from}
use rips.Tree.Chain.Invariant.{EndsIn}
use rips.Tree.Chain.Run.{interp_prog-Frame}
use rips.Tree.Exec.{Times, Exec, Prog, interp}
use rips.Tree.Exec.Reported.{interp-IsReported}
use rips.Fixtures.{sample_floats, willing_host, camera_msg, running_ctx}

abbrev level_val : String → ℕ → Val (Option ℕ)
level_val s n = record (new_anon_sym sample_floats s_level) {
  name = s;
  data_type = int_type;
  slevel = pos n;
}

abbrev call_of : String → Args (Option ℕ) → Sym (Option ℕ)
call_of f xs =
    fcall (record (new_anon_sym sample_floats s_fcall) { name = f })
      (some (record { f_name = f; ret_type = bool_type; arg_data_types = []; is_variadic = false }))
      xs

abbrev text : String → Args (Option ℕ)
text s = arg (leaf (new_string sample_floats s)) no_args

abbrev program : RuleSect (Option ℕ)
program = record {
  sect_name = "Msg";
  rules =
      record {
        expr = call_of "signal" (text "SIGUSR1");
        actions =
            record {
              con = tok_comma;
              what = call_of "trigger" (arg (leaf (level_val "ALERT" 1)) no_args);
            }
            ∷ record { con = tok_then; what = call_of "alert" (text "hot") }
            ∷ [];
      }
      ∷ [];
}

abbrev start : World (Option ℕ)
start = record { vars = []; curr_level = level_val "DEFAULT" 0; ctx = running_ctx }

abbrev run : Result (World (Option ℕ))
run =
    interp_prog sample_floats (machine sample_floats willing_host) (program ∷ []) (some camera_msg)
      start

abbrev level_after : Result (World (Option ℕ)) → Option (ℤ × ℕ × List Report)
level_after (ok w) = some (w.ctx.curr_level, w.ctx.nusr1, reports w.ctx.effects)
level_after _ = Option.none

level_rises :
    level_after run ≡ some (pos 1, 0, alerted "hot" ∷ changed_level "ALERT" (pos 1) (pos 1) ∷ [])
unfolding interp_prog eval_expr call_builtin msg_type_name signal trigger alert trigger_level str_at
    arg_at new_anon_sym new_string Fns.signal_fn Fns.trigger_fn Fns.alert_fn reports interp_sects
    interp_rules new_bool copy_val_from run_actions do_next
level_rises = refl

interp_prog-Frame_example : EndsIn (λ w'. Frame start.ctx w'.ctx) run
interp_prog-Frame_example =
    interp_prog-Frame sample_floats willing_host (program ∷ []) (some camera_msg) start

abbrev nanoseconds : Times ℕ
nanoseconds = record { unix_nano = λ t. t; sub_nano = λ a b. a - b }

abbrev whole : Prog (Option ℕ)
whole = record {
  levels = level_val "DEFAULT" 0 ∷ level_val "ALERT" 1 ∷ [];
  rule_sects = program ∷ [];
}

abbrev running : Exec (Option ℕ) ℕ
running = record {
  world = record start { vars = ("Time", level_val "lit" 0) ∷ ("Uptime", level_val "lit" 0) ∷ [] };
  time_started = 5;
}

interp-IsReported_example :
    EndsIn
      (λ e. IsReported (pos 0) e.world.ctx)
      (interp nanoseconds sample_floats willing_host whole 70 running)
unfolding reports reported_level
interp-IsReported_example =
    interp-IsReported nanoseconds sample_floats willing_host whole (pos 0) 70 running (omega arith)
      refl
