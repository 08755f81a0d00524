-- ===== src/Tree/Exec/Tests.antt =====
-- tree/vars.go and tree/interp.go: the first message of a run with two levels, of which the first has
-- the number 0. A time is a number of nanoseconds.
use rips.Prelude.{ℕ, ◌-◌, ◌≡◌, refl, Option, none, some, [], ◌∷◌, arith}
use rips.Prelude.Int.{ℤ, pos}
use rips.Prelude.Int64.{signed, pattern_of}
use rips.Prelude.Result.{Result, ok}
use rips.Types.{int_type}
use rips.Extern.Ctx.{new_context}
use rips.Tree.Sym.{Val, new_anon_sym, s_level, s_const}
use rips.Tree.Builtins.World.{get_val, set_val, lookup_var}
use rips.Tree.Exec.{Times, Exec, Prog, set_int, set_curr_level, set_predef_vars}
use rips.Tree.Exec.Laws.{Gives, Predefined, int_of, set_predef_vars-Gives}
use rips.Fixtures.{sample_floats, camera_msg}

abbrev nanoseconds : Times ℕ
nanoseconds = record { unix_nano = λ t. t; sub_nano = λ a b. a - b }

abbrev int_val : ℕ → Val (Option ℕ)
int_val n = record (new_anon_sym sample_floats s_const) { data_type = int_type; int_val = n }

abbrev level_val : ℕ → Val (Option ℕ)
level_val n = record (new_anon_sym sample_floats s_level) {
  data_type = int_type;
  int_val = n;
  slevel = pos n;
}

abbrev program : Prog (Option ℕ)
program = record { levels = level_val 0 ∷ level_val 1 ∷ []; rule_sects = [] }

abbrev at_start : Exec (Option ℕ) ℕ
at_start = record {
  world = record {
    vars = ("Time", int_val 0) ∷ ("Uptime", int_val 0) ∷ [];
    curr_level = int_val 5;
    ctx = new_context (some camera_msg) "/etc/rips/scripts" 2;
  };
  time_started = 0;
}

abbrev numbers : Result (Exec (Option ℕ) ℕ) → Option (ℤ × ℕ × Option ℕ × Option ℕ)
numbers (ok e) = some (
  e.world.ctx.curr_level,
  e.world.curr_level.int_val,
  int_of "Time" e.world,
  int_of "Uptime" e.world,
)
numbers _ = none

first_message :
    numbers (set_predef_vars nanoseconds program 70 at_start) ≡ some (pos 0, 0, some 70, some 0)
unfolding set_predef_vars set_curr_level set_int get_val set_val lookup_var signed pattern_of
    new_anon_sym new_context
first_message = refl

abbrev later : Exec (Option ℕ) ℕ
later = record at_start {
  world = record at_start.world { ctx = record at_start.world.ctx { curr_level = pos 1 } };
  time_started = 70;
}

later_message :
    numbers (set_predef_vars nanoseconds program 90 later) ≡ some (pos 1, 1, some 90, some 20)
unfolding set_predef_vars set_curr_level set_int get_val set_val lookup_var signed pattern_of
    new_anon_sym new_context
later_message = refl

set_predef_vars-Gives_example :
    Gives (Predefined nanoseconds 70) (set_predef_vars nanoseconds program 70 at_start)
unfolding get_val lookup_var new_anon_sym
set_predef_vars-Gives_example =
    set_predef_vars-Gives nanoseconds program 70 at_start (int_val 0) (int_val 0) (omega arith) refl
      refl
