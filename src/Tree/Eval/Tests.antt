-- ===== src/Tree/Eval/Tests.antt =====
-- tree/eval.go: expressions on a state with no variables.
use rips.Prelude.{ℕ, ◌≡◌, refl, true, Option, none}
use rips.Prelude.Result.{ok, fatal, panic}
use rips.Lex.Token.{tok_div, tok_log_or}
use rips.Types.{Ty, int_type}
use rips.Tree.Sym.{Val, leaf, ref, binary, new_anon_sym, new_bool, s_const, s_binary, s_var}
use rips.Tree.Ops.{bin_expr, copy_val_from, is_comp_op}
use rips.Tree.Eval.{Machine, eval_expr}
use rips.Fixtures.{sample_floats}

abbrev empty : Machine (Option ℕ) (Unit {0})
empty = record { get_val = λ n w. none; call = λ n xs w. panic }

abbrev value : Ty → ℕ → Val (Option ℕ)
value t n = record (new_anon_sym sample_floats s_const) { data_type = t; int_val = n }

abbrev node : Val (Option ℕ)
node = new_anon_sym sample_floats s_binary

-- `true || x` does not look at `x`, which is not there.
or_is_short :
    eval_expr sample_floats empty true
      (binary node tok_log_or
        (leaf (new_bool sample_floats true))
        (ref (new_anon_sym sample_floats s_var)))
      tt
    ≡ ok (new_bool sample_floats true, tt)
unfolding eval_expr copy_val_from new_anon_sym new_bool is_comp_op
or_is_short = refl

-- A division by 0 stops the process.
division_by_zero :
    eval_expr sample_floats empty true
      (binary node tok_div (leaf (value int_type 1)) (leaf (value int_type 0)))
      tt
    ≡ fatal
unfolding eval_expr copy_val_from new_anon_sym bin_expr is_comp_op
division_by_zero = refl
