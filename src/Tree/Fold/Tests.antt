-- ===== src/Tree/Fold/Tests.antt =====
-- tree/const.go: the theorems on a state with three variables.
use rips.Prelude.{
  ℕ, ◌≡◌, ◌≢◌, refl, true, false, if◌then◌else◌, str_eq, Option, none, some, [], arith,
}
use rips.Prelude.Int64.{add64}
use rips.Prelude.Result.{ok, fatal, panic}
use rips.Lex.Token.{tok_mod, tok_eq, tok_add}
use rips.Types.{int_type, float_type, bool_type}
use rips.Tree.Sym.{Func, binary, fcall, leaf, no_args, new_bool, new_string, new_anon_sym, s_fcall}
use rips.Tree.Eval.{Machine, eval_expr}
use rips.Tree.Builtins.World.{World}
use rips.Tree.Builtins.Table.{machine}
use rips.Tree.Fold.{fold}
use rips.Tree.Fold.Differs.{
  int_const, float_const, var_of, node_of, truth, fold-mod-zero, fold-float_self, fold-lit,
  fold-topicin,
}
use rips.Fixtures.{sample_floats, willing_host, running_ctx}

-- The variable `nan` is NaN, `lit` is 5, and any other is 1.
abbrev store : Machine (Option ℕ) (Unit {0})
store = record {
  get_val = λ n w.
      if str_eq n "nan"
      then some (float_const sample_floats none)
      else if str_eq n "lit"
      then some (int_const sample_floats 5)
      else some (int_const sample_floats 1);
  call = λ n xs w. panic;
}

fold-mod-zero_example :
    let s =
      binary
        (node_of sample_floats int_type)
        tok_mod
        (leaf (int_const sample_floats 5))
        (leaf (int_const sample_floats 0)) in
    (fold sample_floats willing_host s ≡ (0, leaf (int_const sample_floats 5)))
    × (eval_expr sample_floats store true s tt ≡ fatal)
fold-mod-zero_example = fold-mod-zero sample_floats willing_host store 5 tt

fold-float_self_example :
    let s =
      binary
        (node_of sample_floats bool_type)
        tok_eq
        (var_of sample_floats "nan" float_type)
        (var_of sample_floats "nan" float_type) in
    (fold sample_floats willing_host s ≡ (0, leaf (new_bool sample_floats true)))
    × (truth sample_floats willing_host store s tt ≡ ok false)
fold-float_self_example = fold-float_self sample_floats willing_host store "nan" none tt refl refl

sum_differs : add64 1 1 ≢ 5
unfolding add64
sum_differs = omega arith

fold-lit_example :
    let sum =
      binary
        (node_of sample_floats int_type)
        tok_add
        (var_of sample_floats "x" int_type)
        (var_of sample_floats "y" int_type) in
    let s =
      binary (node_of sample_floats bool_type) tok_eq sum (var_of sample_floats "lit" int_type) in
    (fold sample_floats willing_host s ≡ (0, leaf (new_bool sample_floats true)))
    × (truth sample_floats willing_host store s tt ≡ ok false)
fold-lit_example =
    fold-lit sample_floats willing_host store "x" "y" 1 1 5 tt refl refl refl sum_differs

abbrev topic_in_func : Func
topic_in_func = record {
  f_name = "topicin";
  ret_type = bool_type;
  arg_data_types = [];
  is_variadic = true;
}

abbrev world : World (Option ℕ)
world = record { vars = []; curr_level = new_string sample_floats "DEFAULT"; ctx = running_ctx }

fold-topicin_example :
    let s =
      fcall
        (record (new_anon_sym sample_floats s_fcall) { name = "topicin" })
        (some topic_in_func)
        no_args in
    (fold sample_floats willing_host s ≡ (0, leaf (new_bool sample_floats true)))
    × (eval_expr sample_floats (machine sample_floats willing_host) true s world
        ≡ ok (new_bool sample_floats false, world))
fold-topicin_example = fold-topicin sample_floats willing_host topic_in_func world refl
