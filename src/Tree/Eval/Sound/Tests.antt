-- ===== src/Tree/Eval/Sound/Tests.antt =====
-- tree/eval.go: the theorem at `x % 2 == 0`.
use rips.Prelude.{ℕ, ◌≡◌, refl, sym, true, String, Option, some}
use rips.Prelude.Result.{panic}
use rips.Lex.Token.{tok_mod, tok_eq}
use rips.Types.{TypeVal, int_type, tv_int, tv_bool, is_compat_op}
use rips.Tree.Sym.{Val, Sym, leaf, ref, binary, new_anon_sym, s_const, s_var, s_binary}
use rips.Tree.Ops.{is_comp_op}
use rips.Tree.Ops.Laws.{plain}
use rips.Tree.Eval.{Machine, eval_expr}
use rips.Tree.Eval.Sound.{HasType, of_const, of_var, of_op, Sound, HasDivision, eval_expr-Sound}
use rips.Fixtures.{sample_floats}

abbrev int_value : ℕ → Val (Option ℕ)
int_value n = record (new_anon_sym sample_floats s_const) { data_type = int_type; int_val = n }

-- Every variable is 7.
abbrev sevens : Machine (Option ℕ) (Unit {0})
sevens = record { get_val = λ n w. some (int_value 7); call = λ n xs w. panic }

abbrev all_int : String → Option TypeVal
all_int n = some tv_int

same_type : (t u : TypeVal) → some t ≡ some u → t ≡ u
same_type t u e = cc

sevens_agree :
    (x : String) (t : TypeVal)
    → all_int x ≡ some t
    → (v : Val (Option ℕ)) × (sevens.get_val x tt ≡ some v) × (v.data_type ≡ plain t)
sevens_agree x t e = (int_value 7, refl, rw (sym (same_type tv_int t e)) refl)

abbrev node : Val (Option ℕ)
node = new_anon_sym sample_floats s_binary

abbrev rest_of : Sym (Option ℕ)
rest_of =
    binary node tok_mod (ref (record (new_anon_sym sample_floats s_var) { name = "x" }))
      (leaf (int_value 2))

abbrev is_even : Sym (Option ℕ)
is_even = binary node tok_eq rest_of (leaf (int_value 0))

is_even-HasType : HasType all_int tv_bool is_even
unfolding is_compat_op is_comp_op new_anon_sym
is_even-HasType =
    of_op tv_bool tv_int node tok_eq rest_of (leaf (int_value 0)) refl tt refl
      (of_op tv_int tv_int node tok_mod _ _ refl tt refl (of_var tv_int _ refl refl)
        (of_const tv_int (int_value 2) refl refl))
      (of_const tv_int (int_value 0) refl refl)

eval_expr-Sound_example :
    Sound (HasDivision is_even) tv_bool tt (eval_expr sample_floats sevens true is_even tt)
eval_expr-Sound_example =
    eval_expr-Sound sample_floats sevens all_int tt sevens_agree tv_bool is_even is_even-HasType
