-- ===== src/Tree/Ops/Tests.antt =====
-- tree/eval.go: operators on concrete values.
use rips.Prelude.{ℕ, ◌≡◌, refl, ◌≤◌, ◌-◌, ◌^◌, Option}
use rips.Prelude.Int64.{quo64, rem64, modulus}
use Prim.Native.String.{count, ◌++◌}
use rips.Lex.Token.{tok_mod}
use rips.Types.{int_type, tv_int, is_compat_op}
use rips.Tree.Sym.{Val, new_anon_sym, s_const}
use rips.Tree.Ops.{concat, max_str, bin_expr}
use rips.Tree.Ops.Laws.{concat_bounded, bin_expr-EndsWell, EndsWell}
use rips.Fixtures.{sample_floats}

concat_bounded_example :
    (count (concat "ab" "c") ≤ max_str)
    × (count ("ab" ++ "c") ≤ max_str → concat "ab" "c" ≡ "ab" ++ "c")
concat_bounded_example = concat_bounded "ab" "c"

abbrev int_value : ℕ → Val (Option ℕ)
int_value n = record (new_anon_sym sample_floats s_const) { data_type = int_type; int_val = n }

bin_expr-EndsWell_example :
    EndsWell tv_int
      (int_value 0)
      tok_mod
      (bin_expr sample_floats (int_value 7) (int_value 0) tok_mod)
unfolding is_compat_op
bin_expr-EndsWell_example =
    bin_expr-EndsWell sample_floats (int_value 7) (int_value 0) tv_int tok_mod tt refl refl refl

-- -7 / 2 is -3 and -7 % 2 is -1.
quotient_towards_zero : quo64 (modulus - 7) 2 ≡ modulus - 3
unfolding quo64
quotient_towards_zero = refl

remainder_of_dividend : rem64 (modulus - 7) 2 ≡ modulus - 1
unfolding rem64
remainder_of_dividend = refl

smallest_by_minus_one : quo64 (2 ^ 63) (modulus - 1) ≡ 2 ^ 63
unfolding quo64
smallest_by_minus_one = refl
