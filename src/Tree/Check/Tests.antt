-- ===== src/Tree/Check/Tests.antt =====
-- tree/type.go: the theorems at `x % 2 == 0` and at a predicate on messages.
use rips.Prelude.{ℕ, ◌≡◌, refl, sym, false, String, Option, none, some, [], ◌∷◌, inl}
use rips.Prelude.Result.{Result, ok, panic, ◌>>=◌}
use rips.Lex.Token.{tok_mod, tok_eq}
use rips.Types.{
  TypeVal, Ty, int_type, bool_type, string_type, msg_str_type, undef_expr_type, univ_type, tv_int,
  tv_univ, te_graph, te_msg,
}
use rips.Tree.Sym.{
  Val, Sym, leaf, ref, fcall, binary, arg, no_args, new_anon_sym, s_const, s_var, s_fcall,
}
use rips.Tree.Ops.Laws.{plain}
use rips.Tree.Eval.{Machine}
use rips.Tree.Annotate.{Marks, annotate}
use rips.Tree.Check.{Scope, type_check}
use rips.Tree.Check.Typed.{Declared}
use rips.Tree.Check.Sound.{Checked, type_check-Sound}
use rips.Tree.Check.Sections.{type_check-section}
use rips.Fixtures.{sample_floats, willing_host}

abbrev sample : Val (Option ℕ)
unfolding new_anon_sym
sample = new_anon_sym sample_floats s_const

abbrev int_value : ℕ → Val (Option ℕ)
int_value n = record sample { data_type = int_type; int_val = n }

-- Every variable is 7.
abbrev sevens : Machine (Option ℕ) (Unit {0})
sevens = record { get_val = λ n w. some (int_value 7); call = λ n xs w. panic }

abbrev all_int : String → Option TypeVal
all_int n = some tv_int

same_type : (t u : TypeVal) → some t ≡ some u → t ≡ u
same_type t u e = cc

sevens_agree :
    (x : String) (t : TypeVal)
    → all_int x ≡ some t
    → (v : Val (Option ℕ)) × (sevens.get_val x tt ≡ some v) × (v.data_type ≡ plain t)
sevens_agree x t e = (int_value 7, refl, rw (sym (same_type tv_int t e)) refl)

abbrev no_marks : Marks
no_marks n = record { is_used = false; is_set = false; is_reach = false; is_undef = false }

abbrev no_actions : Scope
no_actions = record { is_action = λ n. false; val_type = λ n. none }

abbrev x_ref : Sym (Option ℕ)
x_ref = ref (record sample { name = "x"; s_type = s_var; data_type = int_type })

abbrev is_even : Sym (Option ℕ)
is_even =
    binary sample tok_eq (binary sample tok_mod x_ref (leaf (int_value 2))) (leaf (int_value 0))

is_even-Declared : Declared all_int is_even
unfolding sample
is_even-Declared =
    (((tv_int, tt, refl, refl, refl), (tv_int, tt, refl, refl)), (tv_int, tt, refl, refl))

type_check-Sound_example :
    Checked sample_floats sevens tt willing_host no_actions univ_type (annotate is_even no_marks)
type_check-Sound_example =
    type_check-Sound sample_floats sevens all_int tt sevens_agree willing_host no_actions univ_type
      is_even no_marks is_even-Declared (λ n. refl)

-- `topicmatches("/cam")`, whose parameter is a text of a message.
abbrev on_topic : Sym (Option ℕ)
on_topic =
    fcall (record sample { name = "topicmatches"; s_type = s_fcall })
      (some (record {
        f_name = "topicmatches";
        ret_type = bool_type;
        arg_data_types = msg_str_type ∷ [];
        is_variadic = false;
      }))
      (arg (leaf (record sample { data_type = string_type; str_val = "/cam" })) no_args)

abbrev section : Ty → Result ℕ
unfolding annotate type_check
section t = annotate on_topic no_marks >>= λ p. type_check willing_host no_actions t p.1 false p.0

in_graph : section (record { t_val = tv_univ; t_expr = te_graph }) ≡ ok 0
unfolding section sample rips.Types.is_type_compat rips.Types.is_type_undef
in_graph = refl

type_check-section_example :
    (annotate on_topic no_marks >>= λ p.
    type_check willing_host no_actions
      (record { t_val = tv_univ; t_expr = te_graph })
      p.1
      false
      p.0)
    ≡ (annotate on_topic no_marks >>= λ p.
        type_check willing_host no_actions
          (record { t_val = tv_univ; t_expr = te_msg })
          p.1
          false
          p.0)
type_check-section_example =
    type_check-section willing_host no_actions on_topic no_marks false tv_univ te_graph te_msg
      (inl refl, (inl refl, tt))
