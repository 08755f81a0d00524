-- ===== src/Tree/Env/Tests.antt =====
-- tree/sym.go, tree/vars.go: a stack of environments.
use rips.Prelude.{arith, ℕ, ◌≡◌, refl, true, false, String, List, [], ◌∷◌, Option, none, some, map}
use rips.Prelude.Result.{Result, ok}
use rips.Types.{tv_int, tv_bool, bool_type}
use rips.Tree.Sym.{s_level, SType}
use rips.Tree.Env.{
  Symbol, StkEnv, Decl, var_decl, const_decl, func_decl, sym_decl, declare, declare_all, push_env,
  pop_env, get_sym, new_sym, predef_vars, new_int_var, after,
}
use rips.Tree.Env.Laws.{pop_env-push_env, Finds, declare-Finds}
use rips.Tree.Env.Unshadowed.{Unshadowed, declare-Unshadowed}
use rips.Fixtures.{sample_floats}

abbrev names : Result (StkEnv (Option ℕ)) → List (List String)
names (ok es) = map (λ e. map (λ s. s.name) e) es
names _ = []

predefined_names :
    names (predef_vars sample_floats ([] ∷ [])) ≡ ("Uptime" ∷ "Time" ∷ "CurrLevel" ∷ []) ∷ []
unfolding predef_vars get_sym
predefined_names = refl

abbrev one_scope : StkEnv (Option ℕ)
one_scope = [] ∷ []

abbrev decls : List Decl
decls = var_decl "x" tv_int ∷ const_decl "x" tv_bool ∷ sym_decl "low" s_level ∷ []

pop_env-push_env_example : pop_env (declare_all decls (push_env one_scope)) ≡ ok one_scope
pop_env-push_env_example = pop_env-push_env decls [] []

none_declared : Unshadowed one_scope
none_declared n = omega arith

declare-Unshadowed_example : Unshadowed (after one_scope (declare (var_decl "x" tv_int) one_scope))
declare-Unshadowed_example = declare-Unshadowed (var_decl "x" tv_int) one_scope refl none_declared

declare-Finds_example :
    Finds "x" "y" one_scope (declare (func_decl "x" [] bool_type false true) one_scope)
declare-Finds_example = declare-Finds (func_decl "x" [] bool_type false true) "y" one_scope

abbrev kind : Option (Symbol (Option ℕ)) → Option SType
kind none = none
kind (some s) = some s.s_type

-- A level hides the predefined variable of its name.
hidden :
    kind (
      get_sym "CurrLevel" (
        declare_all
          (sym_decl "CurrLevel" s_level ∷ [])
          (push_env (after one_scope (new_int_var sample_floats "CurrLevel" 0 one_scope)))))
    ≡ some s_level
unfolding get_sym push_env declare_all declare new_sym new_int_var
hidden = refl
