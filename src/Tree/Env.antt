-- ===== src/Tree/Env.antt =====
-- tree/sym.go: the stack of environments, and the declarations that write to it, with the predefined
-- variables of tree/vars.go. The innermost environment stands first. A symbol is a pointer that its
-- environment holds: what a declaration writes to the symbol it has just made stands in it at once.
-- The Go function of a builtin is not kept, since Tree.Builtins finds it by name.
pub mod Laws
mod Tests
pub mod Unshadowed
use rips.Prelude.{
  ℕ, ◌-◌, Bool, true, false, if◌then◌else◌, str_eq, String, Option, none, some, List, [], ◌∷◌,
}
use rips.Prelude.Result.{Result, ok, panic, ◌>>=◌}
use rips.Prelude.Int64.{minus_one}
use rips.Types.{Ty, TypeVal, undef_type, undef_expr_type, int_type, tv_int}
use rips.Tree.Sym.{SType, s_const, s_var, s_func, s_level, Val, Floats, new_anon_sym}

-- `Sym`, as an environment holds it: a variable, a constant, a level, a section or a function.
pub record Symbol (F : Type 0) : Type 0 where
  pub name : String
  pub s_type : SType
  pub data_type : Ty
  pub arg_data_types : List Ty
  pub is_variadic : Bool
  pub is_action : Bool
  pub val : Option (Val F)
  pub is_set : Bool
  pub is_used : Bool
  pub is_builtin : Bool

-- `Env`, by the names of the symbols, and `StkEnv`.
abbrev pub Env : Type 0 → Type 0
Env F = List (Symbol F)

abbrev pub StkEnv : Type 0 → Type 0
StkEnv F = List (Env F)

-- How a declaration ends: with the symbol, with the error that the name is taken, or with a panic,
-- since there is no environment.
pub data Made (F : Type 0) : Type 0 where
  made : Symbol F → StkEnv F → Made F
  refused : Made F
  no_env : Made F

-- A declaration by the parser or by the set-up of the builtins.
pub data Decl : Type 0 where
  var_decl const_decl : String → TypeVal → Decl
  func_decl : String → List Ty → Ty → Bool → Bool → Decl
  sym_decl : String → SType → Decl

module _ {F : Type 0} where
  unfoldable pub push_env : StkEnv F → StkEnv F
  push_env es = [] ∷ es

  -- The last environment is not popped.
  unfoldable pub pop_env : StkEnv F → Result (StkEnv F)
  pop_env [] = panic
  pop_env (e ∷ []) = panic
  pop_env (e ∷ e' ∷ es) = ok (e' ∷ es)

  pub curr_env : StkEnv F → Result (Env F)
  curr_env [] = panic
  curr_env (e ∷ es) = ok e

  -- An index into the map of one environment.
  abbrev pub find : String → Env F → Option (Symbol F)
  find n [] = none
  find n (s ∷ e) = let rest = find n e in if str_eq s.name n then some s else rest

  abbrev or_else : Option (Symbol F) → Option (Symbol F) → Option (Symbol F)
  or_else none o = o
  or_else (some s) o = some s

  unfoldable pub get_sym : String → StkEnv F → Option (Symbol F)
  get_sym n [] = none
  get_sym n (e ∷ es) = or_else (find n e) (get_sym n es)

  -- `&Sym{Name: name, SType: sType}`; its type is not set yet.
  abbrev pub blank : String → SType → Symbol F
  blank n t = record {
    name = n;
    s_type = t;
    data_type = undef_type;
    arg_data_types = [];
    is_variadic = false;
    is_action = false;
    val = none;
    is_set = false;
    is_used = false;
    is_builtin = false;
  }

  -- A new symbol in the current environment, where the name is not taken there.
  abbrev pub place : Option (Symbol F) → Symbol F → Env F → StkEnv F → Made F
  place (some old) s e es = refused
  place none s e es = made s ((s ∷ e) ∷ es)

  abbrev pub insert : Symbol F → StkEnv F → Made F
  insert s [] = no_env
  insert s (e ∷ es) = place (find s.name e) s e es

  unfoldable pub new_sym : String → SType → StkEnv F → Made F
  new_sym n t es = insert (blank n t) es

  -- To forbid shadowing, the name is looked up first.
  abbrev pub unless_found : Option (Symbol F) → Made F → Made F
  unless_found (some s) m = refused
  unless_found none m = m

  abbrev pub insert_new : Symbol F → StkEnv F → Made F
  insert_new s es = unless_found (get_sym s.name es) (insert s es)

  unfoldable pub new_var : String → TypeVal → StkEnv F → Made F
  new_var n tv es =
      insert_new (record (blank n s_var) { data_type = record undef_expr_type { t_val = tv } }) es

  unfoldable pub new_const : String → TypeVal → StkEnv F → Made F
  new_const n tv es =
      insert_new (record (blank n s_const) { data_type = record undef_expr_type { t_val = tv } }) es

  unfoldable pub new_func : String → List Ty → Ty → Bool → Bool → StkEnv F → Made F
  new_func n args ret variadic action es =
      insert_new
        (record (blank n s_func) {
          data_type = ret;
          arg_data_types = args;
          is_variadic = variadic;
          is_action = action;
        })
        es

  -- The symbol that `NewIntVar` makes.
  abbrev pub int_symbol : Floats F → String → ℕ → Symbol F
  unfolding new_anon_sym
  int_symbol fl n v = record (blank n s_var) {
    data_type = record undef_expr_type { t_val = tv_int };
    val = some (record (new_anon_sym fl s_const) { data_type = int_type; int_val = v });
  }

  unfoldable pub new_int_var : Floats F → String → ℕ → StkEnv F → Made F
  new_int_var fl n v es = insert_new (int_symbol fl n v) es

  abbrev predefined : Symbol F → Symbol F
  predefined s = record s { is_builtin = true; is_set = true; is_used = true }

  abbrev as_level : Option (Val F) → Option (Val F)
  as_level none = none
  as_level (some v) = some (record v { s_type = s_level })

  -- The stack after a declaration that has to succeed.
  abbrev must : Made F → Result (StkEnv F)
  must (made s es) = ok es
  must refused = panic
  must no_env = panic

  unfoldable pub predef_vars : Floats F → StkEnv F → Result (StkEnv F)
  unfolding new_anon_sym
  predef_vars fl es =
      let level = int_symbol fl "CurrLevel" minus_one in
      must (insert_new (predefined (record level { val = as_level level.val })) es) >>= λ es.
      must (insert_new (predefined (int_symbol fl "Time" 0)) es) >>= λ es.
      must (insert_new (predefined (int_symbol fl "Uptime" 0)) es)

  unfoldable pub declare : Decl → StkEnv F → Made F
  unfolding new_var new_const new_func new_sym
  declare (var_decl n tv) es = new_var n tv es
  declare (const_decl n tv) es = new_const n tv es
  declare (func_decl n args ret variadic action) es = new_func n args ret variadic action es
  declare (sym_decl n t) es = new_sym n t es

  -- The stack after it: an error leaves it as it was.
  abbrev pub after : StkEnv F → Made F → StkEnv F
  after es (made s es') = es'
  after es refused = es
  after es no_env = es

  unfoldable pub declare_all : List Decl → StkEnv F → StkEnv F
  declare_all [] es = es
  declare_all (d ∷ ds) es = declare_all ds (after es (declare d es))
