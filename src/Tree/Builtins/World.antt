-- ===== src/Tree/Builtins/World.antt =====
-- tree/builtins.go and tree/interp.go: the state of a running program, and how a builtin reads its
-- arguments.
use rips.Prelude.{
  ℕ, zero, suc, Bool, if◌then◌else◌, str_eq, String, Option, none, some, List, [], ◌∷◌,
}
use rips.Prelude.Result.{Result, ok, panic, ◌>>=◌}
use rips.Extern.Ctx.{Ctx}
use rips.Tree.Sym.{Floats, Val, new_bool}
use rips.Tree.Eval.{Actual, lvalue, rvalue}

-- The variables of the program with their values, the latest binding first, the level that
-- `CurrLevel` stands for, and the context.
pub record World (F : Type 0) : Type 0 where
  pub vars : List (String × Val F)
  pub curr_level : Val F
  pub ctx : Ctx

module _ {F : Type 0} where
  -- `envs.GetSym(name).Val` of a variable.
  unfoldable pub lookup_var : String → List (String × Val F) → Option (Val F)
  lookup_var k [] = none
  lookup_var k ((j, v) ∷ rest) = if str_eq j k then some v else lookup_var k rest

  unfoldable pub get_val : String → World F → Option (Val F)
  get_val name w = if str_eq name "CurrLevel" then some w.curr_level else lookup_var name w.vars

  -- `s.SetVal(v)` for the variable of that name.
  unfoldable pub set_val : String → Val F → World F → World F
  set_val name v w =
      if str_eq name "CurrLevel"
      then record w { curr_level = v }
      else record w { vars = (name, v) ∷ w.vars }

  -- `args[i]`, which panics out of range. Only `set` and `trigger` are given a symbol that is not
  -- evaluated, and they read it in their own clauses.
  unfoldable pub arg_at : ℕ → List (Actual F) → Result (Val F)
  arg_at i [] = panic
  arg_at zero (lvalue n ∷ rest) = panic
  arg_at zero (rvalue v ∷ rest) = ok v
  arg_at (suc i) (a ∷ rest) = arg_at i rest

  unfoldable pub str_at : ℕ → List (Actual F) → Result String
  unfolding arg_at
  str_at i actuals = do v ← arg_at i actuals; ok v.str_val

  unfoldable pub int_at : ℕ → List (Actual F) → Result ℕ
  unfolding arg_at
  int_at i actuals = do v ← arg_at i actuals; ok v.int_val

  -- `VarArgs(args...)`.
  unfoldable pub var_args : List (Actual F) → List String
  var_args [] = []
  var_args (lvalue n ∷ rest) = var_args rest
  var_args (rvalue v ∷ rest) = v.str_val ∷ var_args rest

  -- `VarArgs(args[1:]...)`; the slice panics on no argument.
  unfoldable pub var_args_from_one : List (Actual F) → Result (List String)
  unfolding var_args
  var_args_from_one [] = panic
  var_args_from_one (a ∷ rest) = ok (var_args rest)

-- A builtin function.
abbrev pub BuiltinFn : Type 0 → Type 0
BuiltinFn F = List (Actual F) → World F → Result (Val F × World F)

module _ {F : Type 0} (fl : Floats F) where
  -- `return NewBool(v)` of a predicate that changes nothing.
  abbrev pub answer : World F → Result Bool → Result (Val F × World F)
  answer w r = r >>= λ b. ok (new_bool fl b, w)

  abbrev pub act : World F → Ctx × Bool → Result (Val F × World F)
  act w r = ok (new_bool fl r.1, record w { ctx = r.0 })
