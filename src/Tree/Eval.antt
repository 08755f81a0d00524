-- ===== src/Tree/Eval.antt =====
-- tree/eval.go: `EvalExpr`. The environment and what the builtin functions change are a state `W`
-- that the evaluation passes on; `Machine` is its interface.
pub mod Laws
pub mod Invariant
pub mod Sound
mod Tests
use rips.Prelude.{
  ℕ, Bool, true, false, ◌&&◌, ◌||◌, if◌then◌else◌, str_eq, String, Option, none, some, List, [],
  ◌∷◌,
}
use rips.Prelude.Result.{Result, ok, fatal, panic, ◌>>=◌}
use rips.Lex.Token.{TokType}
use rips.Types.{te_expr}
use rips.Tree.Sym.{
  Floats, Val, Sym, leaf, ref, fcall, binary, unary, Args, no_args, arg, Func, SType, s_none,
  s_sect, s_level, s_fcall, s_var, s_func, s_const, s_unary, s_binary, s_asign, s_regexp, s_yara,
  sym_val, new_anon_sym, is_or_short, is_and_short,
}
use rips.Tree.Ops.{
  OpResult, done, failed, trapped, panics, is_comp_op, bin_expr, unary_expr, copy_val_from,
  bool_expr,
}

-- An argument of a builtin: a symbol of the environment that is not evaluated, by its name (the
-- target of `set`, the current level for `trigger`), or a value.
pub data Actual (F : Type 0) : Type 0 where
  lvalue : String → Actual F
  rvalue : Val F → Actual F

-- `get_val`: the value of a variable of the environment, `none` if it is not there.
-- `call`: the builtin function of that name on its arguments.
pub record Machine (F W : Type 0) : Type 0 where
  pub get_val : String → W → Option (Val F)
  pub call : String → List (Actual F) → W → Result (Val F × W)

module _ {F : Type 0} (fl : Floats F) where
  -- The fresh constant that a value is copied into.
  abbrev pub fresh : Val F
  fresh = new_anon_sym fl s_const

  -- `BoolExpr` behind a comparison.
  abbrev pub finish : TokType → Val F → Val F
  finish op val = if is_comp_op op then bool_expr val else val

  -- The error of a binary operation stops the process where there is a context; without one, as in
  -- constant folding, it is ignored.
  abbrev pub end_binary : {W : Type 0} → Bool → TokType → W → OpResult F → Result (Val F × W)
  end_binary ctx op w (done v) = ok (finish op v, w)
  end_binary ctx op w (failed v e) = if ctx then fatal else ok (finish op v, w)
  end_binary ctx op w (trapped v e) = panic
  end_binary ctx op w panics = panic

  -- The error of a unary operation is ignored.
  abbrev end_unary : {W : Type 0} → TokType → W → OpResult F → Result (Val F × W)
  end_unary op w (done v) = ok (finish op v, w)
  end_unary op w (failed v e) = ok (finish op v, w)
  end_unary op w (trapped v e) = panic
  end_unary op w panics = panic

module _ {F W : Type 0} (fl : Floats F) (m : Machine F W) (ctx : Bool) where
  eval_leaf : SType → Val F → W → Result (Val F × W)
  eval_leaf s_const v w = ok (copy_val_from (fresh fl) v, w)
  eval_leaf s_var v w = elim (m.get_val v.name w) [ none ↦ panic | some x ↦ ok (x, w) ]
  eval_leaf s_level v w = ok (v, w)
  eval_leaf s_yara v w = ok (v, w)
  eval_leaf s_regexp v w = ok (v, w)
  eval_leaf s_none v w = ok (v, w)
  eval_leaf _ v w = panic

  -- The current level stands before the arguments of `trigger`.
  abbrev with_level : String → List (Actual F) → List (Actual F)
  with_level f actuals = if str_eq f "trigger" then lvalue "CurrLevel" ∷ actuals else actuals

  -- `&&` and `||` are decided by a left operand; otherwise the right one is evaluated.
  abbrev after_left : TokType → Val F → W → Result (Val F × W) → Result (Val F × W)
  after_left op val w right =
      if is_or_short op val.bool_val || is_and_short op val.bool_val
      then ok (finish fl op val, w)
      else (right >>= λ p. end_binary fl ctx op (p.1) (bin_expr fl val (p.0) op))

  unfoldable mutual
    unfolding eval_leaf

    pub eval_expr : Sym F → W → Result (Val F × W)
    eval_expr (leaf v) w = eval_leaf v.s_type v w
    eval_expr (ref v) w = eval_leaf v.s_type v w
    eval_expr (fcall v none xs) w = ok (fresh fl, w)
    eval_expr (fcall v (some f) xs) w = do
      (actuals, w₁) ← eval_args (str_eq v.name "set") xs w
      m.call f.f_name (with_level v.name actuals) w₁
    eval_expr (binary v op l r) w = do
      (left, w₁) ← eval_expr l w
      let val = copy_val_from (fresh fl) left
      let right = eval_expr r w₁
      after_left op val w₁ right
    eval_expr (unary v op r) w = do
      (right, w₁) ← eval_expr r w
      end_unary fl op w₁ (unary_expr fl (copy_val_from (fresh fl) right) op)

    -- `lval`: the first argument is the target of a `set`.
    eval_args : Bool → Args F → W → Result (List (Actual F) × W)
    eval_args lval no_args w = ok ([], w)
    eval_args true (arg x xs) w = do
      (rest, w₁) ← eval_args false xs w
      ok (lvalue (sym_val x).name ∷ rest, w₁)
    eval_args false (arg x xs) w = do
      (v, w₁) ← eval_expr x w
      (rest, w₂) ← eval_args false xs w₁
      ok (rvalue v ∷ rest, w₂)
