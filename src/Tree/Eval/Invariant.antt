-- ===== src/Tree/Eval/Invariant.antt =====
-- tree/eval.go: what the builtins keep, the evaluation of an expression keeps.
use rips.Prelude.{Bool, true, false, ◌||◌, if◌then◌else◌, str_eq, String, Option, none, some, List}
use rips.Prelude.Result.{Result, ok, fatal, panic, ◌>>=◌}
use rips.Lex.Token.{TokType}
use rips.Tree.Sym.{
  Floats, Val, Sym, leaf, ref, fcall, binary, unary, Args, no_args, arg, SType, s_const, s_var,
  s_level, s_yara, s_regexp, s_none, is_or_short, is_and_short,
}
use rips.Tree.Ops.{OpResult, done, failed, trapped, panics, bin_expr, unary_expr, copy_val_from}
use rips.Tree.Eval.{
  Machine, Actual, eval_leaf, eval_expr, eval_args, with_level, after_left, end_binary, end_unary,
  fresh,
}

-- If the computation ends with a state, the state satisfies `I`.
abbrev pub Ends : {A W : Type 0} → (W → Type 0) → Result (A × W) → Type 0
Ends I (ok (a, w)) = I w
Ends I fatal = Unit
Ends I panic = Unit

pub bind-Ends :
    {A B W : Type 0} (I : W → Type 0) (r : Result (A × W)) (f : A × W → Result (B × W))
    → Ends I r
    → ((a : A) (w : W) → I w → Ends I (f (a, w)))
    → Ends I (r >>= f)
bind-Ends I (ok (a, w)) f h k = k a w h
bind-Ends I fatal f h k = tt
bind-Ends I panic f h k = tt

pub if-Ends :
    {A W : Type 0} (I : W → Type 0) (b : Bool) (r q : Result (A × W))
    → Ends I r
    → Ends I q
    → Ends I (if b then r else q)
if-Ends I true r q h k = h
if-Ends I false r q h k = k

module _ {F W : Type 0} (fl : Floats F) (m : Machine F W) (ctx : Bool) (I : W → Type 0) where
  -- Reading a variable.
  read-Ends :
      (o : Option (Val F)) (w : W)
      → I w
      → Ends {A = Val F} I (elim o [ none ↦ panic | some x ↦ ok (x, w) ])
  read-Ends none w i = tt
  read-Ends (some x) w i = i

  eval_leaf-Ends : (t : SType) (v : Val F) (w : W) → I w → Ends I (eval_leaf fl m ctx t v w)
  unfolding eval_leaf
  eval_leaf-Ends s_const v w i = i
  eval_leaf-Ends s_var v w i = read-Ends (m.get_val v.name w) w i
  eval_leaf-Ends s_level v w i = i
  eval_leaf-Ends s_yara v w i = i
  eval_leaf-Ends s_regexp v w i = i
  eval_leaf-Ends s_none v w i = i
  eval_leaf-Ends _ v w i = tt

  end_binary-Ends :
      (op : TokType) (w : W) (r : OpResult F) → I w → Ends I (end_binary fl ctx op w r)
  end_binary-Ends op w (done v) i = i
  end_binary-Ends op w (failed v e) i = if-Ends I ctx fatal _ tt i
  end_binary-Ends op w (trapped v e) i = tt
  end_binary-Ends op w panics i = tt

  end_unary-Ends : (op : TokType) (w : W) (r : OpResult F) → I w → Ends I (end_unary fl op w r)
  end_unary-Ends op w (done v) i = i
  end_unary-Ends op w (failed v e) i = i
  end_unary-Ends op w (trapped v e) i = tt
  end_unary-Ends op w panics i = tt

  after_left-Ends :
      (op : TokType) (val : Val F) (w : W) (right : Result (Val F × W))
      → I w
      → Ends I right
      → Ends I (after_left fl m ctx op val w right)
  after_left-Ends op val w right i h =
      if-Ends I (is_or_short op val.bool_val || is_and_short op val.bool_val) _ _ i
        (bind-Ends I right _ h (λ r w₁ i₁. end_binary-Ends op w₁ (bin_expr fl val r op) i₁))

  module _
      (call-Ends : (f : String) (xs : List (Actual F)) (w : W) → I w → Ends I (m.call f xs w)) where
    mutual
      unfolding eval_expr eval_args

      pub eval_expr-Ends : (s : Sym F) (w : W) → I w → Ends I (eval_expr fl m ctx s w)
      eval_expr-Ends (leaf v) w i = eval_leaf-Ends v.s_type v w i
      eval_expr-Ends (ref v) w i = eval_leaf-Ends v.s_type v w i
      eval_expr-Ends (fcall v none xs) w i = i
      eval_expr-Ends (fcall v (some f) xs) w i =
          bind-Ends I _ _ (eval_args-Ends (str_eq v.name "set") xs w i)
            (λ actuals w₁ i₁. call-Ends f.f_name (with_level fl m ctx v.name actuals) w₁ i₁)
      eval_expr-Ends (binary v op l r) w i = bind-Ends I _ _ (eval_expr-Ends l w i) (λ left w₁ i₁.
          after_left-Ends op (copy_val_from (fresh fl) left) w₁ _ i₁ (eval_expr-Ends r w₁ i₁))
      eval_expr-Ends (unary v op r) w i = bind-Ends I _ _ (eval_expr-Ends r w i) (λ right w₁ i₁.
          end_unary-Ends op w₁ (unary_expr fl (copy_val_from (fresh fl) right) op) i₁)

      eval_args-Ends :
          (lval : Bool) (xs : Args F) (w : W) → I w → Ends I (eval_args fl m ctx lval xs w)
      eval_args-Ends lval no_args w i = i
      eval_args-Ends true (arg x xs) w i =
          bind-Ends I _ _ (eval_args-Ends false xs w i) (λ rest w₁ i₁. i₁)
      eval_args-Ends false (arg x xs) w i =
          bind-Ends I _ _ (eval_expr-Ends x w i)
            (λ v w₁ i₁. bind-Ends I _ _ (eval_args-Ends false xs w₁ i₁) (λ rest w₂ i₂. i₂))
