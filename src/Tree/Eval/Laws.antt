-- ===== src/Tree/Eval/Laws.antt =====
-- tree/eval.go: the evaluation of single nodes, given that of their operands.
use rips.Prelude.{◌≡◌, refl, Bool, false, ◌||◌, some, arith}
use rips.Prelude.Result.{ok, ◌>>=◌}
use rips.Lex.Token.{TokType}
use rips.Tree.Sym.{Floats, Val, Sym, ref, binary, s_var, is_or_short, is_and_short}
use rips.Tree.Ops.{bin_expr, copy_val_from}
use rips.Tree.Eval.{Machine, eval_expr, fresh, end_binary}

module _ {F W : Type 0} (fl : Floats F) (m : Machine F W) (ctx : Bool) where
  pub eval_expr-ref :
      (u : Val F) (x : Val F) (w : W)
      → u.s_type ≡ s_var
      → m.get_val u.name w ≡ some x
      → eval_expr fl m ctx (ref u) w ≡ ok (x, w)
  unfolding eval_expr
  eval_expr-ref u x w k e = ground arith

  pub eval_expr-binary :
      (v : Val F) (op : TokType) (l r : Sym F) (a b : Val F) (w w₁ w₂ : W)
      → eval_expr fl m ctx l w ≡ ok (a, w₁)
      → eval_expr fl m ctx r w₁ ≡ ok (b, w₂)
      → let val = copy_val_from (fresh fl) a in
        (is_or_short op val.bool_val || is_and_short op val.bool_val) ≡ false
        → eval_expr fl m ctx (binary v op l r) w
          ≡ end_binary fl ctx op w₂ (bin_expr fl (copy_val_from (fresh fl) a) b op)
  unfolding eval_expr
  eval_expr-binary v op l r a b w w₁ w₂ el er short = rw (el, ◌>>=◌) (rw (er, short, ◌>>=◌) refl)
