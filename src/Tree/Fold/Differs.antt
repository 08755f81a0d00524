-- ===== src/Tree/Fold/Differs.antt =====
-- tree/const.go against tree/eval.go: expressions that folding changes.
use rips.Prelude.{ℕ, ◌≡◌, refl, ◌≢◌, Bool, true, false, String, some, arith, str_eq_refl, ◌==◌}
use rips.Prelude.Int64.{add64}
use rips.Extern.Expr.{topic_in}
use rips.Prelude.Result.{Result, ok, fatal, ◌>>=◌}
use rips.Lex.Token.{tok_mod, tok_eq, tok_add}
use rips.Types.{Ty, int_type, float_type, bool_type}
use rips.Extern.Host.{Host}
use rips.Tree.Sym.{
  Floats, Val, Sym, leaf, ref, fcall, binary, Func, no_args, s_const, s_fcall, s_var, s_binary,
  new_bool, new_anon_sym,
}
use rips.Tree.Ops.{bin_expr, copy_val_from, is_comp_op, bool_expr}
use rips.Tree.Eval.{Machine, eval_expr}
use rips.Tree.Eval.Laws.{eval_expr-ref, eval_expr-binary}
use rips.Tree.Builtins.World.{World, var_args}
use rips.Tree.Builtins.Table.{machine, call_builtin}
use rips.Tree.Fold.{fold, fold_binary, is_zero_div}

module _ {F : Type 0} (fl : Floats F) where
  -- An integer literal.
  abbrev pub int_const : ℕ → Val F
  int_const n = record (new_anon_sym fl s_const) { data_type = int_type; int_val = n }

  abbrev pub float_const : F → Val F
  float_const f = record (new_anon_sym fl s_const) { data_type = float_type; float_val = f }

  -- A variable of a type, as the parser declares it.
  abbrev pub var_of : String → Ty → Sym F
  var_of x t = ref (record (new_anon_sym fl s_var) { name = x; data_type = t })

  -- The node of an operator.
  abbrev pub node_of : Ty → Val F
  node_of t = record (new_anon_sym fl s_binary) { data_type = t }

  module _ {W : Type 0} (host : Host) (m : Machine F W) where
    -- The remainder of a constant by the constant 0 folds to that constant with no error, while the
    -- evaluation of the same expression stops the process.
    pub fold-mod-zero :
        (n : ℕ) (w : W)
        → let s = binary (node_of int_type) tok_mod (leaf (int_const n)) (leaf (int_const 0)) in
          (fold fl host s ≡ (0, leaf (int_const n))) × (eval_expr fl m true s w ≡ fatal)
    unfolding fold fold_binary is_zero_div eval_expr bin_expr copy_val_from new_anon_sym is_comp_op
    fold-mod-zero n w = (refl, refl)

    -- The truth of the value that an expression evaluates to.
    abbrev pub truth : Sym F → W → Result Bool
    truth s w = eval_expr fl m true s w >>= λ p. ok (p.0).bool_val

    -- The comparison of a float variable with itself folds to true, while its evaluation is false
    -- where the value of the variable is not equal to itself.
    pub fold-float_self :
        (x : String) (f : F) (w : W)
        → m.get_val x w ≡ some (float_const f)
        → fl.f_eq f f ≡ false
        → let s = binary (node_of bool_type) tok_eq (var_of x float_type) (var_of x float_type) in
          (fold fl host s ≡ (0, leaf (new_bool fl true))) × (truth s w ≡ ok false)
    unfolding fold fold_binary is_zero_div bin_expr copy_val_from new_anon_sym bool_expr
    fold-float_self x f w g e = (rw (str_eq_refl x), self)
      where
        seen : eval_expr fl m true (var_of x float_type) w ≡ ok (float_const f, w)
        seen = eval_expr-ref fl m true _ (float_const f) w refl g

        self :
            truth (binary (node_of bool_type) tok_eq (var_of x float_type) (var_of x float_type)) w
            ≡ ok false
        self =
            rw
              (eval_expr-binary fl m true (node_of bool_type) tok_eq (var_of x float_type)
                (var_of x float_type) (float_const f) (float_const f) w w w seen seen refl)
              (rw e refl)

    -- An integer sum compared with a variable of the name `lit`, which the symbols without a name
    -- have, folds to true, while its evaluation is false where the values differ.
    pub fold-lit :
        (x y : String) (a b c : ℕ) (w : W)
        → m.get_val x w ≡ some (int_const a)
        → m.get_val y w ≡ some (int_const b)
        → m.get_val "lit" w ≡ some (int_const c)
        → add64 a b ≢ c
        → let sum = binary (node_of int_type) tok_add (var_of x int_type) (var_of y int_type) in
          let s = binary (node_of bool_type) tok_eq sum (var_of "lit" int_type) in
          (fold fl host s ≡ (0, leaf (new_bool fl true))) × (truth s w ≡ ok false)
    unfolding fold fold_binary is_zero_div bin_expr copy_val_from new_anon_sym bool_expr
    fold-lit x y a b c w gx gy gc d = (refl, compared)
      where
        seen :
            (z : String) (n : ℕ)
            → m.get_val z w ≡ some (int_const n)
            → eval_expr fl m true (var_of z int_type) w ≡ ok (int_const n, w)
        seen z n e = eval_expr-ref fl m true _ (int_const n) w refl e

        sum : Sym F
        sum = binary (node_of int_type) tok_add (var_of x int_type) (var_of y int_type)

        sum_seen : eval_expr fl m true sum w ≡ ok (int_const (add64 a b), w)
        sum_seen =
            eval_expr-binary fl m true (node_of int_type) tok_add (var_of x int_type)
              (var_of y int_type) (int_const a) (int_const b) w w w (seen x a gx) (seen y b gy) refl

        differ : (add64 a b == c) ≡ false
        differ = ground (arith, d)

        compared :
            truth (binary (node_of bool_type) tok_eq sum (var_of "lit" int_type)) w ≡ ok false
        compared =
            rw
              (eval_expr-binary fl m true (node_of bool_type) tok_eq sum (var_of "lit" int_type)
                (int_const (add64 a b)) (int_const c) w w w sum_seen (seen "lit" c gc) refl)
              (rw differ refl)

  -- `topicin()` folds to true, while its evaluation in a running program is false.
  pub fold-topicin :
      (host : Host) (f : Func) (w : World F)
      → f.f_name ≡ "topicin"
      → let v = record (new_anon_sym fl s_fcall) { name = "topicin" } in
        (fold fl host (fcall v (some f) no_args) ≡ (0, leaf (new_bool fl true)))
        × (eval_expr fl (machine fl host) true (fcall v (some f) no_args) w
            ≡ ok (new_bool fl false, w))
  unfolding fold eval_expr call_builtin new_anon_sym var_args topic_in
  fold-topicin host f w e = (refl, rw e refl)
