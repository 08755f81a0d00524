-- ===== src/Tree/Fold.antt =====
-- tree/const.go: constant folding of expressions. The result is the number of errors and the new
-- expression. Compiling a rule of yara or a regular expression asks the host.
pub mod Dead
pub mod Differs
mod Tests
use rips.Prelude.{
  ℕ, ◌+◌, ◌-◌, Bool, true, false, not, ◌&&◌, ◌||◌, ◌==◌, if◌then◌else◌, str_eq, String, Option,
  none, some, List, [], ◌∷◌,
}
use Prim.Native.String.{len, slice}
use rips.Prelude.Int64.{minus_one}
use rips.Prelude.Result.{Result, ok, fatal, panic}
use rips.Lex.Token.{
  TokType, same_tok, tok_add, tok_min, tok_div, tok_bit_and, tok_bit_or, tok_log_and, tok_log_or,
  tok_eq, tok_neq,
}
use rips.Types.{Ty, TypeVal, same_val, tv_int, tv_float}
use rips.Extern.Host.{Host}
use rips.Tree.Sym.{
  Floats, Val, Sym, leaf, ref, fcall, binary, unary, Args, no_args, arg, Func, SType, s_none,
  s_level, s_const, s_var, s_yara, s_regexp, sym_val, s_type_of, new_bool, new_string,
}
use rips.Tree.Eval.{Machine, eval_expr}
use rips.Tree.Builtins.Fns.{string_of}

unfoldable pub is_constant : {F : Type 0} → Sym F → Bool
is_constant s = elim (s_type_of s) [ s_const ↦ true | s_level ↦ true | _ ↦ false ]

abbrev pub is_var : {F : Type 0} → Sym F → Bool
is_var s = elim (s_type_of s) [ s_var ↦ true | _ ↦ false ]

-- The last test wins, as in the source.
unfoldable pub fold_int : {F : Type 0} → Sym F → Sym F → Sym F → ℕ → Sym F
unfolding is_constant
fold_int s e1 e2 val =
    if is_constant e2 && val == (sym_val e2).int_val
    then e1
    else if is_constant e1 && val == (sym_val e1).int_val
    then e2
    else s

-- The environment of folding: two constants are evaluated without looking anything up.
abbrev no_machine : {F : Type 0} → Machine F (Unit {0})
no_machine = record { get_val = λ n w. none; call = λ n xs w. panic }

module _ {F : Type 0} (fl : Floats F) where
  unfoldable pub fold_float : Sym F → Sym F → Sym F → F → Sym F
  unfolding is_constant
  fold_float s e1 e2 val =
      if is_constant e2 && fl.f_eq val (sym_val e2).float_val
      then e1
      else if is_constant e1 && fl.f_eq val (sym_val e1).float_val
      then e2
      else s

  -- `s.EvalExpr(envs, nil)` where the operands of `s` are constants; it does not panic.
  unfoldable pub eval_constant : Sym F → Sym F
  eval_constant s = elim (eval_expr fl no_machine false s tt) [ ok p ↦ leaf p.0 | _ ↦ s ]

  fold_or : Sym F → Sym F → Sym F
  fold_or l r = if (sym_val l).bool_val then leaf (new_bool fl true) else r

  fold_and : Sym F → Sym F → Sym F
  fold_and l r = if not (sym_val l).bool_val then leaf (new_bool fl false) else r

  fold_plus : TypeVal → Sym F → Sym F → Sym F → Sym F
  unfolding fold_int fold_float
  fold_plus tv s l r =
      if same_val tv tv_int
      then fold_int s l r 0
      else if same_val tv tv_float
      then fold_float s l r fl.f_zero
      else s

  fold_minus : TypeVal → Sym F → Sym F → Sym F → Sym F
  unfolding is_constant
  fold_minus tv s l r =
      if is_constant r
        && (same_val tv tv_int && (sym_val r).int_val == 0
            || same_val tv tv_float && fl.f_eq (sym_val r).float_val fl.f_zero)
      then l
      else s

  -- The comparison of a variable with something of its name.
  fold_same : TypeVal → TokType → Sym F → Sym F → Sym F → Sym F
  fold_same tv op s l r =
      if is_var r && not (same_val tv tv_float) && str_eq (sym_val l).name (sym_val r).name
      then (if same_tok op tok_eq
          then leaf (new_bool fl true)
          else if same_tok op tok_neq
          then leaf (new_bool fl false)
          else s)
      else s

  -- `FoldBinary` of the expression `v` with operator `op` and folded operands.
  unfoldable pub fold_binary : Val F → TokType → Sym F → Sym F → Sym F
  unfolding eval_constant fold_or fold_and fold_plus fold_minus fold_same fold_int is_constant
  fold_binary v op l r =
      let s = binary v op l r in
      let tv = v.data_type.t_val in
      if is_constant l && is_constant r
      then eval_constant s
      else if same_tok op tok_log_or && is_constant l
      then fold_or l r
      else if same_tok op tok_log_and && is_constant l
      then fold_and l r
      else if same_tok op tok_add
      then fold_plus tv s l r
      else if same_tok op tok_bit_or
      then fold_int s l r 0
      else if same_tok op tok_min
      then fold_minus tv s l r
      else if same_tok op tok_bit_and
      then fold_int s l r minus_one
      else fold_same tv op s l r

  -- `iszerodiv`; the remainder is not tested.
  unfoldable pub is_zero_div : Val F → TokType → Sym F → Bool
  unfolding is_constant
  is_zero_div v op r =
      same_tok op tok_div
      && is_constant r
      && (same_val v.data_type.t_val tv_int && (sym_val r).int_val == 0
          || same_val v.data_type.t_val tv_float && fl.f_eq (sym_val r).float_val fl.f_zero)

  unfoldable pub fold_unary : Val F → TokType → Sym F → Sym F
  unfolding eval_constant is_constant
  fold_unary v op r = if is_constant r then eval_constant (unary v op r) else unary v op r

-- `strings.HasSuffix`.
unfoldable pub has_suffix : String → String → Bool
has_suffix s t = str_eq (slice s (len s - len t) (len s)) t

-- The calls that are true with no argument, by the suffix of their name.
unfoldable pub is_include : String → Bool
unfolding has_suffix
is_include name = not (str_eq name "plugin") && (has_suffix name "in" || has_suffix name "include")

-- One pointer: the same symbol of the environment.
abbrev same_symbol : {F : Type 0} → Sym F → Sym F → Bool
same_symbol (ref u) (ref v) = str_eq u.name v.name
same_symbol _ _ = false

abbrev set_itself : {F : Type 0} → Args F → Bool
set_itself (arg a (arg b rest)) = same_symbol a b
set_itself _ = false

abbrev has_no_args : {F : Type 0} → Args F → Bool
has_no_args no_args = true
has_no_args (arg a rest) = false

-- `Yarify` and `Regexify` of the first argument: the new kind of symbol, and the errors.
abbrev retype : {F : Type 0} → SType → Sym F → Sym F
retype st (leaf v) = leaf (record v { s_type = st })
retype st (ref v) = ref (record v { s_type = st })
retype st other = other

abbrev count_if : Bool → ℕ
count_if b = if b then 1 else 0

is_s_const : {F : Type 0} → Sym F → Bool
is_s_const s = elim (s_type_of s) [ s_const ↦ true | _ ↦ false ]

module _ {F : Type 0} (host : Host) where
  compile_first : String → Args F → ℕ × Args F
  unfolding is_s_const
  compile_first name no_args = (0, no_args)
  compile_first name (arg a rest) =
      if str_eq name "payload"
      then (
        count_if (not (is_s_const a)) + count_if (not (host.yara_compiles (sym_val a).str_val)),
        arg (retype s_yara a) rest,
      )
      else if str_eq name "topicmatches"
      then (
        count_if (not (is_s_const a)) + count_if (not (host.regexp_compiles (sym_val a).str_val)),
        arg (retype s_regexp a) rest,
      )
      else (0, arg a rest)

module _ {F : Type 0} (fl : Floats F) where
  -- What becomes of a call whose arguments are folded.
  fold_known : Val F → Option Func → Args F → Sym F
  unfolding is_constant
  fold_known v f no_args = fcall v f no_args
  fold_known v f (arg a rest) =
      if str_eq v.name "levelname" && (elim (s_type_of a) [ s_level ↦ true | _ ↦ false ])
      then leaf (new_string fl (sym_val a).name)
      else if str_eq v.name "string" && is_constant a
      then leaf (new_string fl (string_of fl (sym_val a)))
      else fcall v f (arg a rest)

  -- The case `SFCall` of `Fold`, with the arguments already folded.
  fold_call : Host → Val F → Option Func → Args F → ℕ → Args F → ℕ × Sym F
  unfolding fold_known compile_first is_include
  fold_call host v f xs n folded =
      if str_eq v.name "set" && set_itself xs
      then (0, leaf (new_bool fl true))
      else if is_include v.name && has_no_args xs
      then (0, leaf (new_bool fl true))
      else if (str_eq v.name "payload" || str_eq v.name "topicmatches") && has_no_args xs
      then (1, fcall v f xs)
      else (
        (compile_first host v.name xs).0 + n,
        fold_known v f (compile_first host v.name folded).1,
      )

  -- A made up symbol is an error; no leaf of another kind needs folding.
  leaf_errors : SType → ℕ
  leaf_errors s_none = 1
  leaf_errors _ = 0

  -- `Fold`. The first argument of `payload` and `topicmatches` is compiled before the arguments are
  -- folded, which is the same for a leaf; if it is none, that is an error.
  unfoldable mutual
    unfolding fold_call leaf_errors

    pub fold : Host → Sym F → ℕ × Sym F
    fold host (leaf v) = (leaf_errors v.s_type, leaf v)
    fold host (ref v) = (leaf_errors v.s_type, ref v)
    fold host (fcall v f xs) = let p = fold_args host xs in fold_call host v f xs p.0 p.1
    fold host (binary v op l r) =
        let p = fold host l in
        let q = fold host r in
        (p.0 + q.0 + count_if (is_zero_div fl v op q.1), fold_binary fl v op p.1 q.1)
    fold host (unary v op r) = let p = fold host r in (p.0, fold_unary fl v op p.1)

    pub fold_args : Host → Args F → ℕ × Args F
    fold_args host no_args = (0, no_args)
    fold_args host (arg x xs) =
        let p = fold host x in let q = fold_args host xs in (p.0 + q.0, arg p.1 q.1)
