-- ===== src/Parser/Pratt.antt =====
-- parser/pratt.go: the parser of expressions. A binding power that is passed on, `rbp` in the source,
-- stands here with 1 added, since `funcArgs` passes -1.
pub mod RoundTrip
pub mod Steps
pub mod Tokens
pub mod Total
use rips.Prelude.{
  ℕ, zero, suc, ◌+◌, Bool, true, false, not, ◌||◌, ◌&&◌, ◌==◌, ltb, if◌then◌else◌, String, str_eq,
  Option, none, some, List, [], ◌∷◌,
}
use rips.Lex.Token.{
  TokType, same_tok, tok_lpar, tok_rpar, tok_comma, tok_id, tok_float_val, tok_int_val, tok_str_val,
  tok_bool_val,
}
use rips.Lex.Reader.{Token}
use rips.Types.{
  float_type, int_type, string_type, bool_type, tv_float, tv_int, tv_string, tv_bool,
  undef_expr_type,
}
use rips.Tree.Sym.{SType, s_none, s_var, s_func, s_fcall, s_const, Val, Floats, new_anon_sym}
use rips.Tree.Env.{Symbol, StkEnv, get_sym, new_sym, find, Made, made, refused, no_env}
use rips.Parser.{
  LexPeeker, Parser, P, Parsed, ParseErr, done, failed, crashed, stuck, pure, fail, ◌>>=◌, ◌>>◌,
  when, rename, errorf, peek, skip, match_tok, lex_error, bad_expression, no_operator, not_unary,
  no_operand, cannot_call, missing_rpar, unmatched_paren, at_parameter, in_list,
}
use rips.Parser.Tree.{
  Expr, Args, literal, op_leaf, ident, unknown, call, no_args, arg, add_right, add_both, add_args,
}
use rips.Parser.Tables.{is_expr_tok, unary_tab, bind_pow, def_rbp}

abbrev pub is_func : SType → Bool
is_func s_func = true
is_func _ = false

-- A constant of `NewExpr`, for `SetExprVal`.
abbrev pub blank_const : {F : Type 0} → Floats F → Val F
unfolding new_anon_sym
blank_const fl = new_anon_sym fl s_const

-- A declaration whose error is not looked at. Without an environment, it panics.
abbrev pub declared : {F S : Type 0} → Made F → P F S (Unit {0})
declared (made s es) p = (done tt, record p { envs = es })
declared refused p = (done tt, p)
declared no_env p = (crashed, p)

module _ {F S : Type 0} (fl : Floats F) (l : LexPeeker F S) where
  -- A name that is unknown is declared to prevent a cascade of errors.
  unfoldable pub declare_none : String → P F S (Unit {0})
  declare_none n p = declared (new_sym n s_none p.envs) p

  abbrev pub named : Option (Symbol F) → String → P F S (Expr F)
  named (some s) n = pure (if is_func s.s_type then call s no_args else ident s)
  named none n = do errorf; declare_none n; pure (unknown n)

  unfoldable pub name_val : String → P F S (Expr F)
  name_val n p = named (get_sym n p.envs) n p

  abbrev pub expr_val : TokType → Token F → P F S (Expr F)
  expr_val tok_float_val t =
      pure (literal (record (blank_const fl) { data_type = float_type; float_val = t.tok_float }))
  expr_val tok_int_val t =
      pure (literal (record (blank_const fl) { data_type = int_type; int_val = t.tok_int }))
  expr_val tok_str_val t =
      pure (literal (record (blank_const fl) { data_type = string_type; str_val = t.tok_str }))
  expr_val tok_bool_val t =
      pure (literal (record (blank_const fl) { data_type = bool_type; bool_val = t.tok_bool }))
  expr_val tok_id t = name_val t.lexema
  expr_val op t = pure (op_leaf op)

  unfoldable pub set_expr_val : Token F → P F S (Expr F)
  set_expr_val t = expr_val t.type t

  -- `expr.SType = SFCall`: the symbol of a variable is the very one that the environment holds.
  abbrev pub retyped_in : String → List (Symbol F) → List (Symbol F)
  retyped_in n [] = []
  retyped_in n (s ∷ e) =
      let rest = retyped_in n e in
      if str_eq s.name n then record s { s_type = s_fcall } ∷ e else s ∷ rest

  abbrev pub is_none : Option (Symbol F) → Bool
  is_none none = true
  is_none (some s) = false

  abbrev pub retyped : String → StkEnv F → StkEnv F
  retyped n [] = []
  retyped n (e ∷ es) =
      let rest = retyped n es in if is_none (find n e) then e ∷ rest else retyped_in n e ∷ es

  abbrev pub as_fcall : Expr F → P F S (Expr F)
  as_fcall (ident s) =
      λ p. (done (ident (record s { s_type = s_fcall })), record p { envs = retyped s.name p.envs })
  as_fcall e = pure e

  abbrev pub is_some : Option (Token F) → Bool
  is_some none = false
  is_some (some t) = true

  -- The closing parenthesis of a call, and of an expression.
  abbrev pub call_end : Expr F → Args F → P F S (Expr F)
  call_end e xs = do
    c ← match_tok l tok_rpar
    when (is_some c) (pure (add_args e xs)) (fail missing_rpar)

  abbrev pub paren_end : Expr F → P F S (Expr F)
  paren_end e = do c ← match_tok l tok_rpar; when (is_some c) (pure e) (fail unmatched_paren)

  -- `Nud` behind the test for a parenthesis, where `is_id` tells whether the first token is a name.
  -- `args` reads the arguments of a call.
  abbrev pub nud_after : P F S (Args F) → Bool → Expr F → Option (Token F) → P F S (Expr F)
  nud_after args is_id e o =
      when (not is_id && is_some o) (fail cannot_call) do
        when (not is_id || not (is_some o)) (pure e) do e' ← as_fcall e; xs ← args; call_end e' xs

  -- `Nud` behind the operand of a unary operator.
  unfoldable pub nud_end : P F S (Args F) → Token F → Expr F → P F S (Expr F)
  nud_end args tok e = match_tok l tok_lpar >>= nud_after args (same_tok tok.type tok_id) e

  -- `Nud` behind `SetExprVal`. `sub` parses an expression behind an operator of the binding power given.
  abbrev pub nud_behind : (ℕ → P F S (Expr F)) → P F S (Args F) → Token F → Expr F → P F S (Expr F)
  nud_behind sub args tok e = when (bind_pow tok.type false == def_rbp) (nud_end args tok e) do
    when (not (unary_tab tok.type)) (fail not_unary) do
      right ← rename (λ _. no_operand) (sub (suc (bind_pow tok.type true)))
      nud_end args tok (add_right tok.type right)

  -- `Nud`.
  unfoldable pub nud_of : (ℕ → P F S (Expr F)) → P F S (Args F) → Token F → P F S (Expr F)
  nud_of sub args tok =
      when (same_tok tok.type tok_lpar) (do e ← sub (suc 0); paren_end e)
        (do e ← set_expr_val tok; nud_behind sub args tok e)

  -- `Led`; no operator is right associative.
  unfoldable pub led_of : (ℕ → P F S (Expr F)) → Expr F → Token F → P F S (Expr F)
  led_of sub left tok = do
    right ← sub (suc (bind_pow tok.type false))
    pure (add_both tok.type left right)

  -- A round of the loop of `Expr`: the end of the expression, or `more`, with a left operand.
  unfoldable pub round_of : (Token F → P F S (Expr F)) → ℕ → Expr F → P F S (Expr F)
  round_of more rbp left = do
    tok ← peek l
    when (not (is_expr_tok tok.type) || same_tok tok.type tok_rpar) (pure left) do
      when (bind_pow tok.type false == def_rbp) (fail no_operator)
          do when (ltb (bind_pow tok.type false) rbp) (pure left) do skip l; more tok

  -- The start of `Expr`.
  unfoldable pub start_of : (Token F → P F S (Expr F)) → P F S (Expr F)
  start_of more = do
    tok ← peek l
    when (not (is_expr_tok tok.type)) (fail bad_expression) do skip l; more tok

  -- `funcArgs` behind its first argument, with `more` behind a comma.
  abbrev pub args_behind : P F S (Args F) → Expr F → P F S (Args F)
  args_behind more x = do
    c ← rename in_list (match_tok l tok_comma)
    when (not (is_some c)) (pure (arg x no_args)) do xs ← more; pure (arg x xs)

  -- `funcArgs`.
  unfoldable pub args_of : P F S (Expr F) → P F S (Args F) → P F S (Args F)
  args_of param more = do
    tok ← peek l
    when (same_tok tok.type tok_rpar || not (is_expr_tok tok.type)) (pure no_args)
        do x ← rename at_parameter param; args_behind more x

  -- `Nud`, `Led`, `Expr`, its loop and `funcArgs`, on fuel.
  unfoldable mutual
    pub nud : ℕ → Token F → P F S (Expr F)
    nud zero tok p = (stuck, p)
    nud (suc f) tok p = nud_of (expr f) (func_args f) tok p

    pub expr : ℕ → ℕ → P F S (Expr F)
    expr zero rbp p = (stuck, p)
    expr (suc f) rbp p = start_of (λ tok. nud f tok >>= loop f rbp) p

    pub loop : ℕ → ℕ → Expr F → P F S (Expr F)
    loop zero rbp left p = (stuck, p)
    loop (suc f) rbp left p = round_of (λ tok. led_of (expr f) left tok >>= loop f rbp) rbp left p

    pub func_args : ℕ → P F S (Args F)
    func_args zero p = (stuck, p)
    func_args (suc f) p = args_of (expr f 0) (func_args f) p
