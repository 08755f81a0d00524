-- ===== src/Parser/Pratt/Tokens.antt =====
-- parser/pratt.go: the parser of expressions on the first tokens of a term.
use rips.Prelude.{
  ℕ, zero, suc, ◌≤◌, ◌≡◌, refl, sym, ap, ◌∙◌, arith, true, false, not, ◌||◌, ltb, if◌then◌else◌,
  String, Option, none, some, List, ◌∷◌,
}
use mathlib.Core.Path.{subst}
use rips.Lex.Token.{same_tok, tok_lpar, tok_rpar, tok_comma}
use rips.Lex.Reader.{Token}
use rips.Tree.Sym.{Floats}
use rips.Tree.Env.{Symbol, StkEnv, get_sym}
use rips.Parser.{
  LexPeeker, Parser, P, done, pure, ◌>>=◌, when, rename, renamed, and_then, peek, skip, match_tok,
  no_operand, at_parameter,
}
use rips.Parser.Tree.{
  Prog, Expr, Args, literal, ident, call, no_args, arg, unary, binary, add_right, add_both,
  add_args,
}
use rips.Parser.Tables.{is_expr_tok, bind_pow}
use rips.Parser.Pratt.{
  named, name_val, set_expr_val, call_end, paren_end, nud_behind, nud_end, nud_of, led_of, start_of,
  args_of, args_behind, nud, expr, loop, func_args,
}
use rips.Parser.Grammar.{
  Op1, Op2, op1_tok, op2_tok, prec, prec1, Lit, float, int, str, bool, sign, lit_tok, id_tok,
  denoted, is_known, is_function, lit_val,
}
use rips.Parser.Pratt.Steps.{
  head, list_peeker, when-false, Halts, at, R, bind_pow-prec, round_of-op, round_of-Halts,
  nud_end-other, nud_of-un,
}

named-known :
    {F : Type 0} (fl : Floats F) (l : LexPeeker F (List (Token F))) (o : Option (Symbol F))
    (n : String) (p : Parser F (List (Token F)))
    → is_known o ≡ true
    → named fl l o n p ≡ (done (denoted o n), p)
unfolding pure
named-known fl l none n p e = cc
named-known fl l (some s) n p e = refl

pub known-function : {F : Type 0} (o : Option (Symbol F)) → is_function o ≡ true → is_known o ≡ true
known-function none e = cc
known-function (some s) e = refl

pub denoted-function :
    {F : Type 0} (o : Option (Symbol F)) (n : String)
    → is_function o ≡ true
    → (s : Symbol F) × (call s no_args ≡ denoted o n)
denoted-function none n e = cc
denoted-function (some s) n e = (s, ap (λ b. if b then call s no_args else ident s) (sym e))

-- An expression starts here.
abbrev pub Starts : {F : Type 0} → Token F → List (Token F) → Type 0
Starts eof ts =
    (same_tok (head eof ts).type tok_rpar || not (is_expr_tok (head eof ts).type)) ≡ false

module _ {F : Type 0} (fl : Floats F) (eof : Token F) (es : StkEnv F) (k : ℕ) (pr : Prog F) where
  abbrev pub here : List (Token F) → Parser F (List (Token F))
  here ts = at fl eof es k pr ts

  abbrev pub l : LexPeeker F (List (Token F))
  l = list_peeker eof

  start_of-here :
      (more : Token F → P F (List (Token F)) (Expr F)) (t : Token F) (ts : List (Token F))
      → not (is_expr_tok t.type) ≡ false
      → start_of fl l more (here (t ∷ ts)) ≡ more t (here ts)
  unfolding start_of peek skip ◌>>=◌
  start_of-here more t ts e = when-false _ _ _ _ e

  pub nud-lit :
      (f : ℕ) (x : Lit F) (ts : List (Token F))
      → same_tok (head eof ts).type tok_lpar ≡ false
      → nud fl l (suc f) (lit_tok fl x) (here ts) ≡ (done (literal (lit_val fl es x)), here ts)
  unfolding nud nud_of set_expr_val when pure ◌>>=◌ bind_pow
  nud-lit f (float x) ts h =
      nud_end-other fl eof es k pr (func_args fl l f) (lit_tok fl (float x)) _ ts h
  nud-lit f (int n) ts h =
      nud_end-other fl eof es k pr (func_args fl l f) (lit_tok fl (int n)) _ ts h
  nud-lit f (str s) ts h =
      nud_end-other fl eof es k pr (func_args fl l f) (lit_tok fl (str s)) _ ts h
  nud-lit f (bool b) ts h =
      nud_end-other fl eof es k pr (func_args fl l f) (lit_tok fl (bool b)) _ ts h

  -- A name, up to the test for a parenthesis.
  pub nud-known :
      (f : ℕ) (n : String) (ts : List (Token F))
      → is_known (get_sym n es) ≡ true
      → nud fl l (suc f) (id_tok fl n) (here ts)
        ≡ nud_end fl l (func_args fl l f) (id_tok fl n) (denoted (get_sym n es) n) (here ts)
  unfolding nud nud_of set_expr_val name_val when pure ◌>>=◌ bind_pow
  nud-known f n ts h =
      ap (λ r. and_then r (nud_behind fl l (expr fl l f) (func_args fl l f) (id_tok fl n)))
        (named-known fl l (get_sym n es) n (here ts) h)

  -- The arguments of a call, from its opening parenthesis on.
  pub called :
      (args : P F (List (Token F)) (Args F)) (n : String) (e : Expr F) (s : Symbol F) (xs : Args F)
      (ws ts : List (Token F))
      → call s no_args ≡ e
      → args (here ws) ≡ (done xs, here (sign fl tok_rpar ∷ ts))
      → nud_end fl l args (id_tok fl n) e (here (sign fl tok_lpar ∷ ws))
        ≡ (done (add_args e xs), here ts)
  unfolding nud_end match_tok peek skip when pure ◌>>=◌
  called args n e s xs ws ts i h =
      subst
        (λ e.
          nud_end fl l args (id_tok fl n) e (here (sign fl tok_lpar ∷ ws))
          ≡ (done (add_args e xs), here ts))
        i (ap (λ r. and_then r (call_end fl l (call s no_args))) h)

  pub nud-un :
      (f : ℕ) (o : Op1) (x : Expr F) (ws ts : List (Token F))
      → expr fl l f (suc (prec1 o)) (here ws) ≡ (done x, here ts)
      → same_tok (head eof ts).type tok_lpar ≡ false
      → nud fl l (suc f) (sign fl (op1_tok o)) (here ws) ≡ (done (unary (op1_tok o) x), here ts)
  unfolding nud rename ◌>>=◌ add_right
  nud-un f o x ws ts h i =
      nud_of-un fl eof es k pr (expr fl l f) (func_args fl l f) o ws
      ∙ ap
          (λ r. and_then (renamed (λ _. no_operand) r) (λ right.
            nud_end fl l (func_args fl l f) (sign fl (op1_tok o)) (add_right (op1_tok o) right)))
          h
      ∙ nud_end-other fl eof es k pr (func_args fl l f) (sign fl (op1_tok o)) _ ts i

  pub nud-paren :
      (f : ℕ) (x : Expr F) (ws ts : List (Token F))
      → expr fl l f 1 (here ws) ≡ (done x, here (sign fl tok_rpar ∷ ts))
      → nud fl l (suc f) (sign fl tok_lpar) (here ws) ≡ (done x, here ts)
  unfolding nud nud_of match_tok peek skip when pure ◌>>=◌
  nud-paren f x ws ts h = ap (λ r. and_then r (paren_end fl l)) h

  -- A first token, and the loop behind it.
  pub expr-nud :
      (f c : ℕ) (t : Token F) (e : Expr F) (ws ts : List (Token F)) (r : R fl eof es k pr (Expr F))
      → not (is_expr_tok t.type) ≡ false
      → nud fl l f t (here ws) ≡ (done e, here ts)
      → loop fl l f c e (here ts) ≡ r
      → expr fl l (suc f) c (here (t ∷ ws)) ≡ r
  unfolding expr ◌>>=◌
  expr-nud f c t e ws ts r i h h' =
      start_of-here (λ tok. nud fl l f tok >>= loop fl l f c) t ws i
      ∙ ap (λ r. and_then r (loop fl l f c)) h
      ∙ h'

  pub loop-Halts :
      (f c : ℕ) (e : Expr F) (ts : List (Token F))
      → Halts c (head eof ts).type
      → 1 ≤ f
      → loop fl l f c e (here ts) ≡ (done e, here ts)
  unfolding loop
  loop-Halts zero c e ts h i = absurd (omega arith)
  loop-Halts (suc f) c e ts h i = round_of-Halts fl eof es k pr _ c e ts h

  -- An operator that binds as much as is asked for, with its right operand and the loop behind that.
  pub loop-op :
      (f c : ℕ) (o : Op2) (x y : Expr F) (ws ts : List (Token F)) (r : R fl eof es k pr (Expr F))
      → ltb (prec o) c ≡ false
      → expr fl l f (suc (prec o)) (here ws) ≡ (done y, here ts)
      → loop fl l f c (binary (op2_tok o) x y) (here ts) ≡ r
      → loop fl l (suc f) c x (here (sign fl (op2_tok o) ∷ ws)) ≡ r
  unfolding loop led_of add_both pure ◌>>=◌
  loop-op f c o x y ws ts r i h h' =
      round_of-op fl eof es k pr _ c x o ws i
      ∙ ap
          (λ r.
            and_then (and_then r (λ right. pure (add_both (op2_tok o) x right))) (loop fl l f c))
          (ap (λ n. expr fl l f (suc n) (here ws)) (bind_pow-prec o) ∙ h)
      ∙ h'

  -- Arguments, from the first one on: the last, and one that a comma follows.
  pub args-last :
      (f : ℕ) (x : Expr F) (ws ts : List (Token F))
      → Starts eof ws
      → expr fl l f 0 (here ws) ≡ (done x, here (sign fl tok_rpar ∷ ts))
      → func_args fl l (suc f) (here ws) ≡ (done (arg x no_args), here (sign fl tok_rpar ∷ ts))
  unfolding func_args args_of rename match_tok peek skip pure when ◌>>=◌
  args-last f x ws ts s h =
      ap
        (λ b.
          if b
          then (done no_args, here ws)
          else and_then (renamed at_parameter (expr fl l f 0 (here ws)))
              (args_behind fl l (func_args fl l f)))
        s
      ∙ ap (λ r. and_then (renamed at_parameter r) (args_behind fl l (func_args fl l f))) h

  pub args-before :
      (f : ℕ) (x : Expr F) (xs : Args F) (us ws ts : List (Token F))
      → Starts eof us
      → expr fl l f 0 (here us) ≡ (done x, here (sign fl tok_comma ∷ ws))
      → func_args fl l f (here ws) ≡ (done xs, here ts)
      → func_args fl l (suc f) (here us) ≡ (done (arg x xs), here ts)
  unfolding func_args args_of rename match_tok peek skip pure when ◌>>=◌
  args-before f x xs us ws ts s h h' =
      ap
        (λ b.
          if b
          then (done no_args, here us)
          else and_then (renamed at_parameter (expr fl l f 0 (here us)))
              (args_behind fl l (func_args fl l f)))
        s
      ∙ ap (λ r. and_then (renamed at_parameter r) (args_behind fl l (func_args fl l f))) h
      ∙ ap (λ r. and_then r (λ xs. pure (arg x xs))) h'
