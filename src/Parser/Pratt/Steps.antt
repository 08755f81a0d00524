-- ===== src/Parser/Pratt/Steps.antt =====
-- parser/pratt.go: the steps of the parser of expressions on a list of tokens.
use rips.Prelude.{
  ℕ, suc, ◌≤◌, ◌<◌, ◌≡◌, refl, ap, ◌∙◌, arith, Bool, true, false, not, ◌||◌, ◌==◌, ltb,
  if◌then◌else◌, Option, none, some, List, [], ◌∷◌, ◌⊎◌, inl, inr,
}
use rips.Lex.Token.{TokType, same_tok, contains_rune, tok_lpar, tok_rpar, tok_id, tok_eof}
use rips.Lex.Reader.{Token}
use rips.Tree.Sym.{Floats}
use rips.Tree.Env.{StkEnv}
use rips.Parser.{
  LexPeeker, Parser, P, Parsed, done, pure, ◌>>=◌, when, rename, and_then, peek, skip, match_tok,
  no_operand,
}
use rips.Parser.Tree.{Prog, Expr, Args, add_right}
use rips.Parser.Tables.{is_expr_tok, bind_pow}
use rips.Parser.Pratt.{set_expr_val, nud_end, nud_of, round_of, nud_after}
use rips.Parser.Grammar.{
  Op1, plus, minus, complement, negation, Op2, op1_tok, op2_tok, prec, prec1, sign, log_or,
}

-- A list of tokens, with the token of the end behind it without end.
abbrev pub head : {F : Type 0} → Token F → List (Token F) → Token F
head eof [] = eof
head eof (t ∷ ts) = t

abbrev pub rest : {F : Type 0} → List (Token F) → List (Token F)
rest [] = []
rest (t ∷ ts) = ts

abbrev pub while_not :
    {F : Type 0} → Token F → List TokType → List (Token F) → Option (Token F) × List (Token F)
while_not eof tps [] = (some eof, [])
while_not eof tps (t ∷ ts) =
    let more = while_not eof tps ts in
    if same_tok t.type tok_eof || contains_rune tps t.type then (some t, t ∷ ts) else more

abbrev pub list_peeker : {F : Type 0} → Token F → LexPeeker F (List (Token F))
list_peeker eof = record {
  look = λ ts. (some (head eof ts), ts);
  skip = rest;
  while_not = while_not eof;
}

-- The tests of the parser on its operators.
pub op2-is_expr :
    (o : Op2) → (not (is_expr_tok (op2_tok o)) || same_tok (op2_tok o) tok_rpar) ≡ false
op2-is_expr log_or = refl
op2-is_expr _ = refl

pub op2-binds : (o : Op2) → (bind_pow (op2_tok o) false == 0) ≡ false
unfolding bind_pow
op2-binds log_or = refl
op2-binds _ = refl

-- The table of the parser is the order of the grammar.
pub bind_pow-prec : (o : Op2) → bind_pow (op2_tok o) false ≡ prec o
unfolding bind_pow
bind_pow-prec log_or = refl
bind_pow-prec _ = refl

pub prec_bounds : (o : Op2) → (1 ≤ prec o) × (prec o ≤ 14000)
prec_bounds log_or = (omega arith, omega arith)
prec_bounds _ = (omega arith, omega arith)

pub prec1_bound : (o : Op1) → 14000 < prec1 o
prec1_bound plus = omega arith
prec1_bound _ = omega arith

-- A token behind which an expression of the binding power `c` does not go on.
pub data Halts (c : ℕ) : TokType → Type 0 where
  ends : (t : TokType) → is_expr_tok t ≡ false → Halts c t
  closes : Halts c tok_rpar
  weaker : (o : Op2) → prec o < c → Halts c (op2_tok o)

not_lpar : (t : TokType) → is_expr_tok t ≡ false → same_tok t tok_lpar ≡ false
not_lpar tok_lpar e = cc
not_lpar _ e = refl

pub Halts-not_lpar : (c : ℕ) (t : TokType) → Halts c t → same_tok t tok_lpar ≡ false
Halts-not_lpar c _ (ends t e) = not_lpar t e
Halts-not_lpar c _ closes = refl
Halts-not_lpar c _ (weaker o h) = op2-not_lpar o
  where
    op2-not_lpar : (o : Op2) → same_tok (op2_tok o) tok_lpar ≡ false
    op2-not_lpar log_or = refl
    op2-not_lpar _ = refl

pub Halts-le : (c d : ℕ) (t : TokType) → c ≤ d → Halts c t → Halts d t
Halts-le c d _ i (ends t e) = ends t e
Halts-le c d _ i closes = closes
Halts-le c d _ i (weaker o h) = weaker o (omega arith)

-- The operand of a unary operator ends where the operator's term does.
pub Halts-un : (c : ℕ) (o : Op1) (t : TokType) → Halts c t → Halts (suc (prec1 o)) t
Halts-un c o _ (ends t e) = ends t e
Halts-un c o _ closes = closes
Halts-un c o _ (weaker o' h) = weaker o' (omega (arith, (prec_bounds o').1, prec1_bound o))

lt→ltb : (a b : ℕ) → a < b → ltb a b ≡ true
lt→ltb a b h = ground arith

-- The three tests of the loop, of which the first or the last one ends it.
abbrev Tests : Bool → Bool → Bool → Type 0
Tests x y z = (x ≡ true) ⊎ ((x ≡ false) × (y ≡ false) × (z ≡ true))

Halts-Tests :
    (c : ℕ) (t : TokType)
    → Halts c t
    → Tests
        (not (is_expr_tok t) || same_tok t tok_rpar)
        (bind_pow t false == 0)
        (ltb (bind_pow t false) c)
Halts-Tests c _ (ends t e) = inl (ap (λ b. not b || same_tok t tok_rpar) e)
Halts-Tests c _ closes = inl refl
Halts-Tests c _ (weaker o h) =
    inr (op2-is_expr o, op2-binds o, ap (λ n. ltb n c) (bind_pow-prec o) ∙ lt→ltb (prec o) c h)

module _ {F S : Type 0} {A : Type 0} where
  when-true : (b : Bool) (m k : P F S A) (p : Parser F S) → b ≡ true → when b m k p ≡ m p
  unfolding when
  when-true b m k p e = ap (λ b. (if b then m p else k p)) e

  pub when-false : (b : Bool) (m k : P F S A) (p : Parser F S) → b ≡ false → when b m k p ≡ k p
  unfolding when
  when-false b m k p e = ap (λ b. (if b then m p else k p)) e

  halted :
      (x y z : Bool) (a : A) (m k : P F S A) (p : Parser F S)
      → Tests x y z
      → when x (pure a) (when y m (when z (pure a) k)) p ≡ (done a, p)
  unfolding pure
  halted x y z a m k p (inl e) = when-true x _ _ p e
  halted x y z a m k p (inr (e, e', e'')) =
      when-false x _ _ p e ∙ when-false y _ _ p e' ∙ when-true z _ _ p e''

module _ {F : Type 0} (fl : Floats F) (eof : Token F) (es : StkEnv F) (n : ℕ) (pr : Prog F) where
  -- The parser before the tokens given.
  abbrev pub at : List (Token F) → Parser F (List (Token F))
  at ts = record { source = ts; n_err = n; envs = es; prog = pr }

  abbrev pub R : Type 0 → Type 0
  R A = Parsed A × Parser F (List (Token F))

  -- The loop of `Expr` on an operator that binds as much as is asked for, and on the end.
  pub round_of-op :
      (more : Token F → P F (List (Token F)) (Expr F)) (c : ℕ) (left : Expr F) (o : Op2)
      (ts : List (Token F))
      → ltb (prec o) c ≡ false
      → round_of fl (list_peeker eof) more c left (at (sign fl (op2_tok o) ∷ ts))
        ≡ more (sign fl (op2_tok o)) (at ts)
  unfolding round_of peek skip ◌>>=◌
  round_of-op more c left o ts e =
      when-false _ _ _ _ (op2-is_expr o)
      ∙ when-false _ _ _ _ (op2-binds o)
      ∙ when-false _ _ _ _ (ap (λ n. ltb n c) (bind_pow-prec o) ∙ e)

  pub round_of-Halts :
      (more : Token F → P F (List (Token F)) (Expr F)) (c : ℕ) (left : Expr F) (ts : List (Token F))
      → Halts c (head eof ts).type
      → round_of fl (list_peeker eof) more c left (at ts) ≡ (done left, at ts)
  unfolding round_of peek skip ◌>>=◌ pure
  round_of-Halts more c left ts h =
      halted _ _ _ left _ _ (at ts) (Halts-Tests c (head eof ts).type h)

  pub match_tok-here :
      (t : TokType) (tok : Token F) (ts : List (Token F))
      → same_tok tok.type t ≡ true
      → match_tok (list_peeker eof) t (at (tok ∷ ts)) ≡ (done (some tok), at ts)
  unfolding match_tok peek skip ◌>>=◌ pure
  match_tok-here t tok ts e = when-true _ _ _ _ e

  pub match_tok-other :
      (t : TokType) (ts : List (Token F))
      → same_tok (head eof ts).type t ≡ false
      → match_tok (list_peeker eof) t (at ts) ≡ (done none, at ts)
  unfolding match_tok peek skip ◌>>=◌ pure
  match_tok-other t ts e = when-false _ _ _ _ e

  nud_after-none :
      (args : P F (List (Token F)) (Args F)) (b : Bool) (e : Expr F) (ts : List (Token F))
      → nud_after fl (list_peeker eof) args b e none (at ts) ≡ (done e, at ts)
  unfolding when pure
  nud_after-none args true e ts = refl
  nud_after-none args false e ts = refl

  -- Behind a first token no parenthesis follows.
  pub nud_end-other :
      (args : P F (List (Token F)) (Args F)) (tok : Token F) (e : Expr F) (ts : List (Token F))
      → same_tok (head eof ts).type tok_lpar ≡ false
      → nud_end fl (list_peeker eof) args tok e (at ts) ≡ (done e, at ts)
  unfolding nud_end ◌>>=◌
  nud_end-other args tok e ts i =
      ap (λ r. and_then r (nud_after fl (list_peeker eof) args (same_tok tok.type tok_id) e))
        (match_tok-other tok_lpar ts i)
      ∙ nud_after-none args (same_tok tok.type tok_id) e ts

  pub nud_of-un :
      (parse : ℕ → P F (List (Token F)) (Expr F)) (args : P F (List (Token F)) (Args F)) (o : Op1)
      (ts : List (Token F))
      → nud_of fl (list_peeker eof) parse args (sign fl (op1_tok o)) (at ts)
        ≡ (rename (λ _. no_operand) (parse (suc (prec1 o))) >>= λ right.
              nud_end fl (list_peeker eof) args (sign fl (op1_tok o)) (add_right (op1_tok o) right))
            (at ts)
  unfolding nud_of set_expr_val when pure ◌>>=◌ bind_pow
  nud_of-un parse args plus ts = refl
  nud_of-un parse args minus ts = refl
  nud_of-un parse args complement ts = refl
  nud_of-un parse args negation ts = refl
