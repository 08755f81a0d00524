-- ===== src/Parser/Pratt/RoundTrip.antt =====
-- parser/pratt.go: a term that is written with the parentheses that it needs is parsed as what it means.
use rips.Prelude.{
  ℕ, zero, suc, ◌+◌, ◌*◌, ◌≤◌, ◌<◌, ◌≡◌, refl, sym, ◌∙◌, arith, Bool, true, false, not, ltb,
  if◌then◌else◌, String, List, ◌∷◌, length,
}
use rips.Lex.Token.{same_tok, tok_lpar, tok_rpar, tok_comma}
use rips.Lex.Reader.{Token}
use rips.Tree.Sym.{Floats}
use rips.Tree.Env.{StkEnv, get_sym}
use rips.Parser.{done, pure, ◌>>=◌, when, peek}
use rips.Parser.Tree.{Prog, Expr, Args, literal, no_args, arg, unary, binary, add_args}
use rips.Parser.Tables.{is_expr_tok}
use rips.Parser.Pratt.{args_of, nud, expr, loop, func_args}
use rips.Parser.Grammar.{
  Op1, plus, Op2, op1_tok, op2_tok, prec, prec1, Lit, float, int, str, bool, Term, Terms, lit, name,
  app, un, bin, nothing, last, before, sign, lit_tok, id_tok, written, args_written, denoted,
  is_known, is_function, lit_val, meant, all_meant, InScope, AllInScope,
}
use rips.Parser.Pratt.Steps.{
  head, list_peeker, Halts, ends, closes, weaker, Halts-not_lpar, Halts-le, Halts-un, prec_bounds,
  at, R, nud_end-other,
}
use rips.Parser.Pratt.Tokens.{
  here, l, nud-lit, nud-known, called, nud-un, nud-paren, expr-nud, loop-Halts, loop-op,
  denoted-function, known-function, args-last, args-before, Starts,
}

-- Fuel above a bound is a successor.
spend : (n : ℕ) (A : ℕ → Type 0) → ((f : ℕ) → n < suc f → A (suc f)) → (f : ℕ) → n < f → A f
spend n A h zero i = absurd (omega arith)
spend n A h (suc f) i = h f i

spend_two :
    (n : ℕ) (A : ℕ → Type 0)
    → ((f : ℕ) → n + 1 < suc (suc f) → A (suc (suc f)))
    → (f : ℕ) → n + 1 < f
    → A f
spend_two n A h zero i = absurd (omega arith)
spend_two n A h (suc zero) i = absurd (omega arith)
spend_two n A h (suc (suc f)) i = h f i

op1-is_expr : (o : Op1) → not (is_expr_tok (op1_tok o)) ≡ false
op1-is_expr plus = refl
op1-is_expr _ = refl

module _ {F : Type 0} (fl : Floats F) (eof : Token F) (es : StkEnv F) (k : ℕ) (pr : Prog F) where
  -- The parser is through with `x`: what its loop ends with behind it is what `Expr` ends with.
  abbrev Reads : ℕ → Expr F → List (Token F) → List (Token F) → Type 0
  Reads c x ws ts =
      (r : R fl eof es k pr (Expr F))
      → ((f : ℕ)
          → 3 * length ts + 1 < f
          → loop fl (l fl eof es k pr) f c x (here fl eof es k pr ts) ≡ r)
      → (f : ℕ) → 3 * length ws < f
      → expr fl (l fl eof es k pr) f c (here fl eof es k pr ws) ≡ r

  abbrev ReadsArgs : Args F → List (Token F) → List (Token F) → Type 0
  ReadsArgs xs ws ts =
      (f : ℕ)
      → 3 * length ws + 1 < f
      → func_args fl (l fl eof es k pr) f (here fl eof es k pr ws)
        ≡ (done xs, here fl eof es k pr ts)

  nud-Reads :
      (c : ℕ) (t : Token F) (e : Expr F) (ws ts : List (Token F))
      → not (is_expr_tok t.type) ≡ false
      → length ts ≤ length ws
      → ((f : ℕ)
          → 3 * length ws + 1 < suc f
          → nud fl (l fl eof es k pr) (suc f) t (here fl eof es k pr ws)
            ≡ (done e, here fl eof es k pr ts))
      → Reads c e (t ∷ ws) ts
  nud-Reads c t e ws ts i j h r g f m =
      spend_two (3 * length ws + 2)
        (λ f. expr fl (l fl eof es k pr) f c (here fl eof es k pr (t ∷ ws)) ≡ r)
        (λ f m.
          expr-nud fl eof es k pr (suc f) c t e ws ts r i (h f (omega arith))
            (g (suc f) (omega arith)))
        f (omega arith)

  -- An expression that ends, as `Expr` sees it.
  Reads-expr :
      (c f : ℕ) (e : Expr F) (ws ts : List (Token F))
      → Reads c e ws ts
      → Halts c (head eof ts).type
      → 3 * length ws < f
      → expr fl (l fl eof es k pr) f c (here fl eof es k pr ws) ≡ (done e, here fl eof es k pr ts)
  Reads-expr c f e ws ts h i m =
      h (done e, here fl eof es k pr ts) (λ f j. loop-Halts fl eof es k pr f c e ts i (omega arith))
        f m

  -- An operator with its operands.
  bin-Reads :
      (c : ℕ) (o : Op2) (x y : Expr F) (us ws ts : List (Token F))
      → ltb (prec o) c ≡ false
      → length ts ≤ length ws
      → Halts (suc (prec o)) (head eof ts).type
      → Reads c x us (sign fl (op2_tok o) ∷ ws)
      → Reads (suc (prec o)) y ws ts
      → Reads c (binary (op2_tok o) x y) us ts
  bin-Reads c o x y us ws ts i j e h h' r g f m =
      h r
        (spend (3 * suc (length ws) + 1)
          (λ f.
            loop fl (l fl eof es k pr) f c x (here fl eof es k pr (sign fl (op2_tok o) ∷ ws)) ≡ r)
          (λ f m.
            loop-op fl eof es k pr f c o x y ws ts r i
              (Reads-expr (suc (prec o)) f y ws ts h' e (omega arith)) (g f (omega arith))))
        f m

  -- What is written in parentheses.
  paren-Reads :
      (c : ℕ) (e : Expr F) (ws ts : List (Token F))
      → length ts < length ws
      → Reads 1 e ws (sign fl tok_rpar ∷ ts)
      → Reads c e (sign fl tok_lpar ∷ ws) ts
  paren-Reads c e ws ts j h = nud-Reads c (sign fl tok_lpar) e ws ts refl (omega arith) (λ f m.
      nud-paren fl eof es k pr f e ws ts
        (Reads-expr 1 f e ws (sign fl tok_rpar ∷ ts) h closes (omega arith)))

  un-Reads :
      (c d : ℕ) (o : Op1) (x : Expr F) (ws ts : List (Token F))
      → length ts ≤ length ws
      → Halts d (head eof ts).type
      → Reads (suc (prec1 o)) x ws ts
      → Reads c (unary (op1_tok o) x) (sign fl (op1_tok o) ∷ ws) ts
  un-Reads c d o x ws ts j i h =
      nud-Reads c (sign fl (op1_tok o)) (unary (op1_tok o) x) ws ts (op1-is_expr o) j (λ f m.
        nud-un fl eof es k pr f o x ws ts
          (Reads-expr (suc (prec1 o)) f x ws ts h (Halts-un d o (head eof ts).type i) (omega arith))
          (Halts-not_lpar d (head eof ts).type i))

  name-Reads :
      (c : ℕ) (n : String) (ts : List (Token F))
      → is_known (get_sym n es) ≡ true
      → same_tok (head eof ts).type tok_lpar ≡ false
      → Reads c (denoted (get_sym n es) n) (id_tok fl n ∷ ts) ts
  name-Reads c n ts s i =
      nud-Reads c (id_tok fl n) (denoted (get_sym n es) n) ts ts refl (omega arith) (λ f m.
        nud-known fl eof es k pr f n ts s
        ∙ nud_end-other fl eof es k pr (func_args fl (l fl eof es k pr) f) (id_tok fl n)
            (denoted (get_sym n es) n) ts i)

  app-Reads :
      (c : ℕ) (n : String) (xs : Args F) (ws ts : List (Token F))
      → is_function (get_sym n es) ≡ true
      → length ts ≤ length ws
      → ReadsArgs xs ws (sign fl tok_rpar ∷ ts)
      → Reads c (add_args (denoted (get_sym n es) n) xs) (id_tok fl n ∷ sign fl tok_lpar ∷ ws) ts
  app-Reads c n xs ws ts s j h =
      let (sym, e) = denoted-function (get_sym n es) n s in
      nud-Reads c (id_tok fl n) (add_args (denoted (get_sym n es) n) xs) (sign fl tok_lpar ∷ ws) ts
        refl (omega arith)
        (λ f m.
          nud-known fl eof es k pr f n (sign fl tok_lpar ∷ ws) (known-function (get_sym n es) s)
          ∙ called fl eof es k pr (func_args fl (l fl eof es k pr) f) n (denoted (get_sym n es) n)
              sym xs ws ts e (h f (omega arith)))

  -- The arguments of a call, behind its opening parenthesis.
  nothing-Reads :
      (ts : List (Token F)) → ReadsArgs no_args (sign fl tok_rpar ∷ ts) (sign fl tok_rpar ∷ ts)
  unfolding func_args args_of peek pure when ◌>>=◌
  nothing-Reads ts =
      spend _
        (λ f.
          func_args fl (l fl eof es k pr) f (here fl eof es k pr (sign fl tok_rpar ∷ ts))
          ≡ (done no_args, here fl eof es k pr (sign fl tok_rpar ∷ ts)))
        (λ f m. refl)

  last-Reads :
      (x : Expr F) (ws ts : List (Token F))
      → Starts eof ws
      → Reads 0 x ws (sign fl tok_rpar ∷ ts)
      → ReadsArgs (arg x no_args) ws (sign fl tok_rpar ∷ ts)
  last-Reads x ws ts s h =
      spend _
        (λ f.
          func_args fl (l fl eof es k pr) f (here fl eof es k pr ws)
          ≡ (done (arg x no_args), here fl eof es k pr (sign fl tok_rpar ∷ ts)))
        (λ f m.
          args-last fl eof es k pr f x ws ts s
            (Reads-expr 0 f x ws (sign fl tok_rpar ∷ ts) h closes (omega arith)))

  before-Reads :
      (x : Expr F) (xs : Args F) (us ws ts : List (Token F))
      → Starts eof us
      → length ws < length us
      → Reads 0 x us (sign fl tok_comma ∷ ws)
      → ReadsArgs xs ws ts
      → ReadsArgs (arg x xs) us ts
  before-Reads x xs us ws ts s j h h' =
      spend _
        (λ f.
          func_args fl (l fl eof es k pr) f (here fl eof es k pr us)
          ≡ (done (arg x xs), here fl eof es k pr ts))
        (λ f m.
          args-before fl eof es k pr f x xs us ws ts s
            (Reads-expr 0 f x us (sign fl tok_comma ∷ ws) h (ends tok_comma refl) (omega arith))
            (h' f (omega arith)))

  -- By the way a binary term is written.
  choice :
      (A : List (Token F) → Type 0) (t : Bool) (u v : List (Token F))
      → (t ≡ true → A u)
      → (t ≡ false → A v)
      → A (if t then u else v)
  choice A true u v h h' = h refl
  choice A false u v h h' = h' refl

  mutual
    unfolding written

    written-length :
        (b : ℕ) (x : Term F) (ts : List (Token F)) → length ts < length (written fl b x ts)
    written-length b (lit x) ts = omega arith
    written-length b (name n) ts = omega arith
    written-length b (app n xs) ts = omega (arith, args-length xs (sign fl tok_rpar ∷ ts))
    written-length b (un o x) ts = omega (arith, written-length (suc (prec1 o)) x ts)
    written-length b (bin o x y) ts =
        choice (λ ws. length ts < length ws) (ltb (prec o) b) _ _
          (λ _. omega (
            arith,
            written-length (prec o) x
                (sign fl (op2_tok o) ∷ written fl (suc (prec o)) y (sign fl tok_rpar ∷ ts)),
            written-length (suc (prec o)) y (sign fl tok_rpar ∷ ts),
          ))
          (λ _. omega (
            arith,
            written-length (prec o) x (sign fl (op2_tok o) ∷ written fl (suc (prec o)) y ts),
            written-length (suc (prec o)) y ts,
          ))

    args-length : (xs : Terms F) (ts : List (Token F)) → length ts ≤ length (args_written fl xs ts)
    args-length nothing ts = omega arith
    args-length (last x) ts = omega (arith, written-length 0 x ts)
    args-length (before x xs) ts =
        omega
          (arith, written-length 0 x (sign fl tok_comma ∷ args_written fl xs ts), args-length xs ts)

  written-Starts : (b : ℕ) (x : Term F) (ts : List (Token F)) → Starts eof (written fl b x ts)
  unfolding written
  written-Starts b (lit (float x)) ts = refl
  written-Starts b (lit (int x)) ts = refl
  written-Starts b (lit (str x)) ts = refl
  written-Starts b (lit (bool x)) ts = refl
  written-Starts b (name n) ts = refl
  written-Starts b (app n xs) ts = refl
  written-Starts b (un plus x) ts = refl
  written-Starts b (un _ x) ts = refl
  written-Starts b (bin o x y) ts =
      choice (Starts eof) (ltb (prec o) b) _ _ (λ _. refl)
        (λ _. written-Starts (prec o) x (sign fl (op2_tok o) ∷ written fl (suc (prec o)) y ts))

  lit_tok-is_expr : (x : Lit F) → not (is_expr_tok (lit_tok fl x).type) ≡ false
  lit_tok-is_expr (float x) = refl
  lit_tok-is_expr _ = refl

  ltb-false : (a b : ℕ) → b ≤ a → ltb a b ≡ false
  ltb-false a b h = ground arith

  ltb-le : (a b : ℕ) → ltb a b ≡ false → b ≤ a
  ltb-le a b h = ground arith

  mutual
    unfolding written meant InScope

    term-Reads :
        (x : Term F)
        → InScope fl es x
        → (b c : ℕ) → c ≤ b
        → (ts : List (Token F)) → Halts (suc b) (head eof ts).type
        → Reads c (meant fl es x) (written fl b x ts) ts
    term-Reads (lit x) s b c i ts h =
        nud-Reads c (lit_tok fl x) (literal (lit_val fl es x)) ts ts (lit_tok-is_expr x)
          (omega arith)
          (λ f m. nud-lit fl eof es k pr f x ts (Halts-not_lpar (suc b) (head eof ts).type h))
    term-Reads (name n) s b c i ts h =
        name-Reads c n ts s (Halts-not_lpar (suc b) (head eof ts).type h)
    term-Reads (app n xs) s b c i ts h =
        app-Reads c n (all_meant fl es xs) (args_written fl xs (sign fl tok_rpar ∷ ts)) ts s.0
          (omega (arith, args-length xs (sign fl tok_rpar ∷ ts))) (args-Reads xs s.1 ts)
    term-Reads (un o x) s b c i ts h =
        un-Reads c (suc b) o (meant fl es x) (written fl (suc (prec1 o)) x ts) ts
          (omega (arith, written-length (suc (prec1 o)) x ts)) h
          (term-Reads x s (suc (prec1 o)) (suc (prec1 o)) (omega arith) ts (
            Halts-le (suc (prec1 o)) (suc (suc (prec1 o))) (head eof ts).type (omega arith)
              (Halts-un (suc b) o (head eof ts).type h)))
    term-Reads (bin o x y) s b c i ts h =
        let inner : (c : ℕ)
            → c ≤ prec o
            → (ts : List (Token F)) → Halts (suc (prec o)) (head eof ts).type
            → Reads c (binary (op2_tok o) (meant fl es x) (meant fl es y))
                (written fl (prec o) x (sign fl (op2_tok o) ∷ written fl (suc (prec o)) y ts)) ts =
          λ c i ts h.
            bin-Reads c o (meant fl es x) (meant fl es y) _ (written fl (suc (prec o)) y ts) ts
              (ltb-false (prec o) c i) (omega (arith, written-length (suc (prec o)) y ts)) h
              (term-Reads x s.0 (prec o) c i (sign fl (op2_tok o) ∷ written fl (suc (prec o)) y ts)
                (weaker o (omega arith)))
              (term-Reads y s.1 (suc (prec o)) (suc (prec o)) (omega arith) ts (
                Halts-le (suc (prec o)) (suc (suc (prec o))) (head eof ts).type (omega arith) h)) in
        choice (λ ws. Reads c (meant fl es (bin o x y)) ws ts) (ltb (prec o) b) _ _
          (λ e.
            paren-Reads c (meant fl es (bin o x y)) _ ts
              (omega (
                arith,
                written-length (prec o) x
                    (sign fl (op2_tok o) ∷ written fl (suc (prec o)) y (sign fl tok_rpar ∷ ts)),
                written-length (suc (prec o)) y (sign fl tok_rpar ∷ ts),
              ))
              (inner 1 (prec_bounds o).0 (sign fl tok_rpar ∷ ts) closes))
          (λ e.
            let j : b ≤ prec o = ltb-le (prec o) b e in
            inner c (omega arith) ts
              (Halts-le (suc b) (suc (prec o)) (head eof ts).type (omega arith) h))

    args-Reads :
        (xs : Terms F)
        → AllInScope fl es xs
        → (ts : List (Token F))
        → ReadsArgs
            (all_meant fl es xs)
            (args_written fl xs (sign fl tok_rpar ∷ ts))
            (sign fl tok_rpar ∷ ts)
    args-Reads nothing s ts = nothing-Reads ts
    args-Reads (last x) s ts =
        last-Reads (meant fl es x) _ ts (written-Starts 0 x (sign fl tok_rpar ∷ ts))
          (term-Reads x s 0 0 (omega arith) (sign fl tok_rpar ∷ ts) closes)
    args-Reads (before x xs) s ts =
        let ws = args_written fl xs (sign fl tok_rpar ∷ ts) in
        before-Reads (meant fl es x) (all_meant fl es xs) _ ws _
          (written-Starts 0 x (sign fl tok_comma ∷ ws))
          (omega (arith, written-length 0 x (sign fl tok_comma ∷ ws)))
          (term-Reads x s.0 0 0 (omega arith) (sign fl tok_comma ∷ ws) (ends tok_comma refl))
          (args-Reads xs s.1 ts)

  -- A term whose names are declared, written with no more parentheses than the binding powers ask for, is
  -- parsed as the expression that it means, with what stands behind it left, where that does not go on
  -- with the term, and with fuel of three units for each token and one more: the operators bind in the
  -- order of the grammar, in which, unlike in C, | binds more than ^, and ^ more than &; they associate
  -- to the left, and no error is counted.
  pub expr-written :
      (x : Term F) (b : ℕ) (ts : List (Token F)) (f : ℕ)
      → InScope fl es x
      → Halts b (head eof ts).type
      → 3 * length (written fl b x ts) < f
      → expr fl (list_peeker eof) f b (at fl eof es k pr (written fl b x ts))
        ≡ (done (meant fl es x), at fl eof es k pr ts)
  expr-written x b ts f s h m =
      Reads-expr b f (meant fl es x) (written fl b x ts) ts
        (term-Reads x s b b (omega arith) ts
          (Halts-le b (suc b) (head eof ts).type (omega arith) h))
        h m
