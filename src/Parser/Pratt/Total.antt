-- ===== src/Parser/Pratt/Total.antt =====
-- parser/pratt.go: the parser of expressions comes to an end, on every lexer that runs out of tokens.
use rips.Prelude.{
  ℕ, zero, suc, ◌+◌, ◌*◌, ◌≤◌, ◌<◌, ◌≡◌, refl, ap, ◌⊎◌, inl, inr, [], ◌∷◌, arith, Bool, true, false,
  not, ◌||◌, String, Option, none, some,
}
use rips.Lex.Token.{TokType, tok_lpar, tok_rpar, tok_comma, tok_id}
use rips.Lex.Reader.{Token}
use rips.Tree.Sym.{Floats, s_none}
use rips.Tree.Env.{Symbol, StkEnv, Made, made, refused, no_env, get_sym, new_sym}
use rips.Parser.{LexPeeker, Parser, P, Parsed, done, failed, too_many, crashed, stuck, pure, fail}
use rips.Parser.Balanced.{Lands}
use rips.Parser.Balanced.Exprs.{expr-Moves}
use rips.Parser.Sized.{
  Sized, Ends, Runs, pure-Runs, fail-Runs, bind-Runs, when-Runs, weaken-Runs, rename-Runs,
  errorf-Runs, peek-Runs, match_tok-Runs, skip-Ends, when-Ends, none-Runs,
}
use rips.Parser.Tree.{Expr, Args, ident, no_args, arg, count}
use rips.Parser.Tables.{is_expr_tok}
use rips.Parser.Pratt.{
  declared, declare_none, named, name_val, expr_val, set_expr_val, as_fcall, nud_end, nud_of,
  led_of, round_of, start_of, args_of, nud, expr, loop, func_args,
}

clash : (b : Bool) → b ≡ false → not b ≡ false → ⊥
clash true e e' = cc
clash false e e' = cc

or_clash : (b c : Bool) → b ≡ false → (c || not b) ≡ false → ⊥
or_clash true c e e' = cc
or_clash false true e e' = cc
or_clash false false e e' = cc

clash_or : (b c : Bool) → b ≡ false → (not b || c) ≡ false → ⊥
clash_or true c e e' = cc
clash_or false c e e' = cc

module _ {F S : Type 0} (fl : Floats F) {l : LexPeeker F S} (z : Sized l) where
  declared-Ends :
      (b : ℕ) (m : Made F) (p : Parser F S) → z.size p.source < b → Ends z b (declared m p)
  declared-Ends b (made s es) p j = j
  declared-Ends b refused p j = j
  declared-Ends b no_env p j = tt

  declare_none-Runs : (b : ℕ) (n : String) → Runs z b b (declare_none fl l n)
  unfolding declare_none
  declare_none-Runs b n = record { runs = λ p j. declared-Ends b (new_sym n s_none p.envs) p j }

  named-Runs : (b : ℕ) (o : Option (Symbol F)) (n : String) → Runs z b b (named fl l o n)
  named-Runs b (some s) n = pure-Runs z b _
  named-Runs b none n =
      bind-Runs z b b b (errorf-Runs z b)
        (λ _. bind-Runs z b b b (declare_none-Runs b n) (λ _. pure-Runs z b _))

  expr_val-Runs : (b : ℕ) (ty : TokType) (t : Token F) → Runs z b b (expr_val fl l ty t)
  unfolding name_val
  expr_val-Runs b tok_id t = record {
    runs = λ p j. (named-Runs b (get_sym t.lexema p.envs) t.lexema).runs p j;
  }
  expr_val-Runs b _ t = pure-Runs z b _

  set_expr_val-Runs : (b : ℕ) (t : Token F) → Runs z b b (set_expr_val fl l t)
  unfolding set_expr_val
  set_expr_val-Runs b t = expr_val-Runs b t.type t

  as_fcall-Runs : (b : ℕ) (e : Expr F) → Runs z b b (as_fcall fl l e)
  as_fcall-Runs b (ident s) = record { runs = λ p j. j }
  as_fcall-Runs b _ = pure-Runs z b _

  nud_end-Runs :
      (b : ℕ) (args : P F S (Args F)) (tok : Token F) (e : Expr F)
      → Runs z b b args
      → Runs z b b (nud_end fl l args tok e)
  unfolding nud_end
  nud_end-Runs b args tok e h = bind-Runs z b b b (match_tok-Runs z b tok_lpar) (λ o.
      when-Runs z b b _ (λ _. fail-Runs z b b _)
        (λ _.
          when-Runs z b b _ (λ _. pure-Runs z b _)
            (λ _. bind-Runs z b b b (as_fcall-Runs b e) (λ e'. bind-Runs z b b b h (λ xs.
              bind-Runs z b b b (match_tok-Runs z b tok_rpar)
                (λ c. when-Runs z b b _ (λ _. pure-Runs z b _) (λ _. fail-Runs z b b _)))))))

  nud_of-Runs :
      (b : ℕ) (sub : ℕ → P F S (Expr F)) (args : P F S (Args F)) (tok : Token F)
      → ((rbp : ℕ) → Runs z b b (sub rbp))
      → Runs z b b args
      → Runs z b b (nud_of fl l sub args tok)
  unfolding nud_of
  nud_of-Runs b sub args tok h h' =
      when-Runs z b b _
        (λ _. bind-Runs z b b b (h 1) (λ e.
          bind-Runs z b b b (match_tok-Runs z b tok_rpar)
            (λ c. when-Runs z b b _ (λ _. pure-Runs z b _) (λ _. fail-Runs z b b _))))
        (λ _. bind-Runs z b b b (set_expr_val-Runs b tok) (λ e.
          when-Runs z b b _ (λ _. nud_end-Runs b args tok e h')
            (λ _.
              when-Runs z b b _ (λ _. fail-Runs z b b _)
                (λ _.
                  bind-Runs z b b b (rename-Runs z b b _ (h _))
                    (λ right. nud_end-Runs b args tok _ h')))))

  led_of-Runs :
      (b c : ℕ) (sub : ℕ → P F S (Expr F)) (left : Expr F) (tok : Token F)
      → ((rbp : ℕ) → Runs z b c (sub rbp))
      → Runs z b c (led_of fl l sub left tok)
  unfolding led_of
  led_of-Runs b c sub left tok h = bind-Runs z b c c (h _) (λ right. pure-Runs z c _)

  start_of-Runs :
      (b : ℕ) (more : Token F → P F S (Expr F))
      → ((t : Token F) → Runs z b b (more t))
      → Runs z (suc b) b (start_of fl l more)
  unfolding start_of fail
  start_of-Runs b more h =
      peek-Runs z b b _
        (λ t e.
          when-Runs z (suc b) b _ (λ _. fail-Runs z (suc b) b _)
            (λ e'. absurd (clash (is_expr_tok t.type) e e')))
        (λ t e p i i'. when-Ends z b _ _ _ p (λ _. tt) (λ _. skip-Ends z b b (more t) p i' (h t)))

  round_of-Runs :
      (b rbp : ℕ) (more : Token F → P F S (Expr F)) (left : Expr F)
      → ((t : Token F) → Runs z b (suc b) (more t))
      → Runs z (suc b) (suc b) (round_of fl l more rbp left)
  unfolding round_of pure fail
  round_of-Runs b rbp more left h =
      peek-Runs z b (suc b) _
        (λ t e.
          when-Runs z (suc b) (suc b) _ (λ _. pure-Runs z (suc b) left)
            (λ e'. absurd (clash_or (is_expr_tok t.type) _ e e')))
        (λ t e p i i'.
          when-Ends z (suc b) _ _ _ p (λ _. i)
            (λ _.
              when-Ends z (suc b) _ _ _ p (λ _. tt)
                (λ _.
                  when-Ends z (suc b) _ _ _ p (λ _. i)
                    (λ _. skip-Ends z b (suc b) (more t) p i' (h t)))))

  args_of-Runs :
      (b : ℕ) (param : P F S (Expr F)) (more : P F S (Args F))
      → Runs z (suc b) b param
      → Runs z b b more
      → Runs z (suc b) (suc b) (args_of fl l param more)
  unfolding args_of pure
  args_of-Runs b param more h h' =
      let give : (xs : Args F) → Runs z b (suc b) (pure xs) =
        λ xs. weaken-Runs z b b (suc b) (omega arith) (pure-Runs z b xs) in
      peek-Runs z b (suc b) _
        (λ t e.
          when-Runs z (suc b) (suc b) _ (λ _. pure-Runs z (suc b) no_args)
            (λ e'. absurd (or_clash (is_expr_tok t.type) _ e e')))
        (λ t e p i i'.
          when-Ends z (suc b) _ _ _ p (λ _. i)
            (λ _.
              (bind-Runs z (suc b) b (suc b) (rename-Runs z (suc b) b _ h) (λ x.
                  bind-Runs z b b (suc b) (rename-Runs z b b _ (match_tok-Runs z b tok_comma)) (λ c.
                    when-Runs z b (suc b) _ (λ _. give (arg x no_args))
                      (λ _. bind-Runs z b b (suc b) h' (λ xs. give (arg x xs)))))).runs
                p i))

  -- What is enough fuel, for a bound on what is left.
  abbrev NudEnds : ℕ → Type 0
  NudEnds f = (b : ℕ) → 3 * b ≤ f → (tok : Token F) → Runs z b b (nud fl l f tok)

  abbrev ExprEnds : ℕ → Type 0
  ExprEnds f = (b : ℕ) → 3 * b + 1 ≤ f → (rbp : ℕ) → Runs z (suc b) b (expr fl l f rbp)

  abbrev LoopEnds : ℕ → Type 0
  LoopEnds f =
      (b : ℕ) → 3 * b ≤ f + 1 → (rbp : ℕ) (left : Expr F) → Runs z b b (loop fl l f rbp left)

  abbrev ArgsEnds : ℕ → Type 0
  ArgsEnds f = (b : ℕ) → 3 * b ≤ f + 1 → Runs z b b (func_args fl l f)

  nud_step : (f : ℕ) → ExprEnds f → ArgsEnds f → NudEnds (suc f)
  unfolding nud
  nud_step f h h' zero i tok = none-Runs z 0 _
  nud_step f h h' (suc b) i tok = record {
    runs =
        (nud_of-Runs (suc b) (expr fl l f) (func_args fl l f) tok
          (λ rbp. weaken-Runs z (suc b) b (suc b) (omega arith) (h b (omega arith) rbp))
          (h' (suc b) (omega arith))).runs;
  }

  expr_step : (f : ℕ) → NudEnds f → LoopEnds f → ExprEnds (suc f)
  unfolding expr
  expr_step f h h' b i rbp = record {
    runs =
        (start_of-Runs b _
          (λ tok. bind-Runs z b b b (h b (omega arith) tok) (λ e. h' b (omega arith) rbp e))).runs;
  }

  loop_step : (f : ℕ) → ExprEnds f → LoopEnds f → LoopEnds (suc f)
  unfolding loop
  loop_step f h h' zero i rbp left = none-Runs z 0 _
  loop_step f h h' (suc zero) i rbp left = record {
    runs = (round_of-Runs 0 rbp _ left (λ tok. none-Runs z 1 _)).runs;
  }
  loop_step f h h' (suc (suc b)) i rbp left = record {
    runs =
        (round_of-Runs (suc b) rbp _ left (λ tok.
          bind-Runs z (suc b) b (suc (suc b))
            (led_of-Runs (suc b) b (expr fl l f) left tok (h b (omega arith)))
            (λ e. weaken-Runs z b b (suc (suc b)) (omega arith) (h' b (omega arith) rbp e)))).runs;
  }

  args_step : (f : ℕ) → ExprEnds f → ArgsEnds f → ArgsEnds (suc f)
  unfolding func_args
  args_step f h h' zero i = none-Runs z 0 _
  args_step f h h' (suc b) i = record {
    runs =
        (args_of-Runs b (expr fl l f 0) (func_args fl l f) (h b (omega arith) 0)
          (h' b (omega arith))).runs;
  }

  -- Enough fuel for a bound of 0, where there is nothing to do.
  spent : {A : Type 0} (b : ℕ) (m : P F S A) → 3 * b ≤ 1 → Runs z b b m
  spent zero m i = none-Runs z 0 m
  spent (suc b) m i = absurd (omega arith)

  all_end : (f : ℕ) → NudEnds f × ExprEnds f × LoopEnds f × ArgsEnds f
  all_end zero = (
    λ b i tok. spent b _ (omega arith),
    λ b i rbp. absurd (omega arith),
    λ b i rbp left. spent b _ i,
    λ b i. spent b _ i,
  )
  all_end (suc f) =
      let (n, e, o, a) = all_end f in
      (nud_step f e a, expr_step f n o, loop_step f e o, args_step f e a)

  enough-Ends :
      (rbp : ℕ) (p : Parser F S)
      → Ends z (z.size p.source) (expr fl l (3 * z.size p.source + 1) rbp p)
  enough-Ends rbp p =
      ((all_end (3 * z.size p.source + 1)).1 (z.size p.source) (omega arith) rbp).runs p
        (omega arith)

  -- An end from the environments `es`: a value leaves less than the bound, a panic other than that of too
  -- many errors has no environment to declare a name in, and there is fuel.
  abbrev pub EndsOn : {A : Type 0} → StkEnv F → ℕ → Parsed A × Parser F S → Type 0
  EndsOn es c (done a, p) = z.size p.source < c
  EndsOn es c (failed e, p) = Unit {0}
  EndsOn es c (too_many, p) = Unit {0}
  EndsOn es c (crashed, p) = es ≡ []
  EndsOn es c (stuck, p) = ⊥

  on_envs :
      {A : Type 0} (es : StkEnv F) (b c : ℕ) (r : Parsed A × Parser F S)
      → Ends z c r
      → (es ≡ []) ⊎ Lands b b r
      → EndsOn es c r
  on_envs es b c (done a, p) h i = h
  on_envs es b c (failed e, p) h i = tt
  on_envs es b c (too_many, p) h i = tt
  on_envs es b c (crashed, p) h (inl i) = i
  on_envs es b c (crashed, p) h (inr i) = absurd i
  on_envs es b c (stuck, p) h i = h

  kept_envs :
      (f rbp : ℕ) (p : Parser F S) (es : StkEnv F)
      → p.envs ≡ es
      → (es ≡ []) ⊎ Lands (count es) (count es) (expr fl l f rbp p)
  kept_envs f rbp p [] e = inl refl
  kept_envs f rbp p (x ∷ es) e = inr ((expr-Moves fl l f (count es) rbp).moves p (ap count e))

  -- `Expr` ends, on every lexer that runs out of tokens, with any binding power and in any environments:
  -- with an expression and fewer tokens left than before, with an error, with the panic of too many
  -- errors, or, only if there is no environment at all, with another panic. Fuel of three units for each
  -- token that is left and one more is enough.
  pub expr-Ends :
      (rbp : ℕ) (p : Parser F S)
      → EndsOn p.envs (z.size p.source) (expr fl l (3 * z.size p.source + 1) rbp p)
  expr-Ends rbp p =
      on_envs p.envs (count p.envs) (z.size p.source) _ (enough-Ends rbp p)
        (kept_envs (3 * z.size p.source + 1) rbp p p.envs refl)
