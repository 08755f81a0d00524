-- ===== src/Parser/Balanced/Exprs.antt =====
-- parser/pratt.go: the parser of expressions keeps the number of environments.
use rips.Prelude.{ℕ, zero, suc, ◌≡◌, refl, ◌∙◌, Bool, String, Option, none, some, [], ◌∷◌}
use rips.Lex.Token.{TokType, tok_lpar, tok_rpar, tok_comma, tok_id}
use rips.Lex.Reader.{Token}
use rips.Tree.Sym.{s_none, Floats}
use rips.Tree.Env.{Symbol, StkEnv, Made, made, refused, no_env, find, get_sym, new_sym}
use mathlib.Core.Path.{subst}
use rips.Parser.{LexPeeker, Parser, P}
use rips.Parser.Tree.{Expr, Args, ident, count}
use rips.Parser.Balanced.Envs.{Grown, new_sym-Grown, if-count}
use rips.Parser.Balanced.{
  Lands, Moves, pure-Moves, fail-Moves, ◌▷◌, when-Moves, rename-Moves, errorf-Moves, peek-Moves,
  skip-Moves, match_tok-Moves,
}
use rips.Parser.Pratt.{
  retyped, retyped_in, is_none, declared, declare_none, named, name_val, expr_val, set_expr_val,
  as_fcall, nud_end, nud_after, nud_of, led_of, round_of, start_of, args_of, nud, expr, loop,
  func_args,
}

module _ {F S : Type 0} (fl : Floats F) (l : LexPeeker F S) where
  pub declared-Lands :
      {a : ℕ} (e : ℕ) (m : Made F) (p : Parser F S)
      → count p.envs ≡ suc a
      → Grown (count p.envs) m
      → Lands (suc a) e (declared m p)
  declared-Lands e (made s es) p j g = g ∙ j
  declared-Lands e refused p j g = j
  declared-Lands e no_env p j g = subst (λ n. Grown {F = F} n no_env) j g

  declare_none-Moves : {a e : ℕ} (n : String) → Moves (suc a) (suc a) e (declare_none fl l n)
  unfolding declare_none
  declare_none-Moves n = record {
    moves = λ p j. declared-Lands _ (new_sym n s_none p.envs) p j (new_sym-Grown n s_none p.envs);
  }

  named-Moves :
      {a e : ℕ} (o : Option (Symbol F)) (n : String) → Moves (suc a) (suc a) e (named fl l o n)
  named-Moves (some s) n = pure-Moves _
  named-Moves none n = errorf-Moves ▷ λ _. declare_none-Moves n ▷ λ _. pure-Moves _

  expr_val-Moves :
      {a e : ℕ} (ty : TokType) (t : Token F) → Moves (suc a) (suc a) e (expr_val fl l ty t)
  unfolding name_val
  expr_val-Moves tok_id t = record {
    moves = λ p j. (named-Moves (get_sym t.lexema p.envs) t.lexema).moves p j;
  }
  expr_val-Moves _ t = pure-Moves _

  retyped-count : (n : String) (es : StkEnv F) → count (retyped fl l n es) ≡ count es
  retyped-count n [] = refl
  retyped-count n (e ∷ es) =
      if-count (is_none fl l (find n e)) e (retyped_in fl l n e) (retyped fl l n es) es
        (retyped-count n es)

  as_fcall-Moves : {a e : ℕ} (x : Expr F) → Moves a a e (as_fcall fl l x)
  as_fcall-Moves (ident s) = record { moves = λ p j. retyped-count s.name p.envs ∙ j }
  as_fcall-Moves _ = pure-Moves _

  nud_after-Moves :
      {a : ℕ} (args : P F S (Args F)) (b : Bool) (x : Expr F) (o : Option (Token F))
      → Moves a a a args
      → Moves a a a (nud_after fl l args b x o)
  nud_after-Moves args b x o h = when-Moves _ (fail-Moves _) (
      when-Moves _ (pure-Moves x) (
        as_fcall-Moves x ▷ λ y.
        h ▷ λ xs. match_tok-Moves l tok_rpar ▷ λ c. when-Moves _ (pure-Moves _) (fail-Moves _)))

  nud_end-Moves :
      {a : ℕ} (args : P F S (Args F)) (tok : Token F) (x : Expr F)
      → Moves a a a args
      → Moves a a a (nud_end fl l args tok x)
  unfolding nud_end
  nud_end-Moves args tok x h = match_tok-Moves l tok_lpar ▷ λ o. nud_after-Moves args _ x o h

  nud_of-Moves :
      {a : ℕ} (sub : ℕ → P F S (Expr F)) (args : P F S (Args F)) (tok : Token F)
      → ((b : ℕ) → Moves (suc a) (suc a) (suc a) (sub b))
      → Moves (suc a) (suc a) (suc a) args
      → Moves (suc a) (suc a) (suc a) (nud_of fl l sub args tok)
  unfolding nud_of set_expr_val
  nud_of-Moves sub args tok h h' =
      when-Moves _
        (h 1 ▷ λ x. match_tok-Moves l tok_rpar ▷ λ c. when-Moves _ (pure-Moves x) (fail-Moves _))
        (expr_val-Moves tok.type tok ▷ λ x.
          when-Moves _ (nud_end-Moves args tok x h')
            (when-Moves _ (fail-Moves _) (rename-Moves _ (h _) ▷ λ y. nud_end-Moves args tok _ h')))

  -- The expressions keep the number of environments, with any fuel.
  abbrev AllKeep : ℕ → Type 0
  AllKeep f =
      ((a : ℕ) (tok : Token F) → Moves (suc a) (suc a) (suc a) (nud fl l f tok))
      × ((a b : ℕ) → Moves (suc a) (suc a) (suc a) (expr fl l f b))
      × ((a b : ℕ) (x : Expr F) → Moves (suc a) (suc a) (suc a) (loop fl l f b x))
      × ((a : ℕ) → Moves (suc a) (suc a) (suc a) (func_args fl l f))

  stuck_keep : AllKeep zero
  unfolding nud
  stuck_keep = (
    λ a tok. record { moves = λ p j. tt },
    λ a b. record { moves = λ p j. tt },
    λ a b x. record { moves = λ p j. tt },
    λ a. record { moves = λ p j. tt },
  )

  keep_step : (f : ℕ) → AllKeep f → AllKeep (suc f)
  unfolding nud start_of round_of led_of args_of
  keep_step f (n, e, o, g) = (
    λ a tok. record {
      moves = (nud_of-Moves (expr fl l f) (func_args fl l f) tok (e a) (g a)).moves;
    },
    λ a b. record {
      moves =
          (peek-Moves l ▷ λ t.
          when-Moves _ (fail-Moves _) (skip-Moves l ▷ λ _. (n a t ▷ λ x. o a b x))).moves;
    },
    λ a b x. record {
      moves =
          (peek-Moves l ▷ λ t. when-Moves _ (pure-Moves x) (
            when-Moves _ (fail-Moves _) (
              when-Moves _ (pure-Moves x)
                (skip-Moves l ▷ λ _. ((e a _ ▷ λ y. pure-Moves _) ▷ λ z. o a b z))))).moves;
    },
    λ a. record {
      moves =
          (peek-Moves l ▷ λ t. when-Moves _ (pure-Moves _) (
            rename-Moves _ (e a 0) ▷ λ x. rename-Moves _ (match_tok-Moves l tok_comma) ▷ λ c.
            when-Moves _ (pure-Moves _) (g a ▷ λ xs. pure-Moves _))).moves;
    },
  )

  all_keep : (f : ℕ) → AllKeep f
  all_keep zero = stuck_keep
  all_keep (suc f) = keep_step f (all_keep f)

  pub expr-Moves : (f a b : ℕ) → Moves (suc a) (suc a) (suc a) (expr fl l f b)
  expr-Moves f = (all_keep f).1
