-- ===== src/Parser/Source.antt =====
-- lex/lex.go as the parser's source: `Lexer` is a `LexPeeker`, and runs out of tokens.
use mathlib.Core.Path.{subst}
use rips.Prelude.{
  ℕ, suc, ◌+◌, ◌-◌, ◌≤◌, ◌≡◌, refl, sym, arith, Bool, true, false, if◌then◌else◌, Option, none,
  some, inl, inr,
}
use rips.Lex.Token.{same_tok, tok_bad}
use rips.Lex.Library.{Library}
use rips.Lex.Reader.{
  runes, Token, Lexer, Res, ok, failed, panicked, stuck, and_then, bad_token, ◌>>=◌, ◌>>◌, pure,
  save,
}
use rips.Lex.Reader.Invariant.{Ends, weaken-Ends}
use rips.Lex.Lexer.{lex, peek, lex_while_not}
use rips.Lex.Lexer.Progress.{count, left, lex-left, lex-Saves}
use rips.Lex.Lexer.Sync.{at_end, runes-zero, zero_or_more}
use rips.Parser.{LexPeeker}
use rips.Parser.Sized.{Sized, Looked}
use rips.Parser.Tables.{is_expr_tok}

module _ {F : Type 0} (lib : Library F) where
  -- What a call gives to the parser: a token, or that there is none.
  abbrev given : Res (Token F) × Lexer F → Option (Token F) × Lexer F
  given (ok t, l) = (some t, l)
  given (failed e, l) = (none, l)
  given (panicked e, l) = (none, l)
  given (stuck, l) = (none, l)

  unfoldable pub lexer_peeker : LexPeeker F (Lexer F)
  lexer_peeker = record {
    look = λ l. given (peek lib l);
    skip = λ l. (lex lib l).1;
    while_not = λ tps l. given (lex_while_not lib tps l);
  }

  -- A token that is saved counts, if it is one of an expression.
  abbrev weight : Option (Token F) → ℕ
  weight none = 0
  weight (some t) = if is_expr_tok t.type then 1 else 0

  abbrev lexer_size : Lexer F → ℕ
  lexer_size l = runes l.rest + weight l.saved

  lexer_skip : Lexer F → Lexer F
  lexer_skip l = (lex lib l).1

  weight_le : (b : Bool) (n : ℕ) → n + (if b then 1 else 0) ≤ n + 1
  weight_le true n = omega arith
  weight_le false n = omega arith

  -- `Peek` where a token is saved.
  saved-look :
      (b : Bool) (t : Token F) (l : Lexer F)
      → Looked lexer_size lexer_skip (lexer_size (record l { saved = some t })) (
          given (
            and_then
              (if b then failed bad_token else ok t, record l { saved = none })
              (λ t. do save (some t); pure t)))
  unfolding save pure ◌>>=◌ lexer_skip lex
  saved-look true t l = omega arith
  saved-look false t l = (
    omega arith,
    λ e.
        subst (λ b. suc (runes l.rest + 0) ≤ runes l.rest + (if b then 1 else 0)) (sym e)
          (omega arith),
  )

  abbrev NotExpr : Res (Token F) → Type 0
  NotExpr (ok t) = is_expr_tok t.type ≡ false
  NotExpr _ = Unit {0}

  token_size :
      (b : Bool) (m n : ℕ)
      → m ≤ n - 1
      → (n ≡ 0 → b ≡ false)
      → (m + (if b then 1 else 0) ≤ n) × (b ≡ true → suc (m + 0) ≤ n)
  token_size true m n h e = elim (zero_or_more n) [
    | inl z ↦ absurd (true_false (e z))
    | inr z ↦ (omega arith, λ _. omega arith)
  ]
    where
      true_false : true ≡ false → ⊥
      true_false p = cc
  token_size false m n h e = (omega arith, λ p. absurd (false_true p))
    where
      false_true : false ≡ true → ⊥
      false_true p = cc

  no_saved : (o : Option (Token F)) (m n : ℕ) → count o ≡ 0 → m + count o ≤ n - 1 → m + weight o ≤ n
  no_saved none m n c h = omega arith
  no_saved (some t) m n c h = absurd (omega arith)

  saved_skip :
      (b : Bool) (l : Lexer F) (t : Token F)
      → runes l.rest + 0 ≤ runes l.rest + (if b then 1 else 0)
  saved_skip true l t = omega arith
  saved_skip false l t = omega arith

  -- `Peek` behind `Lex` with an end `r`, where no token was saved.
  lexed-look :
      (n : ℕ) (r : Res (Token F) × Lexer F)
      → Ends ⊥ (λ l. left l ≤ n - 1) r
      → Ends (Unit {0}) (λ l. count l.saved ≡ 0) r
      → (n ≡ 0 → NotExpr r.0)
      → Looked lexer_size lexer_skip n (given (and_then r (λ t. do save (some t); pure t)))
  unfolding save pure ◌>>=◌ lexer_skip lex
  lexed-look n (ok t, l) h c e = token_size (is_expr_tok t.type) (runes l.rest) n (omega arith) e
  lexed-look n (failed e', l) h c e = no_saved l.saved (runes l.rest) n c (omega arith)
  lexed-look n (panicked e', l) h c e = no_saved l.saved (runes l.rest) n c (omega arith)
  lexed-look n (stuck, l) h c e = absurd h

  lexed_skip :
      (n : ℕ) (r : Res (Token F) × Lexer F)
      → Ends ⊥ (λ l. left l ≤ n - 1) r
      → Ends (Unit {0}) (λ l. count l.saved ≡ 0) r
      → lexer_size r.1 ≤ n
  lexed_skip n (ok t, l) h c = no_saved l.saved (runes l.rest) n c h
  lexed_skip n (failed e, l) h c = no_saved l.saved (runes l.rest) n c h
  lexed_skip n (panicked e, l) h c = no_saved l.saved (runes l.rest) n c h
  lexed_skip n (stuck, l) h c = absurd h

  -- `Peek`, by the token that is saved.
  look_by :
      (o : Option (Token F)) (l : Lexer F)
      → let l' = record l { saved = o } in
        Looked lexer_size lexer_skip (lexer_size l') (given (peek lib l'))
  unfolding peek lex ◌>>=◌ save pure
  look_by (some t) l = saved-look (same_tok t.type tok_bad) t l
  look_by none l =
      let l' = record l { saved = none } in
      lexed-look (lexer_size l') (lex lib l')
        (weaken-Ends ⊥ (λ k. left k ≤ left l' - 1) (λ k. left k ≤ lexer_size l' - 1)
          (λ k j. omega arith) _ (lex-left lib l'))
        (lex-Saves lib l')
        (λ z. subst NotExpr (sym (at_end lib l' (runes-zero l.rest (omega arith)) refl)) refl)

  skip_by :
      (o : Option (Token F)) (l : Lexer F)
      → let l' = record l { saved = o } in lexer_size (lexer_skip l') ≤ lexer_size l'
  unfolding lexer_skip lex ◌>>=◌ save pure
  skip_by (some t) l = saved_skip (is_expr_tok t.type) l t
  skip_by none l =
      let l' = record l { saved = none } in
      lexed_skip (runes l.rest + 0) (lex lib l') (lex-left lib l') (lex-Saves lib l')

  -- The lexer as a source that runs out of tokens.
  pub lexer_sized : Sized lexer_peeker
  unfolding lexer_peeker lexer_skip
  lexer_sized = record {
    size = lexer_size;
    look_size = λ l. look_by l.saved l;
    skip_size = λ l. skip_by l.saved l;
  }
