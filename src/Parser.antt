-- ===== src/Parser.antt =====
-- parser/desc.go: the state of the parser, how its functions end, `match`, and `Errorf`.
pub mod Tables
pub mod Tree
pub mod Pratt
mod Tests
pub mod Sized
pub mod Sync
pub mod Rules
pub mod Decls
pub mod Sections
pub mod Balanced
pub mod Source
pub mod Grammar
use rips.Prelude.{
  ℕ, ◌+◌, Bool, true, false, if◌then◌else◌, leb, String, Option, none, some, List, [], ◌∷◌,
}
use rips.Lex.Token.{TokType, same_tok}
use rips.Lex.Reader.{Token}
use rips.Tree.Env.{StkEnv}
use rips.Parser.Tree.{Prog}

-- `LexPeeker`, on a lexer with states `S`. A `Peek` that fails gives none. The token that `skip` takes
-- was peeked.
pub record LexPeeker (F S : Type 0) : Type 0 where
  pub look : S → Option (Token F) × S
  pub skip : S → S
  pub while_not : List TokType → S → Option (Token F) × S

-- `Parser`, but for what is there for debugging.
pub record Parser (F S : Type 0) : Type 0 where
  pub source : S
  pub n_err : ℕ
  pub envs : StkEnv F
  pub prog : Prog F

-- The errors, without their texts.
pub data ParseErr : Type 0 where
  lex_error bad_expression no_operator not_unary no_operand cannot_call : ParseErr
  missing_rpar unmatched_paren : ParseErr
  no_action unexpected_eof : ParseErr
  at_parameter in_list : ParseErr → ParseErr

-- How a function of the parser ends: with a value, with an error that it returns, with the panic of
-- too many errors, with another panic, or for want of fuel.
pub data Parsed (A : Type 0) : Type 0 where
  done : A → Parsed A
  failed : ParseErr → Parsed A
  too_many : Parsed A
  crashed : Parsed A
  stuck : Parsed A

abbrev pub P : Type 0 → Type 0 → Type 0 → Type 0
P F S A = Parser F S → Parsed A × Parser F S

-- The parser stops at this number of errors.
abbrev pub max_errors : ℕ
max_errors = 10

module _ {F S : Type 0} where
  unfoldable pub pure : {A : Type 0} → A → P F S A
  pure a p = (done a, p)

  unfoldable pub fail : {A : Type 0} → ParseErr → P F S A
  fail e p = (failed e, p)

  abbrev pub and_then :
      {A B : Type 0} → Parsed A × Parser F S → (A → P F S B) → Parsed B × Parser F S
  and_then (done a, p) f = f a p
  and_then (failed e, p) f = (failed e, p)
  and_then (too_many, p) f = (too_many, p)
  and_then (crashed, p) f = (crashed, p)
  and_then (stuck, p) f = (stuck, p)

  infixl 5 ◌>>=◌ ◌>>◌
  unfoldable pub ◌>>=◌ : {A B : Type 0} → P F S A → (A → P F S B) → P F S B
  ◌>>=◌ m f p = and_then (m p) f

  abbrev pub ◌>>◌ : {A B : Type 0} → P F S A → P F S B → P F S B
  m >> k = m >>= λ _. k

  unfoldable pub when : {A : Type 0} → Bool → P F S A → P F S A → P F S A
  when b m k p = if b then m p else k p

  -- An error of `m` under another name.
  abbrev pub renamed :
      {A : Type 0} → (ParseErr → ParseErr) → Parsed A × Parser F S → Parsed A × Parser F S
  renamed g (done a, p) = (done a, p)
  renamed g (failed e, p) = (failed (g e), p)
  renamed g (too_many, p) = (too_many, p)
  renamed g (crashed, p) = (crashed, p)
  renamed g (stuck, p) = (stuck, p)

  unfoldable pub rename : {A : Type 0} → (ParseErr → ParseErr) → P F S A → P F S A
  rename g m p = renamed g (m p)

  -- `Errorf`: the message is counted.
  unfoldable pub errorf : P F S (Unit {0})
  errorf p =
      let p' = record p { n_err = p.n_err + 1 } in
      if leb max_errors (p.n_err + 1) then (too_many, p') else (done tt, p')

  module _ (l : LexPeeker F S) where
    abbrev pub looked : Option (Token F) × S → Parser F S → Parsed (Token F) × Parser F S
    looked (none, s) p = (failed lex_error, record p { source = s })
    looked (some t, s) p = (done t, record p { source = s })

    unfoldable pub peek : P F S (Token F)
    peek p = looked (l.look p.source) p

    unfoldable pub skip : P F S (Unit {0})
    skip p = (done tt, record p { source = l.skip p.source })

    -- `match`: whether the next token is of the type, and that it is taken then.
    unfoldable pub match_tok : TokType → P F S (Option (Token F))
    match_tok tt =
        peek >>= λ tok. when (same_tok tok.type tt) (do skip; pure (some tok)) (pure none)
