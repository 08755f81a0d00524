-- ===== src/Parser/Sync.antt =====
-- parser/desc.go: the end of a section, the recovery from errors, and `matchErr`.
use rips.Prelude.{Bool, true, false, Option, none, some, List, [], ◌∷◌, ◌++◌}
use rips.Lex.Token.{
  TokType, same_tok, tok_levels, tok_vars, tok_consts, tok_rules, tok_eof, tok_semi,
}
use rips.Lex.Reader.{Token}
use rips.Parser.{
  LexPeeker, Parser, P, Parsed, done, failed, too_many, crashed, stuck, pure, fail, ◌>>=◌, ◌>>◌,
  when, errorf, peek, skip, match_tok, lex_error,
}

abbrev pub tok_end_sect : List TokType
tok_end_sect = tok_levels ∷ tok_vars ∷ tok_consts ∷ tok_rules ∷ tok_eof ∷ []

abbrev pub ends_section : TokType → Bool
ends_section tok_levels = true
ends_section tok_vars = true
ends_section tok_consts = true
ends_section tok_rules = true
ends_section tok_eof = true
ends_section _ = false

-- Whether there is a token, and of that type.
abbrev pub is_tok : {F : Type 0} → TokType → Option (Token F) → Bool
is_tok tt none = false
is_tok tt (some t) = same_tok t.type tt

module _ {F S : Type 0} where
  -- An error that is returned and tested.
  abbrev pub tried : {A : Type 0} → Parsed A × Parser F S → Parsed (Option A) × Parser F S
  tried (done a, p) = (done (some a), p)
  tried (failed e, p) = (done none, p)
  tried (too_many, p) = (too_many, p)
  tried (crashed, p) = (crashed, p)
  tried (stuck, p) = (stuck, p)

  unfoldable pub attempt : {A : Type 0} → P F S A → P F S (Option A)
  attempt m p = tried (m p)

  -- `return err`, for the error of a call that gives a token.
  abbrev pub return_err : Option (Token F) → P F S (Unit {0})
  return_err none = fail lex_error
  return_err (some t) = pure tt

  module _ (l : LexPeeker F S) where
    unfoldable pub is_end_section : P F S Bool
    is_end_section = do tok ← peek l; pure (ends_section tok.type)

    abbrev pub kept : Option (Token F) × S → P F S (Option (Token F))
    kept (o, s) p = (done o, record p { source = s })

    unfoldable pub lex_while_not : List TokType → P F S (Option (Token F))
    lex_while_not ts p = kept (l.while_not ts p.source) p

    unfoldable pub next_section : P F S (Option (Token F))
    next_section = lex_while_not tok_end_sect

    unfoldable pub next_sync_no_semi : List TokType → P F S (Option (Token F))
    next_sync_no_semi ts = lex_while_not (ts ++ (tok_end_sect ++ tok_semi ∷ []))

    unfoldable pub next_sync : List TokType → P F S (Option (Token F))
    next_sync ts = do
      o ← next_sync_no_semi ts
      when (is_tok tok_semi o) (do skip l; pure o) (pure o)

    abbrev pub matched : Option (Option (Token F)) → P F S (Option (Token F))
    matched (some (some tok)) = pure (some tok)
    matched _ = do errorf; _ ← next_sync []; pure none

    unfoldable pub match_err : TokType → P F S (Option (Token F))
    match_err tok = attempt (match_tok l tok) >>= matched
