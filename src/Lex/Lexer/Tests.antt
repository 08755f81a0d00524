-- ===== src/Lex/Lexer/Tests.antt =====
-- lex/lex.go: texts and their tokens.
use rips.Prelude.{◌-◌, ◌+◌, ◌≤◌, ℕ, ◌≡◌, refl, zero, suc, String, Option, List, [], ◌∷◌}
use rips.Lex.Token.{
  u_tok_name, tok_g, tok_geq, TokType, tok_levels, tok_id, tok_asig, tok_int_val, tok_semi, tok_eof,
  tok_bad, tok_str_val, tok_float_val, tok_nthen,
}
use rips.Lex.Reader.{Token, Lexer, Res, ok, get, unget, accept, save, when, pure, fail, ◌>>=◌}
use rips.Lex.Scan.{
  lex_id, lex_num, lex_string, get_while, get_while_on, str_loop, str_loop_on, is_digit_based,
  float_end, exponent_end, num_end, num_from, based, int_end,
}
use rips.Lex.Lexer.{
  lex_while_not, lex, lex_loop, on_rune, on_other, accepted_as, read_pair, single, first_of_two,
  two_of, eat_comment, eat_comment_on, may_lex_double, keyword_lookup,
}
use rips.Lex.Reader.Invariant.{Ends}
use rips.Lex.Lexer.Progress.{left, lex-left}
use rips.Lex.Lexer.Sync.{lex_while_not-left}
use rips.Lex.Lexer.Lines.{Counted, lex-Counted}
use rips.Lex.Lexer.Printed.{Reads, lex-u_tok_name}
use rips.Fixtures.{sample_library, lexer_on}

abbrev reading : Res (Token (Option ℕ)) → TokType × String
reading (ok t) = (t.type, t.lexema)
reading _ = (tok_bad, "")

abbrev readings : ℕ → Lexer (Option ℕ) → List (TokType × String)
readings zero l = []
readings (suc n) l = let (r, l') = lex sample_library l in reading r ∷ readings n l'

a_line :
    readings 7 (lexer_on "levels x1 =0x1f # c\n;1.5")
    ≡ (tok_levels, "levels")
      ∷ (tok_id, "x1")
      ∷ (tok_asig, "=")
      ∷ (tok_int_val, "0x1f")
      ∷ (tok_semi, ";")
      ∷ (tok_float_val, "1.5")
      ∷ (tok_eof, "")
      ∷ []
unfolding lex lex_id lex_num get unget accept get_while get_while_on is_digit_based float_end
    exponent_end num_end num_from based int_end save read_pair accepted_as on_rune on_other lex_loop
    eat_comment_on when pure fail ◌>>=◌ single first_of_two may_lex_double two_of eat_comment
    keyword_lookup
a_line = refl

a_string :
    readings 2 (lexer_on "\"a\\\"b\"!>") ≡ (tok_str_val, "\"a\\\"b\"") ∷ (tok_nthen, "!>") ∷ []
unfolding lex lex_string str_loop str_loop_on read_pair accepted_as on_rune on_other lex_loop when
    pure fail ◌>>=◌ get unget accept get_while single first_of_two may_lex_double two_of
a_string = refl

-- A rune that is an error stays accepted: it is part of the next token, which is not a pair either.
a_bad_rune :
    readings 4 (lexer_on "$ab $>= ")
    ≡ (tok_bad, "") ∷ (tok_id, "$ab") ∷ (tok_bad, "") ∷ (tok_g, "$>") ∷ []
unfolding lex lex_id get_while get_while_on read_pair accepted_as on_rune on_other lex_loop when
    pure fail ◌>>=◌ get unget accept single first_of_two may_lex_double two_of keyword_lookup
a_bad_rune = refl

lex-left_example :
    Ends ⊥ (λ l. left l ≤ left (lexer_on "x1 = 2") - 1) (lex sample_library (lexer_on "x1 = 2"))
lex-left_example = lex-left sample_library (lexer_on "x1 = 2")

lex_while_not-left_example :
    Ends ⊥
      (λ l. left l ≤ left (lexer_on "x1 = 2;") - 1 + 1)
      (lex_while_not sample_library (tok_semi ∷ []) (lexer_on "x1 = 2;"))
lex_while_not-left_example = lex_while_not-left sample_library (tok_semi ∷ []) (lexer_on "x1 = 2;")

lex-Counted_example : Ends ⊥ (Counted 3) (lex sample_library (lexer_on "# c\n\nx"))
lex-Counted_example = lex-Counted sample_library 3 (lexer_on "# c\n\nx") (refl, tt)

lex-u_tok_name_example : Reads sample_library tok_geq "2" (lexer_on ">= 2")
unfolding u_tok_name
lex-u_tok_name_example = lex-u_tok_name sample_library tok_geq "2" (lexer_on "") refl
