-- ===== src/Lex/Lexer/Printed.antt =====
-- lex/lex.go: a token that `UTokType.String` prints is read as that token.
use rips.Prelude.{◌≡◌, refl, Bool, true, false, String, none}
use rips.Lex.Token.{
  TokType, u_tok_name, tok_bad, tok_float_val, tok_int_val, tok_str_val, tok_bool_val, tok_id,
  tok_levels, tok_soft, tok_vars, tok_consts, tok_rules, tok_eof, tok_quest, tok_semi, tok_colon,
  tok_lpar, tok_rpar, tok_mod, tok_add, tok_min, tok_mul, tok_div, tok_xor, tok_bit_and, tok_bit_or,
  tok_asig, tok_g, tok_l, tok_comma, tok_log_neg, tok_compl, tok_log_and, tok_log_or, tok_eq,
  tok_neq, tok_geq, tok_leq, tok_then, tok_nthen,
}
use rips.Lex.Library.{Library}
use rips.Lex.Reader.{Lexer, ok, get, unget, accept, when, pure, fail, ◌>>=◌}
use rips.Lex.Scan.{token}
use rips.Lex.Lexer.{
  lex, lex_loop, on_rune, on_other, accepted_as, read_pair, single, first_of_two, two_of,
  may_lex_double,
}

-- The tokens that are written with signs.
abbrev pub is_sign : TokType → Bool
is_sign tok_bad = false
is_sign tok_float_val = false
is_sign tok_int_val = false
is_sign tok_str_val = false
is_sign tok_bool_val = false
is_sign tok_id = false
is_sign tok_levels = false
is_sign tok_soft = false
is_sign tok_vars = false
is_sign tok_consts = false
is_sign tok_rules = false
is_sign tok_eof = false
is_sign _ = true

-- A text, a space and another text.
abbrev pub spaced : String → String → String
spaced String.[] s = String.◌∷◌ " " s
spaced (String.◌∷◌ c t) s = String.◌∷◌ c (spaced t s)

module _ {F : Type 0} (lib : Library F) where
  -- What was read: a token with its name for lexeme, and all of the name.
  abbrev pub Reads : TokType → String → Lexer F → Type 0
  Reads t s l =
      ((lex lib l).0 ≡ ok (token lib (u_tok_name t) t)) × ((lex lib l).1.rest ≡ String.◌∷◌ " " s)

  -- The name of a token of signs, with a space and any text behind it, is read as that token, up to the
  -- space, from whatever state that has nothing accepted and no token saved.
  pub lex-u_tok_name :
      (t : TokType) (s : String) (l : Lexer F)
      → is_sign t ≡ true
      → Reads t s (record l { rest = spaced (u_tok_name t) s; accepted = ""; saved = none })
  unfolding u_tok_name lex lex_loop on_rune on_other accepted_as read_pair single first_of_two
      two_of may_lex_double get unget accept when pure fail ◌>>=◌
  lex-u_tok_name tok_bad s l h = cc
  lex-u_tok_name tok_quest s l h = (refl, refl)
  lex-u_tok_name tok_semi s l h = (refl, refl)
  lex-u_tok_name tok_colon s l h = (refl, refl)
  lex-u_tok_name tok_lpar s l h = (refl, refl)
  lex-u_tok_name tok_rpar s l h = (refl, refl)
  lex-u_tok_name tok_mod s l h = (refl, refl)
  lex-u_tok_name tok_add s l h = (refl, refl)
  lex-u_tok_name tok_min s l h = (refl, refl)
  lex-u_tok_name tok_mul s l h = (refl, refl)
  lex-u_tok_name tok_div s l h = (refl, refl)
  lex-u_tok_name tok_xor s l h = (refl, refl)
  lex-u_tok_name tok_bit_and s l h = (refl, refl)
  lex-u_tok_name tok_bit_or s l h = (refl, refl)
  lex-u_tok_name tok_asig s l h = (refl, refl)
  lex-u_tok_name tok_g s l h = (refl, refl)
  lex-u_tok_name tok_l s l h = (refl, refl)
  lex-u_tok_name tok_comma s l h = (refl, refl)
  lex-u_tok_name tok_log_neg s l h = (refl, refl)
  lex-u_tok_name tok_compl s l h = (refl, refl)
  lex-u_tok_name tok_float_val s l h = cc
  lex-u_tok_name tok_int_val s l h = cc
  lex-u_tok_name tok_str_val s l h = cc
  lex-u_tok_name tok_bool_val s l h = cc
  lex-u_tok_name tok_id s l h = cc
  lex-u_tok_name tok_log_and s l h = (refl, refl)
  lex-u_tok_name tok_log_or s l h = (refl, refl)
  lex-u_tok_name tok_eq s l h = (refl, refl)
  lex-u_tok_name tok_neq s l h = (refl, refl)
  lex-u_tok_name tok_geq s l h = (refl, refl)
  lex-u_tok_name tok_leq s l h = (refl, refl)
  lex-u_tok_name tok_then s l h = (refl, refl)
  lex-u_tok_name tok_nthen s l h = (refl, refl)
  lex-u_tok_name tok_levels s l h = cc
  lex-u_tok_name tok_soft s l h = cc
  lex-u_tok_name tok_vars s l h = cc
  lex-u_tok_name tok_consts s l h = cc
  lex-u_tok_name tok_rules s l h = cc
  lex-u_tok_name tok_eof s l h = cc
