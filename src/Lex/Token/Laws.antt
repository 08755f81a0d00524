-- ===== src/Lex/Token/Laws.antt =====
-- lex/lex.go: what a user sees of a token type tells which it is.
use rips.Prelude.{
  ◌≡◌, refl, ◌∙◌, sym, ap, if◌then◌else◌, str_eq, String, Option, none, some, List, [], ◌∷◌,
}
use rips.Lex.Token.{
  TokType, u_tok_name, tok_bad, tok_quest, tok_semi, tok_colon, tok_lpar, tok_rpar, tok_mod,
  tok_add, tok_min, tok_mul, tok_div, tok_xor, tok_bit_and, tok_bit_or, tok_asig, tok_g, tok_l,
  tok_comma, tok_log_neg, tok_compl, tok_float_val, tok_int_val, tok_str_val, tok_bool_val, tok_id,
  tok_log_and, tok_log_or, tok_eq, tok_neq, tok_geq, tok_leq, tok_then, tok_nthen, tok_levels,
  tok_soft, tok_vars, tok_consts, tok_rules, tok_eof,
}

all_tokens : List TokType
all_tokens =
    tok_bad ∷ tok_quest ∷ tok_semi ∷ tok_colon ∷ tok_lpar ∷ tok_rpar ∷ tok_mod ∷ tok_add ∷ tok_min
    ∷ tok_mul ∷ tok_div ∷ tok_xor ∷ tok_bit_and ∷ tok_bit_or ∷ tok_asig ∷ tok_g ∷ tok_l ∷ tok_comma
    ∷ tok_log_neg ∷ tok_compl ∷ tok_float_val ∷ tok_int_val ∷ tok_str_val ∷ tok_bool_val ∷ tok_id
    ∷ tok_log_and ∷ tok_log_or ∷ tok_eq ∷ tok_neq ∷ tok_geq ∷ tok_leq ∷ tok_then ∷ tok_nthen
    ∷ tok_levels ∷ tok_soft ∷ tok_vars ∷ tok_consts ∷ tok_rules ∷ tok_eof ∷ []

first_named : String → List TokType → Option TokType
first_named s [] = none
first_named s (t ∷ ts) = if str_eq (u_tok_name t) s then some t else first_named s ts

first_named-u_tok_name : (t : TokType) → first_named (u_tok_name t) all_tokens ≡ some t
unfolding first_named all_tokens u_tok_name
first_named-u_tok_name tok_bad = refl
first_named-u_tok_name tok_quest = refl
first_named-u_tok_name tok_semi = refl
first_named-u_tok_name tok_colon = refl
first_named-u_tok_name tok_lpar = refl
first_named-u_tok_name tok_rpar = refl
first_named-u_tok_name tok_mod = refl
first_named-u_tok_name tok_add = refl
first_named-u_tok_name tok_min = refl
first_named-u_tok_name tok_mul = refl
first_named-u_tok_name tok_div = refl
first_named-u_tok_name tok_xor = refl
first_named-u_tok_name tok_bit_and = refl
first_named-u_tok_name tok_bit_or = refl
first_named-u_tok_name tok_asig = refl
first_named-u_tok_name tok_g = refl
first_named-u_tok_name tok_l = refl
first_named-u_tok_name tok_comma = refl
first_named-u_tok_name tok_log_neg = refl
first_named-u_tok_name tok_compl = refl
first_named-u_tok_name tok_float_val = refl
first_named-u_tok_name tok_int_val = refl
first_named-u_tok_name tok_str_val = refl
first_named-u_tok_name tok_bool_val = refl
first_named-u_tok_name tok_id = refl
first_named-u_tok_name tok_log_and = refl
first_named-u_tok_name tok_log_or = refl
first_named-u_tok_name tok_eq = refl
first_named-u_tok_name tok_neq = refl
first_named-u_tok_name tok_geq = refl
first_named-u_tok_name tok_leq = refl
first_named-u_tok_name tok_then = refl
first_named-u_tok_name tok_nthen = refl
first_named-u_tok_name tok_levels = refl
first_named-u_tok_name tok_soft = refl
first_named-u_tok_name tok_vars = refl
first_named-u_tok_name tok_consts = refl
first_named-u_tok_name tok_rules = refl
first_named-u_tok_name tok_eof = refl

some_injective : (a b : TokType) → some a ≡ some b → a ≡ b
some_injective a b e = cc

-- Two token types that print alike for the user are the same.
u_tok_name_injective : (a b : TokType) → u_tok_name a ≡ u_tok_name b → a ≡ b
u_tok_name_injective a b e = some_injective a b (
    sym (first_named-u_tok_name a)
    ∙ ap (λ s. first_named s all_tokens) e
    ∙ first_named-u_tok_name b)
