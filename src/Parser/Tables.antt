-- ===== src/Parser/Tables.antt =====
-- parser/pratt.go: the tables of the operators. What a table has no entry for is 0 or false.
use rips.Prelude.{ℕ, ◌*◌, Bool, true, false, ◌==◌, if◌then◌else◌}
use rips.Lex.Token.{
  TokType, tok_lpar, tok_rpar, tok_mod, tok_add, tok_min, tok_mul, tok_div, tok_xor, tok_bit_and,
  tok_bit_or, tok_asig, tok_g, tok_l, tok_log_neg, tok_compl, tok_float_val, tok_int_val,
  tok_str_val, tok_bool_val, tok_id, tok_log_and, tok_log_or, tok_eq, tok_neq, tok_geq, tok_leq,
}

abbrev pub max_n_terms : ℕ
max_n_terms = 1000

abbrev pub prec_tab : TokType → ℕ
prec_tab tok_rpar = 1
prec_tab tok_log_or = 4 * max_n_terms
prec_tab tok_log_and = 5 * max_n_terms
prec_tab tok_bit_and = 6 * max_n_terms
prec_tab tok_xor = 7 * max_n_terms
prec_tab tok_bit_or = 8 * max_n_terms
prec_tab tok_eq = 9 * max_n_terms
prec_tab tok_neq = 9 * max_n_terms
prec_tab tok_geq = 10 * max_n_terms
prec_tab tok_leq = 10 * max_n_terms
prec_tab tok_g = 10 * max_n_terms
prec_tab tok_l = 10 * max_n_terms
prec_tab tok_add = 13 * max_n_terms
prec_tab tok_min = 13 * max_n_terms
prec_tab tok_mul = 14 * max_n_terms
prec_tab tok_div = 14 * max_n_terms
prec_tab tok_mod = 14 * max_n_terms
prec_tab tok_lpar = 18 * max_n_terms
prec_tab _ = 0

abbrev pub prec_tab_unary : TokType → ℕ
prec_tab_unary tok_add = 16 * max_n_terms
prec_tab_unary tok_min = 16 * max_n_terms
prec_tab_unary tok_compl = 17 * max_n_terms
prec_tab_unary tok_log_neg = 17 * max_n_terms
prec_tab_unary tok_lpar = 18 * max_n_terms
prec_tab_unary _ = 0

abbrev pub unary_tab : TokType → Bool
unary_tab tok_compl = true
unary_tab tok_add = true
unary_tab tok_min = true
unary_tab tok_log_neg = true
unary_tab tok_lpar = true
unary_tab _ = false

-- `isExprTok`, with its table.
abbrev pub is_expr_tok : TokType → Bool
is_expr_tok tok_lpar = true
is_expr_tok tok_rpar = true
is_expr_tok tok_mod = true
is_expr_tok tok_add = true
is_expr_tok tok_min = true
is_expr_tok tok_mul = true
is_expr_tok tok_div = true
is_expr_tok tok_xor = true
is_expr_tok tok_bit_and = true
is_expr_tok tok_bit_or = true
is_expr_tok tok_asig = true
is_expr_tok tok_geq = true
is_expr_tok tok_leq = true
is_expr_tok tok_eq = true
is_expr_tok tok_neq = true
is_expr_tok tok_g = true
is_expr_tok tok_l = true
is_expr_tok tok_log_neg = true
is_expr_tok tok_log_and = true
is_expr_tok tok_log_or = true
is_expr_tok tok_compl = true
is_expr_tok tok_float_val = true
is_expr_tok tok_int_val = true
is_expr_tok tok_str_val = true
is_expr_tok tok_bool_val = true
is_expr_tok tok_id = true
is_expr_tok _ = false

abbrev pub def_rbp : ℕ
def_rbp = 0

-- The first number that is not 0; no entry of the tables is 0.
abbrev first : ℕ → ℕ → ℕ
first a b = if a == 0 then b else a

-- `bindPow`.
unfoldable pub bind_pow : TokType → Bool → ℕ
bind_pow t is_unary =
    let binary = first (prec_tab t) (first (prec_tab_unary t) def_rbp) in
    if is_unary then first (prec_tab_unary t) binary else binary
