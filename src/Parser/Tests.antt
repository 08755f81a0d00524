-- ===== src/Parser/Tests.antt =====
-- parser/pratt.go: texts and the expressions that they are parsed as.
use rips.Prelude.{ℕ, ◌+◌, ◌*◌, ◌<◌, ◌≡◌, refl, arith, false, String, Option, List, [], ◌∷◌, length}
use rips.Lex.Token.{tok_asig, tok_bit_and, tok_bit_or, tok_lpar, tok_rpar, tok_eof}
use rips.Lex.Reader.{Token, Lexer}
use rips.Tree.Env.{
  StkEnv, new_var, new_func, declare_all, declare, Decl, var_decl, func_decl, get_sym, new_sym,
}
use rips.Types.{tv_int, int_type}
use rips.Parser.{
  Parser, Parsed, done, crashed, errorf, match_tok, peek, skip, when, pure, fail, ◌>>=◌,
}
use rips.Tree.Sym.{new_anon_sym}
use rips.Parser.Tree.{new_prog, Expr, literal, op_leaf, binary, add_both}
use rips.Parser.Sections.{prog}
use rips.Parser.Balanced.{Lands}
use rips.Parser.Balanced.Sections.{prog-Lands}
use rips.Parser.Source.{lexer_peeker, lexer_sized}
use rips.Parser.Grammar.{
  Term, lit, name, app, un, bin, last, before, int, minus, add, mul, sub, written, meant, InScope,
  sign, id_tok, lit_tok, lit_val,
}
use rips.Parser.Pratt.{
  expr, loop, nud, func_args, nud_of, nud_end, led_of, round_of, start_of, set_expr_val, name_val,
  declare_none,
}
use rips.Parser.Tables.{bind_pow}
use rips.Parser.Pratt.Steps.{at, list_peeker, ends}
use rips.Parser.Pratt.RoundTrip.{expr-written}
use rips.Parser.Pratt.Total.{EndsOn, expr-Ends}
use rips.Fixtures.{sample_floats, sample_library, lexer_on}

abbrev decls : List Decl
decls = var_decl "x" tv_int ∷ func_decl "f" (int_type ∷ int_type ∷ []) int_type false false ∷ []

abbrev sample_env : StkEnv (Option ℕ)
unfolding declare_all declare new_var new_func get_sym
sample_env = declare_all decls ([] ∷ [])

abbrev no_more : Token (Option ℕ)
no_more = sign sample_floats tok_eof

-- f(x + 1, -x) * (x - (x - 2))
abbrev term : Term (Option ℕ)
term =
    bin mul (app "f" (before (bin add (name "x") (lit (int 1))) (last (un minus (name "x")))))
      (bin sub (name "x") (bin sub (name "x") (lit (int 2))))

term-InScope : InScope sample_floats sample_env term
unfolding InScope declare_all declare new_var new_func get_sym
term-InScope = ((refl, ((refl, tt), refl)), (refl, (refl, tt)))

term-fuel : 3 * length (written sample_floats 1 term []) < 100
unfolding written bind_pow
term-fuel = omega arith

expr-written_example :
    expr sample_floats
      (list_peeker no_more)
      100
      1
      (at sample_floats no_more sample_env 0 new_prog (written sample_floats 1 term []))
    ≡ (
      done (meant sample_floats sample_env term),
      at sample_floats no_more sample_env 0 new_prog [],
    )
expr-written_example =
    expr-written sample_floats no_more sample_env 0 new_prog term 1 [] 100 term-InScope
      (ends tok_eof refl) term-fuel

abbrev parser_on : String → Parser (Option ℕ) (Lexer (Option ℕ))
parser_on text = record { source = lexer_on text; n_err = 0; envs = sample_env; prog = new_prog }

abbrev on_text : Parser (Option ℕ) (Lexer (Option ℕ))
on_text = parser_on "f(x, (1)) +"

abbrev room : ℕ
room = (lexer_sized sample_library).size on_text.source

expr-Ends_example :
    EndsOn sample_floats
      (lexer_sized sample_library)
      sample_env
      room
      (expr sample_floats (lexer_peeker sample_library) (3 * room + 1) 1 on_text)
expr-Ends_example = expr-Ends sample_floats (lexer_sized sample_library) 1 on_text

abbrev ends_with : List (Token (Option ℕ)) → Parsed (Expr (Option ℕ))
ends_with ts =
    (expr sample_floats (list_peeker no_more) 40 1
      (at sample_floats no_more sample_env 0 new_prog ts)).0

abbrev one : Token (Option ℕ)
one = lit_tok sample_floats (int 1)

abbrev one_val : Expr (Option ℕ)
unfolding new_anon_sym
one_val = literal (lit_val sample_floats sample_env (int 1))

-- Without an environment, a name cannot be declared.
no_env_panics :
    (expr sample_floats
      (list_peeker no_more)
      10
      1
      (at sample_floats no_more [] 0 new_prog (id_tok sample_floats "x" ∷ []))).0
    ≡ crashed
unfolding expr loop nud func_args nud_of nud_end led_of round_of start_of set_expr_val match_tok
    peek skip when pure fail ◌>>=◌ bind_pow get_sym name_val declare_none new_sym errorf
no_env_panics = refl

-- A sign of assignment is an expression, and an opening parenthesis an operator of two operands.
lone_asig : ends_with (sign sample_floats tok_asig ∷ []) ≡ done (op_leaf tok_asig)
unfolding expr loop nud func_args nud_of nud_end led_of round_of start_of set_expr_val match_tok
    peek skip when pure fail ◌>>=◌ bind_pow
lone_asig = refl

-- 1 | 1 & 1 is (1 | 1) & 1, and in C it is 1 | (1 & 1).
or_before_and :
    ends_with
      (one ∷ sign sample_floats tok_bit_or ∷ one ∷ sign sample_floats tok_bit_and ∷ one ∷ [])
    ≡ done (binary tok_bit_and (binary tok_bit_or one_val one_val) one_val)
unfolding expr loop nud func_args nud_of nud_end led_of round_of start_of set_expr_val match_tok
    peek skip when pure fail ◌>>=◌ bind_pow new_anon_sym add_both
or_before_and = refl

open_pair :
    ends_with (
      sign sample_floats tok_lpar
      ∷ one
      ∷ sign sample_floats tok_rpar
      ∷ sign sample_floats tok_lpar
      ∷ one
      ∷ [])
    ≡ done (binary tok_lpar one_val one_val)
unfolding expr loop nud func_args nud_of nud_end led_of round_of start_of set_expr_val match_tok
    peek skip when pure fail ◌>>=◌ bind_pow new_anon_sym add_both
open_pair = refl

abbrev a_program : String
a_program = "levels: calm; alarm soft; rules Image: topicmatches(\"/cam\") ? alert(\"seen\");"

abbrev prog_on : String → Parser (Option ℕ) (Lexer (Option ℕ))
prog_on text = record { source = lexer_on text; n_err = 0; envs = [] ∷ []; prog = new_prog }

prog-Lands_example :
    Lands 1 1 (prog sample_floats (lexer_peeker sample_library) 60 (prog_on a_program))
prog-Lands_example =
    prog-Lands sample_floats (lexer_peeker sample_library) 60 0 (prog_on a_program) refl
