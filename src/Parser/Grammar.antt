-- ===== src/Parser/Grammar.antt =====
-- parser/pratt.go: what the parser of expressions reads, described apart from it: terms, how they are
-- written with the parentheses that the binding powers ask for, and the expressions that they mean.
use rips.Prelude.{
  ℕ, suc, Bool, true, false, ltb, if◌then◌else◌, String, Option, none, some, List, ◌∷◌, ◌≡◌,
}
use rips.Lex.Token.{
  TokType, tok_lpar, tok_rpar, tok_comma, tok_mod, tok_add, tok_min, tok_mul, tok_div, tok_xor,
  tok_bit_and, tok_bit_or, tok_g, tok_l, tok_log_neg, tok_compl, tok_float_val, tok_int_val,
  tok_str_val, tok_bool_val, tok_id, tok_log_and, tok_log_or, tok_eq, tok_neq, tok_geq, tok_leq,
}
use rips.Lex.Reader.{Token}
use rips.Types.{float_type, int_type, string_type, bool_type}
use rips.Tree.Sym.{Floats, Val}
use rips.Tree.Env.{Symbol, StkEnv, get_sym}
use rips.Parser.Tree.{
  Expr, Args, literal, ident, unknown, call, no_args, arg, add_args, unary, binary,
}
use rips.Parser.Pratt.{is_func, blank_const}

pub data Op1 : Type 0 where
  plus minus complement negation : Op1

abbrev pub op1_tok : Op1 → TokType
op1_tok plus = tok_add
op1_tok minus = tok_min
op1_tok complement = tok_compl
op1_tok negation = tok_log_neg

pub data Op2 : Type 0 where
  log_or log_and bit_and xor bit_or eq neq geq leq gt lt add sub mul div rem : Op2

abbrev pub op2_tok : Op2 → TokType
op2_tok log_or = tok_log_or
op2_tok log_and = tok_log_and
op2_tok bit_and = tok_bit_and
op2_tok xor = tok_xor
op2_tok bit_or = tok_bit_or
op2_tok eq = tok_eq
op2_tok neq = tok_neq
op2_tok geq = tok_geq
op2_tok leq = tok_leq
op2_tok gt = tok_g
op2_tok lt = tok_l
op2_tok add = tok_add
op2_tok sub = tok_min
op2_tok mul = tok_mul
op2_tok div = tok_div
op2_tok rem = tok_mod

-- How much the operators bind, from the least: ||, &&, &, ^, |, the tests for equality, the comparisons,
-- + and -, *, / and %; more than these bind the unary + and -, and most ~ and !. Unlike in C, | binds more
-- than ^, and ^ more than &.
abbrev pub prec : Op2 → ℕ
prec log_or = 4000
prec log_and = 5000
prec bit_and = 6000
prec xor = 7000
prec bit_or = 8000
prec eq = 9000
prec neq = 9000
prec geq = 10000
prec leq = 10000
prec gt = 10000
prec lt = 10000
prec add = 13000
prec sub = 13000
prec mul = 14000
prec div = 14000
prec rem = 14000

abbrev pub prec1 : Op1 → ℕ
prec1 plus = 16000
prec1 minus = 16000
prec1 complement = 17000
prec1 negation = 17000

pub data Lit (F : Type 0) : Type 0 where
  float : F → Lit F
  int : ℕ → Lit F
  str : String → Lit F
  bool : Bool → Lit F

mutual
  pub data Term (F : Type 0) : Type 0 where
    lit : Lit F → Term F
    name : String → Term F
    app : String → Terms F → Term F
    un : Op1 → Term F → Term F
    bin : Op2 → Term F → Term F → Term F

  -- Of the arguments of a call the last has no comma behind it.
  pub data Terms (F : Type 0) : Type 0 where
    nothing : Terms F
    last : Term F → Terms F
    before : Term F → Terms F → Terms F

module _ {F : Type 0} (fl : Floats F) where
  abbrev pub sign : TokType → Token F
  sign t = record {
    lexema = "";
    type = t;
    tok_float = fl.f_zero;
    tok_int = 0;
    tok_str = "";
    tok_bool = false;
  }

  abbrev pub lit_tok : Lit F → Token F
  lit_tok (float x) = record (sign tok_float_val) { tok_float = x }
  lit_tok (int n) = record (sign tok_int_val) { tok_int = n }
  lit_tok (str s) = record (sign tok_str_val) { tok_str = s }
  lit_tok (bool b) = record (sign tok_bool_val) { tok_bool = b }

  abbrev pub id_tok : String → Token F
  id_tok n = record (sign tok_id) { lexema = n }

  abbrev pub Tokens : Type 0
  Tokens = List (Token F)

  -- A term, with `rest` behind it, where what binds less than the level given stands in parentheses. An
  -- operator associates to the left.
  unfoldable mutual
    pub written : ℕ → Term F → List (Token F) → List (Token F)
    written b (lit x) rest = lit_tok x ∷ rest
    written b (name n) rest = id_tok n ∷ rest
    written b (app n xs) rest = id_tok n ∷ sign tok_lpar ∷ args_written xs (sign tok_rpar ∷ rest)
    written b (un o x) rest = sign (op1_tok o) ∷ written (suc (prec1 o)) x rest
    written b (bin o x y) rest =
        let inner = written (prec o) x (sign (op2_tok o) ∷ written (suc (prec o)) y rest) in
        let closed =
          sign tok_lpar
          ∷ written (prec o) x
              (sign (op2_tok o) ∷ written (suc (prec o)) y (sign tok_rpar ∷ rest)) in
        if ltb (prec o) b then closed else inner

    pub args_written : Terms F → List (Token F) → List (Token F)
    args_written nothing rest = rest
    args_written (last x) rest = written 0 x rest
    args_written (before x xs) rest = written 0 x (sign tok_comma ∷ args_written xs rest)

-- What a name stands for.
abbrev pub denoted : {F : Type 0} → Option (Symbol F) → String → Expr F
denoted none n = unknown n
denoted (some s) n = if is_func s.s_type then call s no_args else ident s

abbrev pub is_known : {F : Type 0} → Option (Symbol F) → Bool
is_known none = false
is_known (some s) = true

abbrev pub is_function : {F : Type 0} → Option (Symbol F) → Bool
is_function none = false
is_function (some s) = is_func s.s_type

module _ {F : Type 0} (fl : Floats F) (es : StkEnv F) where
  abbrev pub lit_val : Lit F → Val F
  lit_val (float x) = record (blank_const fl) { data_type = float_type; float_val = x }
  lit_val (int n) = record (blank_const fl) { data_type = int_type; int_val = n }
  lit_val (str s) = record (blank_const fl) { data_type = string_type; str_val = s }
  lit_val (bool b) = record (blank_const fl) { data_type = bool_type; bool_val = b }

  -- The expression of a term, with the symbols of the environments.
  unfoldable mutual
    pub meant : Term F → Expr F
    meant (lit x) = literal (lit_val x)
    meant (name n) = denoted (get_sym n es) n
    meant (app n xs) = add_args (denoted (get_sym n es) n) (all_meant xs)
    meant (un o x) = unary (op1_tok o) (meant x)
    meant (bin o x y) = binary (op2_tok o) (meant x) (meant y)

    pub all_meant : Terms F → Args F
    all_meant nothing = no_args
    all_meant (last x) = arg (meant x) no_args
    all_meant (before x xs) = arg (meant x) (all_meant xs)

  -- Every name is declared, and what is called is a function.
  unfoldable mutual
    pub InScope : Term F → Type 0
    InScope (lit x) = Unit {0}
    InScope (name n) = is_known (get_sym n es) ≡ true
    InScope (app n xs) = (is_function (get_sym n es) ≡ true) × AllInScope xs
    InScope (un o x) = InScope x
    InScope (bin o x y) = InScope x × InScope y

    pub AllInScope : Terms F → Type 0
    AllInScope nothing = Unit {0}
    AllInScope (last x) = InScope x
    AllInScope (before x xs) = InScope x × AllInScope xs
