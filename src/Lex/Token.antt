-- ===== src/Lex/Token.antt =====
-- lex/lex.go: `TokType`, its numbering, and its two printers `TypeName` and `UTokType.String`.
pub mod Laws
use rips.Prelude.{ℕ, ◌+◌, Bool, ◌==◌, String, List, [], ◌∷◌, ◌||◌, false}

-- The token types that the lexer gives. `TokEol` is commented out in the source.
pub data TokType : Type 0 where
  tok_bad tok_quest tok_semi tok_colon tok_lpar tok_rpar : TokType
  tok_mod tok_add tok_min tok_mul tok_div tok_xor : TokType
  tok_bit_and tok_bit_or tok_asig tok_g tok_l tok_comma : TokType
  tok_log_neg tok_compl tok_float_val tok_int_val tok_str_val tok_bool_val : TokType
  tok_id tok_log_and tok_log_or tok_eq tok_neq tok_geq : TokType
  tok_leq tok_then tok_nthen tok_levels tok_soft tok_vars : TokType
  tok_consts tok_rules tok_eof : TokType

-- `unicode.MaxRune`.
abbrev max_rune : ℕ
max_rune = 0x10ffff

-- The number of a token type: the rune of a one-character token, or, from `TokFloatVal` on (entry
-- 20 of the constant block), `unicode.MaxRune + 1 + iota`.
abbrev pub code : TokType → ℕ
code tok_bad = 0
code tok_quest = b'?'
code tok_semi = b';'
code tok_colon = b':'
code tok_lpar = b'('
code tok_rpar = b')'
code tok_mod = b'%'
code tok_add = b'+'
code tok_min = b'-'
code tok_mul = b'*'
code tok_div = b'/'
code tok_xor = b'^'
code tok_bit_and = b'&'
code tok_bit_or = b'|'
code tok_asig = b'='
code tok_g = b'>'
code tok_l = b'<'
code tok_comma = b','
code tok_log_neg = b'!'
code tok_compl = b'~'
code tok_float_val = max_rune + 1 + 20
code tok_int_val = max_rune + 1 + 21
code tok_str_val = max_rune + 1 + 22
code tok_bool_val = max_rune + 1 + 23
code tok_id = max_rune + 1 + 24
code tok_log_and = max_rune + 1 + 25
code tok_log_or = max_rune + 1 + 26
code tok_eq = max_rune + 1 + 27
code tok_neq = max_rune + 1 + 28
code tok_geq = max_rune + 1 + 29
code tok_leq = max_rune + 1 + 30
code tok_then = max_rune + 1 + 31
code tok_nthen = max_rune + 1 + 32
code tok_levels = max_rune + 1 + 33
code tok_soft = max_rune + 1 + 34
code tok_vars = max_rune + 1 + 35
code tok_consts = max_rune + 1 + 36
code tok_rules = max_rune + 1 + 37
code tok_eof = max_rune + 1 + 38

-- `==` on token types.
abbrev pub same_tok : TokType → TokType → Bool
same_tok a b = code a == code b

-- `strings.ContainsRune(chars, rune(op))`, the characters given as their tokens.
abbrev pub contains_rune : List TokType → TokType → Bool
contains_rune [] op = false
contains_rune (t ∷ ts) op = same_tok t op || contains_rune ts op

-- `TypeName`; what has no case prints as "TokUnk".
pub type_name : TokType → String
type_name tok_bad = "TokBad"
type_name tok_quest = "TokQuest"
type_name tok_semi = "TokSemi"
type_name tok_colon = "TokColon"
type_name tok_lpar = "TokLPar"
type_name tok_rpar = "TokRPar"
type_name tok_mod = "TokMod"
type_name tok_add = "TokAdd"
type_name tok_min = "TokMin"
type_name tok_mul = "TokMul"
type_name tok_div = "TokDiv"
type_name tok_xor = "TokXor"
type_name tok_bit_and = "TokBitAnd"
type_name tok_bit_or = "TokBitOr"
type_name tok_asig = "TokAsig"
type_name tok_g = "TokG"
type_name tok_l = "TokL"
type_name tok_comma = ","
type_name tok_log_neg = "TokLogNeg"
type_name tok_compl = "TokCompl"
type_name tok_float_val = "FloatVal"
type_name tok_int_val = "IntVal"
type_name tok_str_val = "StrVal"
type_name tok_bool_val = "BoolVal"
type_name tok_id = "TokId"
type_name tok_log_and = "TokLogAnd"
type_name tok_log_or = "TokLogOr"
type_name tok_eq = "TokEq"
type_name tok_neq = "TokNEq"
type_name tok_geq = "TokGEq"
type_name tok_leq = "TokLEq"
type_name tok_then = "TokThen"
type_name tok_nthen = "TokNThen"
type_name tok_levels = "TokLevels"
type_name tok_soft = "TokSoft"
type_name tok_vars = "TokVars"
type_name tok_consts = "TokUnk"
type_name tok_rules = "TokRules"
type_name tok_eof = "TokEof"

-- `UTokType.String`, for messages to the user.
unfoldable pub u_tok_name : TokType → String
u_tok_name tok_bad = "TokBad"
u_tok_name tok_quest = "?"
u_tok_name tok_semi = ";"
u_tok_name tok_colon = ":"
u_tok_name tok_lpar = "("
u_tok_name tok_rpar = ")"
u_tok_name tok_mod = "%"
u_tok_name tok_add = "+"
u_tok_name tok_min = "-"
u_tok_name tok_mul = "*"
u_tok_name tok_div = "/"
u_tok_name tok_xor = "^"
u_tok_name tok_bit_and = "&"
u_tok_name tok_bit_or = "|"
u_tok_name tok_asig = "="
u_tok_name tok_g = ">"
u_tok_name tok_l = "<"
u_tok_name tok_comma = ","
u_tok_name tok_log_neg = "!"
u_tok_name tok_compl = "~"
u_tok_name tok_float_val = "TokFloatVal"
u_tok_name tok_int_val = "TokIntVal"
u_tok_name tok_str_val = "TokStrVal"
u_tok_name tok_bool_val = "TokBoolVal"
u_tok_name tok_id = "TokId"
u_tok_name tok_log_and = "&&"
u_tok_name tok_log_or = "||"
u_tok_name tok_eq = "=="
u_tok_name tok_neq = "!="
u_tok_name tok_geq = ">="
u_tok_name tok_leq = "<="
u_tok_name tok_then = "=>"
u_tok_name tok_nthen = "!>"
u_tok_name tok_levels = "Levels"
u_tok_name tok_soft = "Soft"
u_tok_name tok_vars = "Vars"
u_tok_name tok_consts = "Consts"
u_tok_name tok_rules = "Rules"
u_tok_name tok_eof = "TokEof"
