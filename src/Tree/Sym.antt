-- ===== src/Tree/Sym.antt =====
-- tree/sym.go: the symbol types and the symbols. The Go struct `Sym` holds scalar fields, which are
-- the record `Val` here, and a pointer to an expression, which makes it a tree, `Sym`. Not kept
-- are: the position (for messages), the flags of the type checker, and the compiled rules of yara
-- and regexp.
use rips.Prelude.{ℕ, Bool, false, not, ◌&&◌, String, Option, List}
use rips.Prelude.Int.{ℤ, pos}
use rips.Types.{Ty, undef_expr_type, bool_type, string_type}
use rips.Lex.Token.{TokType, same_tok, tok_log_or, tok_log_and}

pub data SType : Type 0 where
  s_none s_sect s_level s_fcall s_var s_func : SType
  s_const s_unary s_binary s_asign s_regexp s_yara : SType

-- Go's float64 with the operations that the program applies to it. They are machine operations, so
-- their type is a parameter; a comparison with NaN is false.
pub record Floats (F : Type 0) : Type 0 where
  pub f_zero : F
  pub f_add : F → F → F
  pub f_sub : F → F → F
  pub f_mul : F → F → F
  pub f_div : F → F → F
  pub f_lt : F → F → Bool
  pub f_le : F → F → Bool
  pub f_eq : F → F → Bool
  pub f_format : F → String

-- The scalar fields of a `Sym`. An int64 is its bit pattern.
pub record Val (F : Type 0) : Type 0 where
  pub name : String
  pub s_type : SType
  pub data_type : Ty
  pub float_val : F
  pub int_val : ℕ
  pub str_val : String
  pub bool_val : Bool
  pub slevel : ℤ
  pub is_soft : Bool

-- What the call of a function needs of the symbol of that function: its name, its return type, the
-- types of its parameters, and whether the last one repeats.
pub record Func : Type 0 where
  pub f_name : String
  pub ret_type : Ty
  pub arg_data_types : List Ty
  pub is_variadic : Bool

-- An expression. A leaf has no `Expr`: a literal, a made up constant or a compiled rule. A `ref` is
-- the very symbol that the environment holds under its name (a variable, a named constant or a
-- level), so two of them are one pointer exactly if they have one name; a named constant holds the
-- value that its declaration was folded to. The `none` of a call is a function that was not
-- resolved. The parser gives both operands of a binary expression and the operand of a unary one.
mutual
  pub data Sym (F : Type 0) : Type 0 where
    leaf : Val F → Sym F
    ref : Val F → Sym F
    fcall : Val F → Option Func → Args F → Sym F
    binary : Val F → TokType → Sym F → Sym F → Sym F
    unary : Val F → TokType → Sym F → Sym F

  pub data Args (F : Type 0) : Type 0 where
    no_args : Args F
    arg : Sym F → Args F → Args F

abbrev pub sym_val : {F : Type 0} → Sym F → Val F
sym_val (leaf v) = v
sym_val (ref v) = v
sym_val (fcall v f xs) = v
sym_val (binary v op l r) = v
sym_val (unary v op r) = v

-- `SType`: the kind of an expression node.
abbrev pub s_type_of : {F : Type 0} → Sym F → SType
s_type_of (leaf v) = v.s_type
s_type_of (ref v) = v.s_type
s_type_of (fcall v f xs) = s_fcall
s_type_of (binary v op l r) = s_binary
s_type_of (unary v op r) = s_unary

module _ {F : Type 0} (fl : Floats F) where
  unfoldable pub new_anon_sym : SType → Val F
  new_anon_sym st = record {
    name = "lit";
    s_type = st;
    data_type = undef_expr_type;
    float_val = fl.f_zero;
    int_val = 0;
    str_val = "";
    bool_val = false;
    slevel = pos 0;
    is_soft = false;
  }

  unfoldable pub new_bool : Bool → Val F
  unfolding new_anon_sym
  new_bool v = record (new_anon_sym s_const) { data_type = bool_type; bool_val = v }

  unfoldable pub new_string : String → Val F
  unfolding new_anon_sym
  new_string v = record (new_anon_sym s_const) { data_type = string_type; str_val = v }

-- `s.IsOrShort(left)` and `s.IsAndShort(left)` on the operator of `s`.
abbrev pub is_or_short : TokType → Bool → Bool
is_or_short op left = same_tok op tok_log_or && left

abbrev pub is_and_short : TokType → Bool → Bool
is_and_short op left = same_tok op tok_log_and && not left
