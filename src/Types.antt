-- ===== src/Types.antt =====
-- types/type.go: the value types and the section types of expressions, when two types are
-- compatible, and which operators a value type has. `TypeVals` and `TypeExprs` hold one pointer for
-- each identifier and the program compares those pointers, so each is an enumeration here.
pub mod Laws
use rips.Prelude.{
  ℕ, Bool, true, false, ◌&&◌, ◌||◌, ◌==◌, if◌then◌else◌, Option, none, some, List, [], ◌∷◌, String,
}
use rips.Lex.Token.{
  TokType, same_tok, contains_rune, tok_mod, tok_add, tok_min, tok_mul, tok_div, tok_xor,
  tok_bit_and, tok_bit_or, tok_g, tok_l, tok_log_neg, tok_compl, tok_log_and, tok_log_or, tok_eq,
  tok_neq, tok_geq, tok_leq,
}

pub data TypeVal : Type 0 where
  tv_undef tv_univ tv_int tv_float tv_bool tv_string : TypeVal

pub data TypeExpr : Type 0 where
  te_undef te_expr te_external te_msg te_graph te_msg_graph : TypeExpr

-- The `Id` fields.
abbrev pub val_id : TypeVal → ℕ
val_id tv_undef = 0
val_id tv_univ = 1
val_id tv_int = 2
val_id tv_float = 3
val_id tv_bool = 4
val_id tv_string = 5

abbrev pub expr_id : TypeExpr → ℕ
expr_id te_undef = 0
expr_id te_expr = 1
expr_id te_external = 2
expr_id te_msg = 3
expr_id te_graph = 4
expr_id te_msg_graph = 5

abbrev pub same_val : TypeVal → TypeVal → Bool
same_val a b = val_id a == val_id b

abbrev pub same_expr : TypeExpr → TypeExpr → Bool
same_expr a b = expr_id a == expr_id b

-- `TypeVal.String` and `TypeExpr.String`.
unfoldable pub type_val_name : TypeVal → String
type_val_name tv_undef = "undef"
type_val_name tv_univ = "univ"
type_val_name tv_int = "int"
type_val_name tv_float = "float"
type_val_name tv_bool = "bool"
type_val_name tv_string = "string"

unfoldable pub type_expr_name : TypeExpr → String
type_expr_name te_undef = "eundef"
type_expr_name te_expr = "eexpr"
type_expr_name te_external = "eexternal"
type_expr_name te_msg = "emsg"
type_expr_name te_graph = "egraph"
type_expr_name te_msg_graph = "emsggraph"

pub record Ty : Type 0 where
  pub t_val : TypeVal
  pub t_expr : TypeExpr

unfoldable pub is_type_val_compat : TypeVal → TypeVal → Bool
is_type_val_compat tvp tvp2 =
    if same_val tvp tv_undef || same_val tvp2 tv_undef
    then true
    else if same_val tvp tv_univ || same_val tvp2 tv_univ
    then true
    else val_id tvp == val_id tvp2

unfoldable pub is_type_expr_compat_special : TypeExpr → TypeExpr → Bool
is_type_expr_compat_special tep tep2 =
    if same_expr tep te_msg_graph && same_expr tep2 te_msg
    then true
    else if same_expr tep te_msg_graph && same_expr tep2 te_graph
    then true
    else false

unfoldable pub is_type_expr_compat : TypeExpr → TypeExpr → Bool
unfolding is_type_expr_compat_special
is_type_expr_compat tep tep2 =
    if same_expr tep te_undef || same_expr tep2 te_undef
    then true
    else if same_expr tep te_expr || same_expr tep2 te_expr
    then true
    else if is_type_expr_compat_special tep tep2 || is_type_expr_compat_special tep2 tep
    then true
    else expr_id tep == expr_id tep2

unfoldable pub is_type_compat : Ty → Ty → Bool
unfolding is_type_val_compat is_type_expr_compat
is_type_compat tp tp2 =
    is_type_val_compat tp.t_val tp2.t_val && is_type_expr_compat tp.t_expr tp2.t_expr

unfoldable pub is_compare_op : TokType → Bool
is_compare_op op = contains_rune (tok_eq ∷ tok_g ∷ tok_l ∷ tok_neq ∷ tok_geq ∷ tok_leq ∷ []) op

unfoldable pub is_compat_op : TypeVal → TokType → Bool
unfolding is_compare_op
is_compat_op tv_int op =
    if contains_rune
      (tok_add ∷ tok_min ∷ tok_mul ∷ tok_div ∷ tok_mod ∷ tok_bit_and ∷ tok_bit_or ∷ tok_compl
        ∷ tok_xor ∷ [])
      op
    then true
    else is_compare_op op
is_compat_op tv_float op =
    if contains_rune (tok_add ∷ tok_min ∷ tok_mul ∷ tok_div ∷ []) op then true else is_compare_op op
is_compat_op tv_bool op =
    if is_compare_op op
    then true
    else same_tok op tok_log_and || same_tok op tok_log_or || same_tok op tok_log_neg
is_compat_op tv_string op = if contains_rune (tok_add ∷ []) op then true else is_compare_op op
is_compat_op tv_univ op = true
is_compat_op tv_undef op = true

-- `IsCompat`; `none` is the nil second type of a unary operation.
unfoldable pub is_compat : Ty → Option Ty → TokType → Bool
unfolding is_type_compat is_compat_op
is_compat tp none op = is_compat_op tp.t_val op
is_compat tp (some tp2) op = is_type_compat tp tp2 && is_compat_op tp.t_val op

unfoldable pub is_type_undef : Ty → Bool
is_type_undef tp = same_val tp.t_val tv_undef || same_expr tp.t_expr te_undef

abbrev pub float_type : Ty
float_type = record { t_val = tv_float; t_expr = te_expr }

abbrev pub int_type : Ty
int_type = record { t_val = tv_int; t_expr = te_expr }

abbrev pub string_type : Ty
string_type = record { t_val = tv_string; t_expr = te_expr }

abbrev pub bool_type : Ty
bool_type = record { t_val = tv_bool; t_expr = te_expr }

abbrev pub univ_type : Ty
univ_type = record { t_val = tv_univ; t_expr = te_expr }

abbrev pub undef_type : Ty
undef_type = record { t_val = tv_undef; t_expr = te_undef }

abbrev pub undef_expr_type : Ty
undef_expr_type = record { t_val = tv_undef; t_expr = te_expr }

abbrev pub msg_graph_type : Ty
msg_graph_type = record { t_val = tv_univ; t_expr = te_msg_graph }

abbrev pub msg_type : Ty
msg_type = record { t_val = tv_univ; t_expr = te_msg }

abbrev pub graph_type : Ty
graph_type = record { t_val = tv_univ; t_expr = te_graph }

abbrev pub msg_str_type : Ty
msg_str_type = record { t_val = tv_string; t_expr = te_msg }

abbrev pub msg_int_type : Ty
msg_int_type = record { t_val = tv_int; t_expr = te_msg }

abbrev pub graph_str_type : Ty
graph_str_type = record { t_val = tv_string; t_expr = te_graph }

abbrev pub graph_int_type : Ty
graph_int_type = record { t_val = tv_int; t_expr = te_graph }

abbrev pub external_str_type : Ty
external_str_type = record { t_val = tv_string; t_expr = te_external }
