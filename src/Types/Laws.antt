-- ===== src/Types/Laws.antt =====
-- types/type.go: compatibility of types against an independent description.
use rips.Prelude.{◌≡◌, ◌↔◌, ◌⊎◌, true, ◌||◌, arith}
use rips.Types.{
  TypeVal, TypeExpr, Ty, is_type_val_compat, is_type_expr_compat, is_type_compat, tv_undef, tv_univ,
  te_undef, te_expr, te_msg, te_graph, te_msg_graph, msg_type, graph_type, msg_graph_type,
}

-- A value type that stands for any other.
abbrev pub IsAnyVal : TypeVal → Type 0
IsAnyVal v = (v ≡ tv_undef) ⊎ (v ≡ tv_univ)

abbrev pub IsAnyExpr : TypeExpr → Type 0
IsAnyExpr e = (e ≡ te_undef) ⊎ (e ≡ te_expr)

-- The type of the Message section covers those of the Msg and the Graph sections.
abbrev pub Covers : TypeExpr → TypeExpr → Type 0
Covers e f = (e ≡ te_msg_graph) × ((f ≡ te_msg) ⊎ (f ≡ te_graph))

abbrev pub ValsAgree : TypeVal → TypeVal → Type 0
ValsAgree v w = (v ≡ w) ⊎ IsAnyVal v ⊎ IsAnyVal w

abbrev pub ExprsAgree : TypeExpr → TypeExpr → Type 0
ExprsAgree e f = (e ≡ f) ⊎ IsAnyExpr e ⊎ IsAnyExpr f ⊎ Covers e f ⊎ Covers f e

is_type_val_compat_iff : (v w : TypeVal) → (is_type_val_compat v w ≡ true) ↔ ValsAgree v w
unfolding is_type_val_compat
is_type_val_compat_iff v w = ground arith

is_type_expr_compat_iff : (e f : TypeExpr) → (is_type_expr_compat e f ≡ true) ↔ ExprsAgree e f
unfolding is_type_expr_compat
is_type_expr_compat_iff e f = ground arith

-- Two types are compatible exactly when their value types are equal or one of them is undef or
-- univ, and their section types are equal, or one is undef or plain expression, or one is that of
-- the Message section and the other that of the Msg or the Graph section.
is_type_compat_iff :
    (s t : Ty)
    → (is_type_compat s t ≡ true) ↔ (ValsAgree s.t_val t.t_val × ExprsAgree s.t_expr t.t_expr)
unfolding is_type_compat
is_type_compat_iff s t =
    ground
      (arith, is_type_val_compat_iff s.t_val t.t_val, is_type_expr_compat_iff s.t_expr t.t_expr)

is_type_val_compat_symm : (v w : TypeVal) → is_type_val_compat v w ≡ is_type_val_compat w v
unfolding is_type_val_compat
is_type_val_compat_symm v w = ground arith

is_type_expr_compat_symm : (e f : TypeExpr) → is_type_expr_compat e f ≡ is_type_expr_compat f e
unfolding is_type_expr_compat
is_type_expr_compat_symm e f = ground arith

-- Compatibility does not depend on the order of the two types.
is_type_compat_symm : (s t : Ty) → is_type_compat s t ≡ is_type_compat t s
unfolding is_type_compat
is_type_compat_symm s t =
    cc (is_type_val_compat_symm s.t_val t.t_val, is_type_expr_compat_symm s.t_expr t.t_expr)

-- A type is accepted in the Message section exactly when it is accepted in the Msg section or in
-- the Graph section.
message_section :
    (t : Ty)
    → is_type_compat msg_graph_type t ≡ (is_type_compat msg_type t || is_type_compat graph_type t)
unfolding is_type_compat is_type_val_compat is_type_expr_compat
message_section t = ground arith
