-- ===== src/Tree/Ops/Laws.antt =====
-- tree/eval.go: the operators against the table of operators in types/type.go, and the bound on
-- strings.
use rips.Prelude.{ℕ, zero, suc, ◌≡◌, refl, ◌⊎◌, true, false, String, some, ◌≤◌, ap, arith}
use Prim.Native.String.{count, ◌++◌}
use text.Mathlib.TextLemmas.{length-cons, length-nil}
use rips.Lex.Token.{TokType, tok_div, tok_mod}
use rips.Types.{
  TypeVal, Ty, is_compat, is_type_compat, is_type_val_compat, is_type_expr_compat, is_compat_op,
  is_type_undef, te_expr, tv_undef, tv_univ, tv_int, tv_float, tv_bool, tv_string,
}
use rips.Tree.Sym.{Floats, Val}
use rips.Tree.Ops.{
  OpResult, done, failed, trapped, panics, divide_by_zero, int_op, float_op, bool_op, str_op,
  op_val, bin_expr, concat, take_runes, op_by_type, max_str, recovered,
}

count-take_runes : (n : ℕ) (s : String) → count (take_runes n s) ≤ n
count-take_runes zero s = omega (arith, length-nil)
count-take_runes (suc n) String.[] = omega (arith, length-nil)
count-take_runes (suc n) (String.◌∷◌ c s) =
    omega (arith, length-cons c (take_runes n s), count-take_runes n s)

-- The sum of two strings never has more than `MaxStr` runes, and it is their concatenation if that
-- has no more.
pub concat_bounded :
    (a b : String)
    → (count (concat a b) ≤ max_str) × (count (a ++ b) ≤ max_str → concat a b ≡ a ++ b)
unfolding concat
concat_bounded a b = ground (arith, count-take_runes max_str (a ++ b))

-- The value types that an expression of a checked program evaluates to.
abbrev pub IsPlain : TypeVal → Type 0
IsPlain tv_undef = ⊥
IsPlain tv_univ = ⊥
IsPlain _ = Unit

abbrev pub plain : TypeVal → Ty
plain tv = record { t_val = tv; t_expr = te_expr }

-- How an operation on operands of one type ends, if the type has the operator: with a value of that
-- type, or with the error of a division.
abbrev pub EndsWell : {F : Type 0} → TypeVal → Val F → TokType → OpResult F → Type 0
EndsWell tv b op (done r) = r.data_type ≡ plain tv
EndsWell tv b op (failed r e) =
    (e ≡ divide_by_zero) × (tv ≡ tv_int) × (b.int_val ≡ 0) × ((op ≡ tok_div) ⊎ (op ≡ tok_mod))
EndsWell tv b op (trapped r e) = ⊥
EndsWell tv b op panics = ⊥

module _ {F : Type 0} (fl : Floats F) (a b : Val F) where
  int_op-EndsWell :
      (op : TokType)
      → a.data_type ≡ plain tv_int
      → EndsWell tv_int b op (recovered (int_op a (some b) op))
  unfolding int_op
  int_op-EndsWell tok_div h = ground arith
  int_op-EndsWell tok_mod h = ground arith
  int_op-EndsWell _ h = h

  float_op-EndsWell :
      (op : TokType)
      → a.data_type ≡ plain tv_float
      → EndsWell tv_float b op (recovered (float_op fl a (some b) op))
  unfolding float_op
  float_op-EndsWell tok_div h = h
  float_op-EndsWell _ h = h

  bool_op-EndsWell :
      (op : TokType)
      → a.data_type ≡ plain tv_bool
      → EndsWell tv_bool b op (recovered (bool_op a (some b) op))
  unfolding bool_op
  bool_op-EndsWell tok_div h = h
  bool_op-EndsWell _ h = h

  str_op-EndsWell :
      (op : TokType)
      → a.data_type ≡ plain tv_string
      → EndsWell tv_string b op (recovered (str_op a (some b) op))
  unfolding str_op
  str_op-EndsWell tok_div h = h
  str_op-EndsWell _ h = h

  op_val-op_by_type :
      (tv : TypeVal) (op : TokType)
      → is_type_undef (plain tv) ≡ false
      → a.data_type ≡ plain tv
      → b.data_type ≡ plain tv
      → op_val fl a (some b) op ≡ op_by_type fl tv a (some b) op
  unfolding op_val
  op_val-op_by_type tv op known ha hb =
      let e : is_type_undef b.data_type ≡ false = rw hb known in
      rw e (rw (ap (λ (t : Ty). t.t_val) ha) refl)

  op_by_type-EndsWell :
      (tv : TypeVal) (op : TokType)
      → IsPlain tv
      → a.data_type ≡ plain tv
      → EndsWell tv b op (op_by_type fl tv a (some b) op)
  unfolding op_by_type
  op_by_type-EndsWell tv_int op p h = int_op-EndsWell op h
  op_by_type-EndsWell tv_float op p h = float_op-EndsWell op h
  op_by_type-EndsWell tv_bool op p h = bool_op-EndsWell op h
  op_by_type-EndsWell tv_string op p h = str_op-EndsWell op h
  op_by_type-EndsWell tv_undef op p h = absurd p
  op_by_type-EndsWell tv_univ op p h = absurd p

  plain-known : (tv : TypeVal) → IsPlain tv → is_type_undef (plain tv) ≡ false
  unfolding is_type_undef
  plain-known tv p = ground arith

  plain-compat :
      (tv : TypeVal) (op : TokType)
      → is_compat_op tv op ≡ true
      → is_compat (plain tv) (some (plain tv)) op ≡ true
  unfolding is_compat is_type_compat is_type_val_compat is_type_expr_compat
  plain-compat tv op h = ground arith

  -- An operation on two values of one type, which is int, float, bool or string, that the table of
  -- operators allows for that type, ends with a value of that type. The only error is that of an
  -- integer division or remainder by 0, and there is no panic.
  pub bin_expr-EndsWell :
      (tv : TypeVal) (op : TokType)
      → IsPlain tv
      → a.data_type ≡ plain tv
      → b.data_type ≡ plain tv
      → is_compat_op tv op ≡ true
      → EndsWell tv b op (bin_expr fl a b op)
  unfolding bin_expr
  bin_expr-EndsWell tv op p ha hb h =
      let c : is_compat a.data_type (some b.data_type) op ≡ true =
        rw (ha, hb) (plain-compat tv op h) in
      rw c (rw (op_val-op_by_type tv op (plain-known tv p) ha hb) (op_by_type-EndsWell tv op p ha))
