-- ===== src/Tree/Ops.antt =====
-- tree/eval.go: the operators on values. A Go method changes its receiver and returns an error; here
-- it returns the changed value, marked with the error.
pub mod Laws
mod Tests
use rips.Prelude.{
  ℕ, zero, suc, Bool, true, false, not, ◌&&◌, ◌||◌, ◌==◌, if◌then◌else◌, str_eq, String, Option,
  none, some, List, [], ◌∷◌, ltb, ◌*◌,
}
use Prim.Native.String.{compare, count, ◌++◌}
use text.Mathlib.Text.{is_lt, is_le}
use rips.Prelude.Int64.{add64, sub64, mul64, quo64, rem64, and64, or64, xor64, not64, slt}
use rips.Lex.Token.{
  TokType, same_tok, contains_rune, tok_mod, tok_add, tok_min, tok_mul, tok_div, tok_xor,
  tok_bit_and, tok_bit_or, tok_g, tok_l, tok_log_neg, tok_compl, tok_log_and, tok_log_or, tok_eq,
  tok_neq, tok_geq, tok_leq,
}
use rips.Types.{
  TypeVal, Ty, is_compat, is_type_undef, tv_undef, tv_univ, tv_int, tv_float, tv_bool, tv_string,
}
use rips.Tree.Sym.{Floats, Val}

-- The messages of the errors, by kind.
pub data OpErr : Type 0 where
  undef_int_op undef_float_op undef_bool_op undef_str_op undef_unary_str_op : OpErr
  unsupported_comparison divide_by_zero bad_op incompatible_types : OpErr

-- How an operator ends: without an error, with an error that it returns, with a runtime error that
-- `OpVal` recovers from (`trapped`), or with one that it does not, the use of a nil operand.
pub data OpResult (F : Type 0) : Type 0 where
  done : Val F → OpResult F
  failed : Val F → OpErr → OpResult F
  trapped : Val F → OpErr → OpResult F
  panics : OpResult F

-- The map `isCompOp`.
unfoldable pub is_comp_op : TokType → Bool
is_comp_op op = contains_rune (tok_g ∷ tok_l ∷ tok_eq ∷ tok_neq ∷ tok_geq ∷ tok_leq ∷ []) op

-- A type with the comparisons that Go has on it.
pub record CompType (T : Type 0) : Type 0 where
  pub lt : T → T → Bool
  pub le : T → T → Bool
  pub eq : T → T → Bool

unfoldable pub comp_op : {T : Type 0} → CompType T → T → T → TokType → Option Bool
comp_op c v1 v2 tok_l = some (c.lt v1 v2)
comp_op c v1 v2 tok_g = some (c.lt v2 v1)
comp_op c v1 v2 tok_eq = some (c.eq v1 v2)
comp_op c v1 v2 tok_neq = some (not (c.eq v1 v2))
comp_op c v1 v2 tok_geq = some (c.le v2 v1)
comp_op c v1 v2 tok_leq = some (c.le v1 v2)
comp_op c v1 v2 _ = none

abbrev pub int_comp : CompType ℕ
int_comp = record { lt = slt; le = λ a b. not (slt b a); eq = ◌==◌ }

abbrev pub str_comp : CompType String
str_comp = record { lt = λ a b. is_lt (compare a b); le = λ a b. is_le (compare a b); eq = str_eq }

-- `[]rune(s)` cut to its first `n` runes.
abbrev pub take_runes : ℕ → String → String
take_runes zero s = String.[]
take_runes (suc n) String.[] = String.[]
take_runes (suc n) (String.◌∷◌ c s) = String.◌∷◌ c (take_runes n s)

abbrev pub max_str : ℕ
max_str = 4 * 1024

unfoldable pub int_from_bool : Bool → ℕ
int_from_bool true = 1
int_from_bool false = 0

abbrev set_t_val : {F : Type 0} → Val F → TypeVal → Val F
set_t_val s tv = record s { data_type = record (s.data_type) { t_val = tv } }

abbrev set_bool : {F : Type 0} → Val F → Option Bool → Val F
set_bool s (some b) = record s { bool_val = b }
set_bool s none = s

-- `return err` after `s.BoolVal, err = CompOp(…)`, which sets `s.BoolVal` to false on an error.
abbrev compared : {F : Type 0} → Val F → Option Bool → OpResult F
compared s (some b) = done (record s { bool_val = b })
compared s none = failed (record s { bool_val = false }) unsupported_comparison

-- The `switch` of `IntOp`.
int_arith : {F : Type 0} → Val F → ℕ → TokType → OpResult F
int_arith s v tok_xor = done (record s { int_val = xor64 s.int_val v })
int_arith s v tok_compl = done (record s { int_val = not64 v })
int_arith s v tok_add = done (record s { int_val = add64 s.int_val v })
int_arith s v tok_min = done (record s { int_val = sub64 s.int_val v })
int_arith s v tok_mul = done (record s { int_val = mul64 s.int_val v })
int_arith s v tok_div =
    if v == 0 then trapped s divide_by_zero else done (record s { int_val = quo64 s.int_val v })
int_arith s v tok_mod =
    if v == 0 then trapped s divide_by_zero else done (record s { int_val = rem64 s.int_val v })
int_arith s v tok_bit_and = done (record s { int_val = and64 s.int_val v })
int_arith s v tok_bit_or = done (record s { int_val = or64 s.int_val v })
int_arith s v _ = failed s undef_int_op

-- A nil operand makes the operation unary: 0 op s.
unfoldable pub int_op : {F : Type 0} → Val F → Option (Val F) → TokType → OpResult F
unfolding int_arith comp_op is_comp_op
int_op s none op =
    int_arith (set_bool (record s { int_val = 0 }) (comp_op int_comp 0 s.int_val op)) s.int_val op
int_op s (some s2) op =
    int_arith (set_bool s (comp_op int_comp s.int_val s2.int_val op)) s2.int_val op

module _ {F : Type 0} (fl : Floats F) where
  abbrev float_comp : CompType F
  float_comp = record { lt = fl.f_lt; le = fl.f_le; eq = fl.f_eq }

  float_arith : Val F → F → TokType → OpResult F
  float_arith s v tok_add = done (record s { float_val = fl.f_add s.float_val v })
  float_arith s v tok_min = done (record s { float_val = fl.f_sub s.float_val v })
  float_arith s v tok_mul = done (record s { float_val = fl.f_mul s.float_val v })
  float_arith s v tok_div = done (record s { float_val = fl.f_div s.float_val v })
  float_arith s v _ = failed s undef_float_op

  float_binary : Val F → F → TokType → OpResult F
  unfolding float_arith comp_op is_comp_op
  float_binary s v op =
      if is_comp_op op then compared s (comp_op float_comp s.float_val v op) else float_arith s v op

  unfoldable pub float_op : Val F → Option (Val F) → TokType → OpResult F
  unfolding float_binary
  float_op s none op = float_binary (record s { float_val = fl.f_zero }) s.float_val op
  float_op s (some s2) op = float_binary s s2.float_val op

-- The second operand is read only where Go reads it: `&&` and `||` are short here too.
unfoldable pub bool_op : {F : Type 0} → Val F → Option (Val F) → TokType → OpResult F
unfolding comp_op is_comp_op int_from_bool
bool_op s (some s2) op =
    if is_comp_op op
    then compared s (comp_op int_comp (int_from_bool s.bool_val) (int_from_bool s2.bool_val) op)
    else if same_tok op tok_log_neg
    then done (record s { bool_val = not s.bool_val })
    else if same_tok op tok_log_and
    then done (record s { bool_val = s.bool_val && s2.bool_val })
    else if same_tok op tok_log_or
    then done (record s { bool_val = s.bool_val || s2.bool_val })
    else failed s undef_bool_op
bool_op s none op =
    if is_comp_op op
    then panics
    else if same_tok op tok_log_neg
    then done (record s { bool_val = not s.bool_val })
    else if same_tok op tok_log_and
    then (if s.bool_val then panics else done s)
    else if same_tok op tok_log_or
    then (if s.bool_val then done s else panics)
    else failed s undef_bool_op

-- `+` on strings, cut to `MaxStr` runes.
unfoldable pub concat : String → String → String
concat a b = if ltb max_str (count (a ++ b)) then take_runes max_str (a ++ b) else a ++ b

unfoldable pub str_op : {F : Type 0} → Val F → Option (Val F) → TokType → OpResult F
unfolding comp_op is_comp_op concat
str_op s none op =
    if same_tok op tok_add
    then failed s undef_unary_str_op
    else if is_comp_op op
    then panics
    else failed s undef_str_op
str_op s (some s2) op =
    if same_tok op tok_add
    then failed (record s { str_val = concat s.str_val s2.str_val }) undef_str_op
    else if is_comp_op op
    then compared s (comp_op str_comp s.str_val s2.str_val op)
    else failed s undef_str_op

-- The errors that the four operators return are dropped by the `switch` of `OpVal`; a runtime
-- error of an operation is turned into an error.
abbrev recovered : {F : Type 0} → OpResult F → OpResult F
recovered (done s) = done s
recovered (failed s e) = done s
recovered (trapped s e) = failed s e
recovered panics = panics

module _ {F : Type 0} (fl : Floats F) where
  op_by_type : TypeVal → Val F → Option (Val F) → TokType → OpResult F
  unfolding int_op float_op str_op bool_op
  op_by_type tv_int s s2 op = recovered (int_op s s2 op)
  op_by_type tv_float s s2 op = recovered (float_op fl s s2 op)
  op_by_type tv_string s s2 op = recovered (str_op s s2 op)
  op_by_type tv_bool s s2 op = recovered (bool_op s s2 op)
  op_by_type tv_undef s s2 op = done s
  op_by_type tv_univ s s2 op = failed s bad_op

  unfoldable pub op_val : Val F → Option (Val F) → TokType → OpResult F
  unfolding op_by_type is_type_undef
  op_val s none op = op_by_type s.data_type.t_val s none op
  op_val s (some s2) op =
      let s' = if is_type_undef s2.data_type then set_t_val s tv_undef else s in
      op_by_type s'.data_type.t_val s' (some s2) op

  unfoldable pub bin_expr : Val F → Val F → TokType → OpResult F
  unfolding op_val is_compat
  bin_expr s s2 op =
      if not (is_compat s.data_type (some s2.data_type) op)
      then failed (set_t_val s tv_undef) incompatible_types
      else op_val s (some s2) op

  unfoldable pub unary_expr : Val F → TokType → OpResult F
  unfolding op_val is_compat
  unary_expr s op =
      if not (is_compat s.data_type none op)
      then failed (set_t_val s tv_undef) incompatible_types
      else op_val s none op

-- `CopyValFrom` of a symbol with no value of its own: the field of the type that `s2` has. An
-- unknown type copies nothing but the type.
copy_field : {F : Type 0} → TypeVal → Val F → Val F → Val F
copy_field tv_bool s s2 = record s { bool_val = s2.bool_val }
copy_field tv_int s s2 = record s { int_val = s2.int_val }
copy_field tv_float s s2 = record s { float_val = s2.float_val }
copy_field tv_string s s2 = record s { str_val = s2.str_val }
copy_field _ s s2 = s

unfoldable pub copy_val_from : {F : Type 0} → Val F → Val F → Val F
unfolding copy_field
copy_val_from s s2 = copy_field s2.data_type.t_val (record s { data_type = s2.data_type }) s2

-- `BoolExpr`.
unfoldable pub bool_expr : {F : Type 0} → Val F → Val F
bool_expr s = set_t_val s tv_bool
