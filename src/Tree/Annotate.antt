-- ===== src/Tree/Annotate.antt =====
-- tree/type.go: `Annotate`, which writes the types of an expression to its nodes. What it writes to a
-- symbol of the environment is seen wherever that symbol stands: those marks are kept by name.
use rips.Prelude.{
  ℕ, ◌+◌, ◌-◌, Bool, true, false, not, ◌&&◌, ◌||◌, ◌==◌, if◌then◌else◌, str_eq, String, Option,
  none, some, List, [], ◌∷◌, length, ltb,
}
use rips.Prelude.Int.{pos, eqb_ℤ}
use rips.Prelude.Result.{Result, ok, panic, ◌>>=◌}
use rips.Lex.Token.{TokType}
use rips.Types.{
  Ty, same_val, tv_bool, tv_string, te_undef, int_type, undef_type, is_type_compat, is_compat,
  is_type_undef,
}
use rips.Tree.Sym.{
  Val, Sym, leaf, ref, fcall, binary, unary, Args, no_args, arg, Func, SType, s_none, s_sect,
  s_level, s_fcall, s_var, s_const, s_unary, s_binary, sym_val, s_type_of,
}
use rips.Tree.Ops.{is_comp_op}

-- What is written to a symbol: `IsUsed`, `IsSet`, `IsReach`, and `TypeExprs[TVUndef]` as its `TExpr`.
pub record Mark : Type 0 where
  pub is_used : Bool
  pub is_set : Bool
  pub is_reach : Bool
  pub is_undef : Bool

abbrev pub Marks : Type 0
Marks = String → Mark

unfoldable pub mark : String → (Mark → Mark) → Marks → Marks
mark name f m n = if str_eq n name then f (m n) else m n

abbrev pub undef_of : {F : Type 0} → Val F → Val F
undef_of v = record v { data_type = record v.data_type { t_expr = te_undef } }

abbrev pub ref_type : Bool → Ty → Ty
ref_type b t = if b then record t { t_expr = te_undef } else t

abbrev pub last_of : List Ty → Option Ty
last_of [] = none
last_of (t ∷ []) = some t
last_of (t ∷ u ∷ ts) = last_of (u ∷ ts)

-- The type of the next argument: the last one repeats.
abbrev pub next_type : List Ty → Option Ty → Option Ty
next_type [] last = last
next_type (t ∷ ts) last = some t

abbrev pub rest_types : List Ty → List Ty
rest_types [] = []
rest_types (t ∷ ts) = ts

-- What the loop over the arguments gives: the arguments, whether all fit, and `wasused`.
pub record Annotated (F : Type 0) : Type 0 where
  pub args : Args F
  pub fits : Bool
  pub wasused : Bool

module _ {F : Type 0} where
  -- `DataType`.
  unfoldable pub type_of : Marks → Sym F → Ty
  type_of m (ref v) = ref_type (m v.name).is_undef v.data_type
  type_of m s = (sym_val s).data_type

  -- `s.DataType.TExpr = types.TypeExprs[types.TVUndef]`.
  unfoldable pub set_undef : Sym F → Marks → Sym F × Marks
  set_undef (leaf v) m = (leaf (undef_of v), m)
  set_undef (ref v) m = (ref v, mark v.name (λ k. record k { is_undef = true }) m)
  set_undef (fcall v f xs) m = (fcall (undef_of v) f xs, m)
  set_undef (binary v op l r) m = (binary (undef_of v) op l r, m)
  set_undef (unary v op r) m = (unary (undef_of v) op r, m)

  unfoldable pub set_undef_if : Bool → Sym F → Marks → Sym F × Marks
  unfolding set_undef
  set_undef_if b s m = if b then set_undef s m else (s, m)

  -- A level has a type of its own, and the first one is always reachable.
  abbrev pub mark_level : Val F → Mark → Mark
  mark_level v k = record k { is_undef = false; is_reach = eqb_ℤ v.slevel (pos 0) || k.is_reach }

  -- A symbol of the environment, by its kind. An operator or a call without an `Expr` is an error.
  unfoldable pub annotate_ref : SType → Val F → Marks → Result (Sym F × Marks)
  unfolding mark set_undef
  annotate_ref s_level v m =
      ok (ref (record v { data_type = int_type }), mark v.name (mark_level v) m)
  annotate_ref s_const v m = ok (ref v, m)
  annotate_ref s_var v m = ok (ref v, mark v.name (λ k. record k { is_used = true }) m)
  annotate_ref s_sect v m = ok (
    ref (record v { data_type = undef_type }),
    mark v.name (λ k. record k { is_undef = false }) m,
  )
  annotate_ref s_none v m = ok (ref v, m)
  annotate_ref s_fcall v m = ok (set_undef (ref v) m)
  annotate_ref s_binary v m = ok (set_undef (ref v) m)
  annotate_ref s_unary v m = ok (set_undef (ref v) m)
  annotate_ref _ v m = panic

  -- A symbol outside of the environments; its marks are not read.
  abbrev pub annotate_leaf : SType → Val F → Marks → Result (Sym F × Marks)
  annotate_leaf s_level v m = ok (leaf (record v { data_type = int_type }), m)
  annotate_leaf s_const v m = ok (leaf v, m)
  annotate_leaf s_var v m = ok (leaf v, m)
  annotate_leaf s_sect v m = ok (leaf (record v { data_type = undef_type }), m)
  annotate_leaf s_none v m = ok (leaf v, m)
  annotate_leaf s_fcall v m = ok (leaf (undef_of v), m)
  annotate_leaf s_binary v m = ok (leaf (undef_of v), m)
  annotate_leaf s_unary v m = ok (leaf (undef_of v), m)
  annotate_leaf _ v m = panic

  abbrev pub count_args : Args F → ℕ
  count_args no_args = 0
  count_args (arg x xs) = count_args xs + 1

  -- The tests on the number of arguments.
  unfoldable pub bad_arity : Func → Args F → Bool
  bad_arity f xs =
      if f.is_variadic
      then ltb (count_args xs) (length f.arg_data_types - 1)
      else not (length f.arg_data_types == count_args xs)

  -- Two pointers to one symbol of the environment.
  abbrev pub same_ref : Sym F → Option (Sym F) → Bool
  same_ref (ref u) (some (ref v)) = str_eq u.name v.name
  same_ref _ _ = false

  -- `wasused`, before the argument is annotated: for the first argument of `set` whether it was used, and
  -- for another one whether it is the first one again.
  abbrev pub was_used : Option (Sym F) → Sym F → Marks → Bool → Bool
  was_used none x m b = (m (sym_val x).name).is_used
  was_used first x m b = same_ref x first || b

  -- An argument with its type, and the errors of the arguments: they make the call undefined.
  abbrev pub arg_fits : Option Ty → Sym F → Marks → Result Bool
  unfolding type_of
  arg_fits none x m = panic
  arg_fits (some t) x m = ok (is_type_compat (type_of m x) t)

  abbrev pub or_first : Option (Sym F) → Sym F → Option (Sym F)
  or_first none x = some x
  or_first (some y) x = some y

  abbrev pub is_var : Sym F → Bool
  is_var s = elim (s_type_of s) [ s_var ↦ true | _ ↦ false ]

  -- The check of `set`, whether the call stays defined and with what marks; the first argument is not
  -- there only if the function has none.
  abbrev pub end_set : Bool → Args F → Marks → Result (Bool × Marks)
  unfolding mark type_of
  end_set wasused (arg x (arg y xs)) m =
      if not (is_var x) || not (is_type_compat (type_of m x) (type_of m y))
      then ok (false, m)
      else ok (true, mark (sym_val x).name (λ k. record k { is_set = true; is_used = wasused }) m)
  end_set wasused (arg x no_args) m = if is_var x then panic else ok (false, m)
  end_set wasused no_args m = panic

  -- The level of `trigger`.
  abbrev pub end_trigger : Args F → Marks → Result Marks
  unfolding mark
  end_trigger no_args m = panic
  end_trigger (arg x xs) m = ok (
      if (elim (s_type_of x) [ s_level ↦ true | _ ↦ false ])
      then mark (sym_val x).name (λ k. record k { is_reach = true }) m
      else m)

  unfoldable pub after_args : Val F → Func → Annotated F → Marks → Result (Sym F × Marks)
  after_args v f a m = do
    (isset, m₁) ← if str_eq v.name "set" then end_set a.wasused a.args m else ok (true, m)
    m₂ ← if str_eq v.name "trigger" then end_trigger a.args m₁ else ok m₁
    let w = record v { data_type = f.ret_type }
    ok (fcall (if a.fits && isset then w else undef_of w) (some f) a.args, m₂)

  -- The case `SBinary` and the case `SUnary`, with the operands annotated.
  unfoldable pub end_binary : Val F → TokType → Sym F → Sym F → Marks → Sym F
  unfolding type_of
  end_binary v op l r m =
      let lt = type_of m l in
      let rt = type_of m r in
      if not (is_compat lt (some rt) op) || is_type_undef lt || is_type_undef rt
      then binary (undef_of v) op l r
      else binary
          (record v { data_type = if is_comp_op op then record lt { t_val = tv_bool } else lt }) op
          l r

  unfoldable pub end_unary : Val F → TokType → Sym F → Marks → Sym F
  unfolding type_of
  end_unary v op r m =
      let rt = type_of m r in
      if not (is_compat rt none op) || is_type_undef rt
      then unary (undef_of v) op r
      else unary (record v { data_type = rt }) op r

  -- A string operand of a unary operator is made undefined, by the type it has before it is annotated.
  abbrev pub before_unary : Sym F → Marks → Marks
  unfolding type_of mark
  before_unary (ref v) m =
      if same_val v.data_type.t_val tv_string
      then mark v.name (λ k. record k { is_undef = true }) m
      else m
  before_unary s m = m

  abbrev pub string_undef : Val F → Val F
  string_undef v = if same_val v.data_type.t_val tv_string then undef_of v else v

  -- The operand itself, where it is a constant; every other node gets its type anew.
  abbrev pub string_operand : Sym F → Sym F → Sym F
  string_operand (leaf v) (leaf w) = leaf (string_undef w)
  string_operand s t = t

  unfoldable mutual
    unfolding after_args end_binary end_unary bad_arity set_undef_if type_of annotate_ref

    pub annotate : Sym F → Marks → Result (Sym F × Marks)
    annotate (leaf v) m = annotate_leaf v.s_type v m
    annotate (ref v) m = annotate_ref v.s_type v m
    annotate (fcall v none xs) m = ok (fcall (undef_of v) none xs, m)
    annotate (fcall v (some f) xs) m =
        let r = annotate_args f.arg_data_types (last_of f.arg_data_types) none false true xs m in
        if bad_arity f xs
        then ok (fcall (undef_of (record v { data_type = f.ret_type })) (some f) xs, m)
        else (r >>= λ p. after_args v f p.0 p.1)
    annotate (binary v op l r) m = do
      (l', m₁) ← annotate l m
      (r', m₂) ← annotate r m₁
      ok (end_binary v op l' r' m₂, m₂)
    annotate (unary v op r) m = do
      (r', m₁) ← annotate r (before_unary r m)
      ok (end_unary v op (string_operand r r') m₁, m₁)

    -- The loop over the arguments, with the first one, `wasused`, and whether those so far fit.
    pub annotate_args :
        List Ty
        → Option Ty
        → Option (Sym F)
        → Bool
        → Bool
        → Args F
        → Marks
        → Result (Annotated F × Marks)
    annotate_args ts last first used fits no_args m =
        ok (record { args = no_args; fits = fits; wasused = used }, m)
    annotate_args ts last first used fits (arg x xs) m = do
      (x', m₁) ← annotate x m
      fit ← arg_fits (next_type ts last) x' m₁
      let p = set_undef_if (not fit) x' m₁
      (rest, m₂) ←
          annotate_args (rest_types ts) last (or_first first x) (was_used first x m used)
            (fit && fits) xs p.1
      ok (record rest { args = arg p.0 rest.args }, m₂)
