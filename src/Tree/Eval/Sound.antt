-- ===== src/Tree/Eval/Sound.antt =====
-- tree/eval.go: the evaluation of an expression of operators on constants and variables that follows
-- the table of operators.
mod Tests
use rips.Prelude.{
  ◌≡◌, refl, sym, ap, ◌∙◌, Bool, true, false, ◌||◌, if◌then◌else◌, String, Option, none, some,
  arith, ◌⊎◌, inl, inr,
}
use rips.Prelude.Result.{Result, ok, fatal, panic, ◌>>=◌}
use rips.Lex.Token.{TokType, tok_div, tok_mod}
use rips.Types.{TypeVal, tv_bool, tv_float, tv_int, tv_string, tv_undef, tv_univ, is_compat_op}
use rips.Tree.Sym.{
  Floats, Val, Sym, SType, leaf, ref, binary, s_const, s_var, is_or_short, is_and_short,
}
use rips.Tree.Ops.{
  OpResult, done, failed, trapped, panics, is_comp_op, bool_expr, bin_expr, copy_val_from,
}
use rips.Tree.Ops.Laws.{EndsWell, IsPlain, plain, bin_expr-EndsWell}
use rips.Tree.Eval.{Machine, eval_expr, eval_leaf, after_left, end_binary, finish, fresh}

-- A comparison gives a Boolean, another operator the type of its operands.
abbrev pub result_type : TokType → TypeVal → TypeVal
result_type op tv = if is_comp_op op then tv_bool else tv

-- The expression has the type, for variables of the types that `types` gives.
pub data HasType {F : Type 0} (types : String → Option TypeVal) : TypeVal → Sym F → Type 0 where
  of_const :
      (t : TypeVal) (v : Val F)
      → v.s_type ≡ s_const
      → v.data_type ≡ plain t
      → HasType types t (leaf v)
  of_var :
      (t : TypeVal) (v : Val F) → v.s_type ≡ s_var → types v.name ≡ some t → HasType types t (ref v)
  of_op :
      (t tv : TypeVal) (v : Val F) (op : TokType) (l r : Sym F)
      → t ≡ result_type op tv
      → IsPlain tv
      → is_compat_op tv op ≡ true
      → HasType types tv l
      → HasType types tv r
      → HasType types t (binary v op l r)

-- The expression has a division or a remainder.
abbrev pub HasDivision : {F : Type 0} → Sym F → Type 0
HasDivision (binary v op l r) = ((op ≡ tok_div) ⊎ (op ≡ tok_mod)) ⊎ HasDivision l ⊎ HasDivision r
HasDivision _ = ⊥

-- The evaluation ends with a value of the type in the state it began in, or with a fatal error, and
-- then `P` holds.
abbrev pub Sound : {F W : Type 0} → Type 0 → TypeVal → W → Result (Val F × W) → Type 0
Sound P t w (ok (v, w')) = (v.data_type ≡ plain t) × (w' ≡ w)
Sound P t w fatal = P
Sound P t w panic = ⊥

module _ {F W : Type 0} (fl : Floats F) (m : Machine F W) (types : String → Option TypeVal) (w : W)
    (agrees : (x : String) (t : TypeVal)
      → types x ≡ some t
      → (v : Val F) × (m.get_val x w ≡ some v) × (v.data_type ≡ plain t)) where
  bind-Sound :
      (P Q : Type 0) (t u : TypeVal) (r : Result (Val F × W)) (f : Val F × W → Result (Val F × W))
      → (P → Q)
      → Sound P t w r
      → ((v : Val F) → v.data_type ≡ plain t → Sound Q u w (f (v, w)))
      → Sound Q u w (r >>= f)
  bind-Sound P Q t u (ok (v, w')) f i h k = rw (h.1) (k v h.0)
  bind-Sound P Q t u fatal f i h k = i h
  bind-Sound P Q t u panic f i h k = h

  copy_val_from-data_type : (s a : Val F) → (copy_val_from s a).data_type ≡ a.data_type
  unfolding copy_val_from
  copy_val_from-data_type s a = ground arith

  finish-data_type :
      (tv : TypeVal) (op : TokType) (v : Val F)
      → v.data_type ≡ plain tv
      → (finish fl op v).data_type ≡ plain (result_type op tv)
  unfolding bool_expr
  finish-data_type tv op v h = ground arith

  end_binary-Sound :
      (P : Type 0) (tv : TypeVal) (op : TokType) (b : Val F) (r : OpResult F)
      → ((op ≡ tok_div) ⊎ (op ≡ tok_mod) → P)
      → EndsWell tv b op r
      → Sound P (result_type op tv) w (end_binary fl true op w r)
  end_binary-Sound P tv op b (done v) i h = (finish-data_type tv op v h, refl)
  end_binary-Sound P tv op b (failed v e) i (e', int, zero, d) = i d
  end_binary-Sound P tv op b (trapped v e) i h = h
  end_binary-Sound P tv op b panics i h = h

  if-Sound :
      (P : Type 0) (t : TypeVal) (b : Bool) (r q : Result (Val F × W))
      → Sound P t w r
      → Sound P t w q
      → Sound P t w (if b then r else q)
  if-Sound P t true r q h k = h
  if-Sound P t false r q h k = k

  const-Sound :
      (t : TypeVal) (k : SType) (v : Val F)
      → k ≡ s_const
      → v.data_type ≡ plain t
      → Sound ⊥ t w (eval_leaf fl m true k v w)
  unfolding eval_leaf
  const-Sound t k v e h = rw e (copy_val_from-data_type (fresh fl) v ∙ h, refl)

  same : (x y : Val F) → ◌≡◌ {A = Option (Val F)} (some x) (some y) → x ≡ y
  same x y e = cc

  read-Sound :
      (t : TypeVal) (o : Option (Val F)) (x : Val F)
      → o ≡ some x
      → x.data_type ≡ plain t
      → Sound ⊥ t w (elim o [ none ↦ panic | some y ↦ ok (y, w) ])
  read-Sound t none x e h = cc
  read-Sound t (some y) x e h = (ap (λ (u : Val F). u.data_type) (same y x e) ∙ h, refl)

  var-Sound :
      (t : TypeVal) (k : SType) (v : Val F)
      → k ≡ s_var
      → (x : Val F) × (m.get_val v.name w ≡ some x) × (x.data_type ≡ plain t)
      → Sound ⊥ t w (eval_leaf fl m true k v w)
  unfolding eval_leaf
  var-Sound t k v e (x, g, h) = rw e (read-Sound t (m.get_val v.name w) x g h)

  -- Where each variable has a value of the type that `types` gives, the evaluation of an expression
  -- of constants, variables and operators that follows the table of operators does not panic: it ends
  -- with a value of the type of the expression and changes nothing, or it ends with a fatal error and
  -- the expression has a division or a remainder.
  pub eval_expr-Sound :
      (t : TypeVal) (s : Sym F)
      → HasType types t s
      → Sound (HasDivision s) t w (eval_expr fl m true s w)
  unfolding eval_expr
  eval_expr-Sound _ _ (of_const t v k h) = const-Sound t v.s_type v k h
  eval_expr-Sound _ _ (of_var t v k h) = var-Sound t v.s_type v k (agrees v.name t h)
  eval_expr-Sound _ _ (of_op t tv v op l r e p c hl hr) =
      let Q : Type 0 = ((op ≡ tok_div) ⊎ (op ≡ tok_mod)) ⊎ HasDivision l ⊎ HasDivision r in
      let u = result_type op tv in
      rw e (
        bind-Sound (HasDivision l) Q tv u _ _ (λ d. inr (inl d)) (eval_expr-Sound tv l hl)
          (λ a ha.
            let val = copy_val_from (fresh fl) a in
            let hv : val.data_type ≡ plain tv = copy_val_from-data_type (fresh fl) a ∙ ha in
            if-Sound Q u (is_or_short op val.bool_val || is_and_short op val.bool_val) _ _
              (finish-data_type tv op val hv, refl)
              (bind-Sound (HasDivision r) Q tv u _ _ (λ d. inr (inr d)) (eval_expr-Sound tv r hr)
                (λ b hb.
                  end_binary-Sound Q tv op b _ (λ d. inl d)
                    (bin_expr-EndsWell fl val b tv op p hv hb c)))))
