-- ===== src/Tree/Check/Typed.antt =====
-- tree/type.go: what `Annotate` writes to an expression of constants, variables and operators.
use mathlib.Core.Path.{subst}
use rips.Prelude.{
  ◌≡◌, refl, sym, ◌∙◌, Bool, true, false, not, ◌&&◌, ◌||◌, if◌then◌else◌, String, Option, some,
  arith, ◌⊎◌, inl, inr,
}
use rips.Prelude.Result.{Result, ok, fatal, panic, ◌>>=◌}
use rips.Lex.Token.{TokType}
use rips.Types.{
  Ty, TypeVal, tv_bool, tv_float, tv_int, tv_string, tv_undef, tv_univ, te_undef, is_compat,
  is_compat_op, is_type_compat, is_type_val_compat, is_type_expr_compat, is_type_undef,
}
use rips.Tree.Sym.{Val, Sym, SType, leaf, ref, fcall, binary, unary, s_const, s_var}
use rips.Tree.Ops.{is_comp_op}
use rips.Tree.Ops.Laws.{IsPlain, plain}
use rips.Tree.Eval.Sound.{HasType, of_const, of_var, of_op, result_type}
use rips.Tree.Annotate.{Marks, mark, type_of, annotate, annotate_leaf, annotate_ref, end_binary}

compat-same :
    (a b : TypeVal) → IsPlain a → IsPlain b → is_type_compat (plain a) (plain b) ≡ true → a ≡ b
unfolding is_type_compat is_type_val_compat is_type_expr_compat
compat-same tv_int tv_int p q h = refl
compat-same tv_int tv_float p q h = cc
compat-same tv_int tv_bool p q h = cc
compat-same tv_int tv_string p q h = cc
compat-same tv_float tv_int p q h = cc
compat-same tv_float tv_float p q h = refl
compat-same tv_float tv_bool p q h = cc
compat-same tv_float tv_string p q h = cc
compat-same tv_bool tv_int p q h = cc
compat-same tv_bool tv_float p q h = cc
compat-same tv_bool tv_bool p q h = refl
compat-same tv_bool tv_string p q h = cc
compat-same tv_string tv_int p q h = cc
compat-same tv_string tv_float p q h = cc
compat-same tv_string tv_bool p q h = cc
compat-same tv_string tv_string p q h = refl
compat-same tv_undef b p q h = absurd p
compat-same tv_int tv_undef p q h = absurd q
compat-same tv_float tv_undef p q h = absurd q
compat-same tv_bool tv_undef p q h = absurd q
compat-same tv_string tv_undef p q h = absurd q
compat-same tv_univ b p q h = absurd p
compat-same tv_int tv_univ p q h = absurd q
compat-same tv_float tv_univ p q h = absurd q
compat-same tv_bool tv_univ p q h = absurd q
compat-same tv_string tv_univ p q h = absurd q

and-both : (a b : Bool) → (a && b) ≡ true → (a ≡ true) × (b ≡ true)
and-both true true h = (refl, refl)
and-both true false h = cc
and-both false b h = cc

or-none : (a b c : Bool) → (not a || b || c) ≡ false → (a ≡ true) × (b ≡ false) × (c ≡ false)
or-none true false false h = (refl, refl, refl)
or-none true false true h = cc
or-none true true c h = cc
or-none false b c h = cc

pub undef-is : (t : Ty) → t.t_expr ≡ te_undef → is_type_undef t ≡ true
unfolding is_type_undef
undef-is t h = rw h (or-true _)
  where
    or-true : (b : Bool) → (b || true) ≡ true
    or-true true = refl
    or-true false = refl

result-IsPlain : (b : Bool) (t : TypeVal) → IsPlain t → IsPlain (if b then tv_bool else t)
result-IsPlain true t p = tt
result-IsPlain false t p = p

-- An expression of constants, variables and binary operators, with the types that its constants and
-- variables are declared with. The types of its operators are not set.
abbrev pub Declared : {F : Type 0} → (String → Option TypeVal) → Sym F → Type 0
Declared types (leaf v) = (t : TypeVal) × IsPlain t × (v.s_type ≡ s_const) × (v.data_type ≡ plain t)
Declared types (ref v) =
    (t : TypeVal) × IsPlain t
    × (v.s_type ≡ s_var)
    × (v.data_type ≡ plain t)
    × (types v.name ≡ some t)
Declared types (binary v op l r) = Declared types l × Declared types r
Declared types _ = ⊥

if-plain :
    (b : Bool) (a : TypeVal)
    → (if b then plain tv_bool else plain a) ≡ plain (if b then tv_bool else a)
if-plain true a = refl
if-plain false a = refl

-- The test of `SBinary` on the types of its operands.
abbrev pub no_ty : TokType → Ty → Ty → Bool
no_ty op t u = not (is_compat t (some u) op) || is_type_undef t || is_type_undef u

-- No symbol has been made undefined.
abbrev pub Clean : Marks → Type 0
Clean m = (n : String) → (m n).is_undef ≡ false

used-Clean :
    (n : String) (m : Marks) → Clean m → Clean (mark n (λ k. record k { is_used = true }) m)
unfolding mark
used-Clean n m h x = ground (arith, h x)

module _ {F : Type 0} (types : String → Option TypeVal) where
  -- The node is undefined, or it has the type written to it.
  abbrev pub Typed : Marks → Sym F → Type 0
  Typed m s =
      ((type_of m s).t_expr ≡ te_undef)
      ⊎ ((t : TypeVal) × IsPlain t × (type_of m s ≡ plain t) × HasType types t s)

  abbrev pub Post : Result (Sym F × Marks) → Type 0
  Post (ok (s, m)) = Clean m × Declared types s × Typed m s
  Post fatal = ⊥
  Post panic = ⊥

  pub ref_type-Clean : (m : Marks) (v : Val F) → Clean m → type_of m (ref v) ≡ v.data_type
  unfolding type_of
  ref_type-Clean m v h = rw (h v.name) refl

  leaf-Post :
      (k : SType) (t : TypeVal) (v : Val F) (m : Marks)
      → k ≡ s_const
      → v.s_type ≡ s_const
      → IsPlain t
      → v.data_type ≡ plain t
      → Clean m
      → Post (annotate_leaf k v m)
  unfolding type_of
  leaf-Post k t v m e e' p d h = rw e (h, (t, p, e', d), inr (t, p, d, of_const t v e' d))

  ref-Post :
      (k : SType) (t : TypeVal) (v : Val F) (m : Marks)
      → k ≡ s_var
      → v.s_type ≡ s_var
      → IsPlain t
      → v.data_type ≡ plain t
      → types v.name ≡ some t
      → Clean m
      → Post (annotate_ref k v m)
  unfolding annotate_ref
  ref-Post k t v m e e' p d g h =
      let h' = used-Clean v.name m h in
      rw e (h', (t, p, e', d, g), inr (t, p, ref_type-Clean _ v h' ∙ d, of_var t v e' g))

  type_of-Clean : (m m' : Marks) (s : Sym F) → Clean m → Clean m' → type_of m s ≡ type_of m' s
  unfolding type_of
  type_of-Clean m m' (ref v) h h' = ref_type-Clean m v h ∙ sym (ref_type-Clean m' v h')
  type_of-Clean m m' (leaf v) h h' = refl
  type_of-Clean m m' (fcall v f xs) h h' = refl
  type_of-Clean m m' (binary v op l r) h h' = refl
  type_of-Clean m m' (unary v op r) h h' = refl

  Typed-Clean : (m m' : Marks) (s : Sym F) → Clean m → Clean m' → Typed m s → Typed m' s
  Typed-Clean m m' s h h' k = rw (type_of-Clean m' m s h' h) k

  abbrev pub no_type : Marks → TokType → Sym F → Sym F → Bool
  no_type m op l r = no_ty op (type_of m l) (type_of m r)

  bad-Typed :
      (m : Marks) (v : Val F) (op : TokType) (l r : Sym F)
      → no_type m op l r ≡ true
      → Typed m (end_binary v op l r m)
  unfolding end_binary type_of
  bad-Typed m v op l r h = rw h (inl refl)

  good-Typed :
      (m : Marks) (v : Val F) (op : TokType) (l r : Sym F) (a : TypeVal)
      → no_type m op l r ≡ false
      → IsPlain a
      → type_of m l ≡ plain a
      → is_compat_op a op ≡ true
      → HasType types a l
      → HasType types a r
      → Typed m (end_binary v op l r m)
  unfolding end_binary
  good-Typed m v op l r a h p e c hl hr =
      rw (h, e)
        (inr (
          result_type op a,
          result-IsPlain (is_comp_op op) a p,
          if-plain (is_comp_op op) a,
          of_op (result_type op a) a _ op l r refl p c hl hr,
        ))

  no-undef :
      (m : Marks) (op : TokType) (l r : Sym F)
      → no_type m op l r ≡ false
      → (is_type_undef (type_of m l) ≡ true) ⊎ (is_type_undef (type_of m r) ≡ true)
      → ⊥
  no-undef m op l r h k =
      let (_, u, u') = or-none (is_compat (type_of m l) (some (type_of m r)) op) _ _ h in
      clash u u' k
    where
      clash : {a b : Bool} → a ≡ false → b ≡ false → (a ≡ true) ⊎ (b ≡ true) → ⊥
      clash e e' (inl x) = cc
      clash e e' (inr x) = cc

  operands :
      (m : Marks) (op : TokType) (l r : Sym F) (a b : TypeVal)
      → IsPlain a
      → IsPlain b
      → type_of m l ≡ plain a
      → type_of m r ≡ plain b
      → no_type m op l r ≡ false
      → (a ≡ b) × (is_compat_op a op ≡ true)
  unfolding is_compat
  operands m op l r a b p q e e' h =
      let h' : no_ty op (plain a) (plain b) ≡ false =
        subst (λ x. no_ty op x (plain b) ≡ false) e
          (subst (λ y. no_ty op (type_of m l) y ≡ false) e' h) in
      let (c, d) = and-both _ _ (or-none (is_compat (plain a) (some (plain b)) op) _ _ h').0 in
      (compat-same a b p q c, d)

  end-Typed :
      (m : Marks) (v : Val F) (op : TokType) (l r : Sym F) (x : Bool)
      → no_type m op l r ≡ x
      → Typed m l
      → Typed m r
      → Typed m (end_binary v op l r m)
  end-Typed m v op l r true h k k' = bad-Typed m v op l r h
  end-Typed m v op l r false h (inl e) k = absurd (no-undef m op l r h (inl (undef-is _ e)))
  end-Typed m v op l r false h (inr x) (inl e) = absurd (no-undef m op l r h (inr (undef-is _ e)))
  end-Typed m v op l r false h (inr (a, p, e, hl)) (inr (b, q, e', hr)) =
      let (same, c) = operands m op l r a b p q e e' h in
      good-Typed m v op l r a h p e c hl (rw same hr)

  end-Declared :
      (m : Marks) (v : Val F) (op : TokType) (l r : Sym F) (x : Bool)
      → no_type m op l r ≡ x
      → Declared types l
      → Declared types r
      → Declared types (end_binary v op l r m)
  unfolding end_binary
  end-Declared m v op l r true h d d' = rw h (d, d')
  end-Declared m v op l r false h d d' = rw h (d, d')

  bind-Post :
      (r : Result (Sym F × Marks)) (f : Sym F × Marks → Result (Sym F × Marks))
      → Post r
      → ((s : Sym F) (m : Marks) → Clean m → Declared types s → Typed m s → Post (f (s, m)))
      → Post (r >>= f)
  bind-Post (ok (s, m)) f h k = k s m h.0 h.1 h.2
  bind-Post fatal f h k = h
  bind-Post panic f h k = h

  pub annotate-Post : (s : Sym F) (m : Marks) → Declared types s → Clean m → Post (annotate s m)
  unfolding annotate
  annotate-Post (leaf v) m (t, p, k, d) h = leaf-Post v.s_type t v m k k p d h
  annotate-Post (ref v) m (t, p, k, d, g) h = ref-Post v.s_type t v m k k p d g h
  annotate-Post (binary v op l r) m (hl, hr) h =
      bind-Post (annotate l m) _ (annotate-Post l m hl h) (λ l' m₁ h₁ dl k.
        bind-Post (annotate r m₁) _ (annotate-Post r m₁ hr h₁) (λ r' m₂ h₂ dr k'. (
          h₂,
          end-Declared m₂ v op l' r' _ refl dl dr,
          end-Typed m₂ v op l' r' _ refl (Typed-Clean m₁ m₂ l' h₁ h₂ k) k',
        )))
  annotate-Post (fcall v f xs) m d h = absurd d
  annotate-Post (unary v op r) m d h = absurd d
