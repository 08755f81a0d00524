-- ===== src/Tree/Check/Sound.antt =====
-- tree/type.go and tree/eval.go: what the type checker accepts evaluates without errors of types.
use mathlib.Core.Path.{subst}
use rips.Prelude.{
  ℕ, zero, suc, ◌+◌, ◌≡◌, refl, sym, ◌∙◌, Bool, true, false, ◌||◌, String, Option, some, arith, ◌⊎◌,
  inl, inr,
}
use rips.Prelude.Result.{Result, ok, fatal, panic, ◌>>=◌}
use rips.Lex.Token.{TokType}
use rips.Types.{Ty, TypeVal, te_undef}
use rips.Extern.Host.{Host}
use rips.Tree.Sym.{Floats, Val, Sym, SType, leaf, ref, fcall, binary, unary, s_const, s_var}
use rips.Tree.Ops.Laws.{plain}
use rips.Tree.Eval.{Machine, eval_expr}
use rips.Tree.Eval.Sound.{HasType, of_const, of_var, HasDivision, Sound, eval_expr-Sound}
use rips.Tree.Annotate.{Marks, type_of, annotate}
use rips.Tree.Check.{Scope, type_check, check_sym, bad_type, count_if}
use rips.Tree.Check.Typed.{Declared, Clean, Typed, Post, annotate-Post, ref_type-Clean, undef-is}

-- A check that finds no error gives what is claimed, and no check panics.
abbrev pub Passed : Type 0 → Result ℕ → Type 0
Passed X (ok zero) = X
Passed X (ok (suc n)) = Unit {0}
Passed X fatal = ⊥
Passed X panic = ⊥

passed : {X : Type 0} (n : ℕ) → (n ≡ 0 → X) → Passed X (ok n)
passed zero h = h refl
passed (suc n) h = tt

passes : (X : Type 0) (n : ℕ) → X → Passed X (ok n)
passes X zero x = x
passes X (suc n) x = tt

bind-Passed :
    (X : Type 0) (r : Result ℕ) (f : ℕ → Result ℕ)
    → Passed (Unit {0}) r
    → ((n : ℕ) → Passed X (f n))
    → Passed X (r >>= f)
bind-Passed X (ok n) f h k = k n
bind-Passed X fatal f h k = h
bind-Passed X panic f h k = h

map-Passed : (X Y : Type 0) (r : Result ℕ) → (X → Y) → Passed X r → Passed Y r
map-Passed X Y (ok zero) f h = f h
map-Passed X Y (ok (suc n)) f h = tt
map-Passed X Y fatal f h = h
map-Passed X Y panic f h = h

sym-Passed :
    (X : Type 0) (k : SType) (t s : Ty)
    → (k ≡ s_const) ⊎ (k ≡ s_var)
    → X
    → Passed X (check_sym t s k)
sym-Passed X k t s (inl e) x = rw e (passes X _ x)
sym-Passed X k t s (inr e) x = rw e (passes X _ x)

last_zero : (n k : ℕ) (b : Bool) → n + k + count_if b ≡ 0 → b ≡ false
last_zero n k true e = absurd (omega arith)
last_zero n k false e = refl

undef-bad : (t s : Ty) → s.t_expr ≡ te_undef → bad_type t s ≡ false → ⊥
unfolding bad_type
undef-bad t s e k = clash _ _ (undef-is s e) k
  where
    clash : (a b : Bool) → a ≡ true → (a || b) ≡ false → ⊥
    clash true b e h = cc
    clash false b e h = cc

module _ {F : Type 0} (types : String → Option TypeVal) (host : Host) (sc : Scope) (t : Ty)
    (m : Marks) where
  check-Runs :
      (top : Bool) (s : Sym F) → Declared types s → Passed (Unit {0}) (type_check host sc t m top s)
  unfolding type_check
  check-Runs top (leaf v) (a, p, k, d) = sym-Passed _ v.s_type t _ (inl k) tt
  check-Runs top (ref v) (a, p, k, d, g) = sym-Passed _ v.s_type t _ (inr k) tt
  check-Runs top (binary v op l r) (d, d') =
      bind-Passed _ _ _ (check-Runs false l d)
        (λ n. bind-Passed _ _ _ (check-Runs false r d') (λ k. passes _ _ tt))
  check-Runs top (fcall v f xs) d = absurd d
  check-Runs top (unary v op r) d = absurd d

  Written : Sym F → Type 0
  Written s = (a : TypeVal) × (type_of m s ≡ plain a) × HasType types a s

  node-Written :
      (v : Val F) (op : TokType) (l r : Sym F)
      → Typed types m (binary v op l r)
      → bad_type t v.data_type ≡ false
      → Written (binary v op l r)
  unfolding Written type_of
  node-Written v op l r (inl e) h = absurd (undef-bad t v.data_type e h)
  node-Written v op l r (inr (a, p, e, k)) h = (a, e, k)

  check-Passed :
      (s : Sym F)
      → Clean m
      → Declared types s
      → Typed types m s
      → Passed (Written s) (type_check host sc t m false s)
  unfolding type_check Written type_of
  check-Passed (leaf v) h (a, p, k, d) y =
      sym-Passed _ v.s_type t _ (inl k) (a, d, of_const a v k d)
  check-Passed (ref v) h (a, p, k, d, g) y =
      sym-Passed _ v.s_type t _ (inr k) (a, ref_type-Clean types m v h ∙ d, of_var a v k g)
  check-Passed (binary v op l r) h (d, d') y = bind-Passed _ _ _ (check-Runs false l d) (λ n.
      bind-Passed _ _ _ (check-Runs false r d')
        (λ k. passed _ (λ e. node-Written v op l r y (last_zero n k _ e))))
  check-Passed (fcall v f xs) h d y = absurd d
  check-Passed (unary v op r) h d y = absurd d

-- The annotation and the check end, and if there is no error, the evaluation of the expression that was
-- annotated is sound, with the type that was written to it.
abbrev pub Checked :
    {F W : Type 0}
    → Floats F
    → Machine F W
    → W
    → Host
    → Scope
    → Ty
    → Result (Sym F × Marks)
    → Type 0
Checked fl mach w host sc t (ok (s, m)) =
    Passed (Sound (HasDivision s) (type_of m s).t_val w (eval_expr fl mach true s w))
      (type_check host sc t m false s)
Checked fl mach w host sc t fatal = ⊥
Checked fl mach w host sc t panic = ⊥

module _ {F W : Type 0} (fl : Floats F) (mach : Machine F W) (types : String → Option TypeVal)
    (w : W)
    (agrees : (x : String) (t : TypeVal)
      → types x ≡ some t
      → (v : Val F) × (mach.get_val x w ≡ some v) × (v.data_type ≡ plain t))
    (host : Host) (sc : Scope) (t : Ty) where
  Written-Sound :
      (s : Sym F) (m : Marks)
      → Written types host sc t m s
      → Sound (HasDivision s) (type_of m s).t_val w (eval_expr fl mach true s w)
  unfolding Written
  Written-Sound s m (a, e, k) =
      subst (λ (u : Ty). Sound (HasDivision s) u.t_val w (eval_expr fl mach true s w)) (sym e)
        (eval_expr-Sound fl mach types w agrees a s k)

  Post-Checked : (r : Result (Sym F × Marks)) → Post types r → Checked fl mach w host sc t r
  Post-Checked (ok (s, m)) (h, d, y) =
      map-Passed _ _ _ (Written-Sound s m) (check-Passed types host sc t m s h d y)
  Post-Checked fatal h = h
  Post-Checked panic h = h

  -- An expression of constants, variables and binary operators can be annotated and checked in every
  -- section, without a panic, where no symbol has been made undefined. If the check finds no error and
  -- each variable has a value of the type it is declared with, the evaluation of the annotated expression
  -- does not panic: it ends with a value of the type that was written to the expression and changes
  -- nothing, or it ends with a fatal error and the expression has a division or a remainder.
  pub type_check-Sound :
      (s : Sym F) (m : Marks)
      → Declared types s
      → Clean m
      → Checked fl mach w host sc t (annotate s m)
  type_check-Sound s m d h = Post-Checked (annotate s m) (annotate-Post types s m d h)
