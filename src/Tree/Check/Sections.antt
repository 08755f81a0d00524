-- ===== src/Tree/Check/Sections.antt =====
-- tree/type.go: the type of the section in the check of an expression.
use rips.Prelude.{
  ◌≡◌, refl, ap, Bool, true, false, not, ◌&&◌, ◌||◌, if◌then◌else◌, str_eq, Option, none, some,
  List, ◌⊎◌, inl, inr,
}
use rips.Prelude.Result.{Result, ok, fatal, panic, ◌>>=◌}
use rips.Lex.Token.{TokType}
use rips.Types.{
  Ty, TypeVal, TypeExpr, tv_bool, te_undef, te_expr, te_external, te_msg, te_graph, te_msg_graph,
  is_type_compat, is_type_expr_compat, is_type_undef,
}
use rips.Extern.Host.{Host}
use rips.Tree.Sym.{
  Val, Sym, leaf, ref, fcall, binary, unary, Args, no_args, arg, Func, SType, s_none, s_sect,
  s_level, s_fcall, s_var, s_func, s_const, s_unary, s_binary, s_asign, s_regexp, s_yara,
}
use rips.Tree.Annotate.{
  Marks, ref_type, type_of, undef_of, set_undef, set_undef_if, annotate_ref, annotate_leaf,
  bad_arity, last_of, next_type, rest_types, Annotated, end_set, end_trigger, after_args,
  end_binary, end_unary, before_unary, string_operand, annotate, annotate_args, arg_fits, or_first,
  was_used,
}
use rips.Tree.Check.{
  Scope, type_check, check_args, check_sym, call_errors, bad_type, count_if, set_errors,
  first_errors,
}

-- The type is undefined, or of the section type that agrees with all.
abbrev pub IsFlat : Ty → Type 0
IsFlat t = (t.t_expr ≡ te_expr) ⊎ (t.t_expr ≡ te_undef)

-- The types of the constants, of the variables and of the results of the functions are flat; those of the
-- parameters are any.
abbrev mutual
  pub Flat : {F : Type 0} → Sym F → Type 0
  Flat (leaf v) = IsFlat v.data_type
  Flat (ref v) = IsFlat v.data_type
  Flat (fcall v none xs) = FlatArgs xs
  Flat (fcall v (some f) xs) = IsFlat f.ret_type × FlatArgs xs
  Flat (binary v op l r) = Flat l × Flat r
  Flat (unary v op r) = Flat r

  pub FlatArgs : {F : Type 0} → Args F → Type 0
  FlatArgs no_args = Unit {0}
  FlatArgs (arg x xs) = Flat x × FlatArgs xs

-- The same with the types of the operators and the calls, where the arguments have been annotated.
abbrev mutual
  AllFlat : {F : Type 0} → Sym F → Type 0
  AllFlat (leaf v) = IsFlat v.data_type
  AllFlat (ref v) = IsFlat v.data_type
  AllFlat (fcall v none xs) = IsFlat v.data_type
  AllFlat (fcall v (some f) xs) = IsFlat v.data_type × (AllFlatArgs xs ⊎ (bad_arity f xs ≡ true))
  AllFlat (binary v op l r) = IsFlat v.data_type × AllFlat l × AllFlat r
  AllFlat (unary v op r) = IsFlat v.data_type × AllFlat r

  AllFlatArgs : {F : Type 0} → Args F → Type 0
  AllFlatArgs no_args = Unit {0}
  AllFlatArgs (arg x xs) = AllFlat x × AllFlatArgs xs

any_expr : (e : TypeExpr) → is_type_expr_compat e te_expr ≡ true
unfolding is_type_expr_compat
any_expr te_undef = refl
any_expr te_expr = refl
any_expr te_external = refl
any_expr te_msg = refl
any_expr te_graph = refl
any_expr te_msg_graph = refl

any_undef : (e : TypeExpr) → is_type_expr_compat e te_undef ≡ true
unfolding is_type_expr_compat
any_undef te_undef = refl
any_undef te_expr = refl
any_undef te_external = refl
any_undef te_msg = refl
any_undef te_graph = refl
any_undef te_msg_graph = refl

any_flat : (e : TypeExpr) (s : Ty) → IsFlat s → is_type_expr_compat e s.t_expr ≡ true
any_flat e s (inl h) = rw h (any_expr e)
any_flat e s (inr h) = rw h (any_undef e)

-- Two section types of one value type agree with the same flat types.
compat-IsFlat :
    (v : TypeVal) (d e : TypeExpr) (s : Ty)
    → IsFlat s
    → is_type_compat (record { t_val = v; t_expr = d }) s
      ≡ is_type_compat (record { t_val = v; t_expr = e }) s
unfolding is_type_compat
compat-IsFlat v d e s h = rw (any_flat d s h, any_flat e s h) refl

bad-IsFlat :
    (v : TypeVal) (d e : TypeExpr) (s : Ty)
    → IsFlat s
    → bad_type (record { t_val = v; t_expr = d }) s ≡ bad_type (record { t_val = v; t_expr = e }) s
unfolding bad_type
bad-IsFlat v d e s h = ap (λ b. is_type_undef s || not b) (compat-IsFlat v d e s h)

sym-IsFlat :
    (v : TypeVal) (d e : TypeExpr) (s : Ty) (k : SType)
    → IsFlat s
    → check_sym (record { t_val = v; t_expr = d }) s k
      ≡ check_sym (record { t_val = v; t_expr = e }) s k
sym-IsFlat v d e s s_const h = ap (λ b. ok (count_if (not b))) (compat-IsFlat v d e s h)
sym-IsFlat v d e s s_var h = ap (λ b. ok (count_if b)) (bad-IsFlat v d e s h)
sym-IsFlat v d e s _ h = refl

ref-IsFlat : (b : Bool) (t : Ty) → IsFlat t → IsFlat (ref_type b t)
ref-IsFlat true t h = inr refl
ref-IsFlat false t h = h

module _ {F : Type 0} where
  type_of-IsFlat : (m : Marks) (s : Sym F) → AllFlat s → IsFlat (type_of m s)
  unfolding type_of
  type_of-IsFlat m (leaf w) h = h
  type_of-IsFlat m (ref w) h = ref-IsFlat (m w.name).is_undef w.data_type h
  type_of-IsFlat m (fcall w none xs) h = h
  type_of-IsFlat m (fcall w (some f) xs) h = h.0
  type_of-IsFlat m (binary w op l r) h = h.0
  type_of-IsFlat m (unary w op r) h = h.0

module _ {F : Type 0} (host : Host) (sc : Scope) (v : TypeVal) (d e : TypeExpr) where
  call-IsFlat :
      (w : Val F) (xs : Args F)
      → IsFlat w.data_type
      → call_errors host sc (record { t_val = v; t_expr = d }) w xs
        ≡ call_errors host sc (record { t_val = v; t_expr = e }) w xs
  unfolding call_errors
  call-IsFlat w xs h =
      ap
        (λ b.
          if str_eq w.name "set" && b
          then set_errors host sc xs
          else first_errors host sc w.name (is_type_undef w.data_type) b xs)
        (bad-IsFlat v d e w.data_type h)

  mutual
    unfolding type_check

    check-IsFlat :
        (m : Marks) (top : Bool) (s : Sym F)
        → AllFlat s
        → type_check host sc (record { t_val = v; t_expr = d }) m top s
          ≡ type_check host sc (record { t_val = v; t_expr = e }) m top s
    check-IsFlat m top (leaf w) h = sym-IsFlat v d e w.data_type w.s_type h
    check-IsFlat m top (ref w) h = sym-IsFlat v d e _ w.s_type (type_of-IsFlat m (ref w) h)
    check-IsFlat m top (fcall w none xs) h = refl
    check-IsFlat m top (fcall w (some f) xs) (h, inr e) = rw e refl
    check-IsFlat m top (fcall w (some f) xs) (h, inl hs) =
        rw (args-IsFlat m (last_of f.arg_data_types) xs hs, call-IsFlat w xs h) refl
    check-IsFlat m top (binary w op l r) h =
        rw
          (check-IsFlat m false l h.1, check-IsFlat m false r h.2, bad-IsFlat v d e w.data_type h.0)
          refl
    check-IsFlat m top (unary w op r) h =
        rw (check-IsFlat m false r h.1, bad-IsFlat v d e w.data_type h.0) refl

    args-IsFlat :
        (m : Marks) (last : Option Ty) (xs : Args F)
        → AllFlatArgs xs
        → check_args host sc (record { t_val = v; t_expr = d }) m last xs
          ≡ check_args host sc (record { t_val = v; t_expr = e }) m last xs
    args-IsFlat m last no_args h = refl
    args-IsFlat m last (arg x xs) h =
        rw
          (
            check-IsFlat m false x h.0,
            args-IsFlat m last xs h.1,
            bad-IsFlat v d e (type_of m x) (type_of-IsFlat m x h.0),
          )
          refl

-- If a computation ends with an expression, all its types are flat.
abbrev Flattens : {F : Type 0} → Result (Sym F × Marks) → Type 0
Flattens (ok (s, m)) = AllFlat s
Flattens fatal = Unit {0}
Flattens panic = Unit {0}

abbrev FlattensArgs : {F : Type 0} → Result (Annotated F × Marks) → Type 0
FlattensArgs (ok (a, m)) = AllFlatArgs a.args
FlattensArgs fatal = Unit {0}
FlattensArgs panic = Unit {0}

module _ {F : Type 0} where
  sym-sym :
      (r : Result (Sym F × Marks)) (f : Sym F × Marks → Result (Sym F × Marks))
      → Flattens r
      → ((p : Sym F × Marks) → AllFlat p.0 → Flattens (f p))
      → Flattens (r >>= f)
  sym-sym (ok p) f h k = k p h
  sym-sym fatal f h k = tt
  sym-sym panic f h k = tt

  sym-args :
      (r : Result (Sym F × Marks)) (f : Sym F × Marks → Result (Annotated F × Marks))
      → Flattens r
      → ((p : Sym F × Marks) → AllFlat p.0 → FlattensArgs (f p))
      → FlattensArgs (r >>= f)
  sym-args (ok p) f h k = k p h
  sym-args fatal f h k = tt
  sym-args panic f h k = tt

  args-args :
      (r : Result (Annotated F × Marks)) (f : Annotated F × Marks → Result (Annotated F × Marks))
      → FlattensArgs r
      → ((p : Annotated F × Marks) → AllFlatArgs p.0.args → FlattensArgs (f p))
      → FlattensArgs (r >>= f)
  args-args (ok p) f h k = k p h
  args-args fatal f h k = tt
  args-args panic f h k = tt

  args-sym :
      (r : Result (Annotated F × Marks)) (f : Annotated F × Marks → Result (Sym F × Marks))
      → FlattensArgs r
      → ((p : Annotated F × Marks) → AllFlatArgs p.0.args → Flattens (f p))
      → Flattens (r >>= f)
  args-sym (ok p) f h k = k p h
  args-sym fatal f h k = tt
  args-sym panic f h k = tt

  fit-args :
      (r : Result (Bool)) (f : Bool → Result (Annotated F × Marks))
      → ((p : Bool) → FlattensArgs (f p))
      → FlattensArgs (r >>= f)
  fit-args (ok p) f k = k p
  fit-args fatal f k = tt
  fit-args panic f k = tt

  set-sym :
      (r : Result (Bool × Marks)) (f : Bool × Marks → Result (Sym F × Marks))
      → ((p : Bool × Marks) → Flattens (f p))
      → Flattens (r >>= f)
  set-sym (ok p) f k = k p
  set-sym fatal f k = tt
  set-sym panic f k = tt

  marks-sym :
      (r : Result (Marks)) (f : Marks → Result (Sym F × Marks))
      → ((p : Marks) → Flattens (f p))
      → Flattens (r >>= f)
  marks-sym (ok p) f k = k p
  marks-sym fatal f k = tt
  marks-sym panic f k = tt

  set_undef-IsFlat : (b : Bool) (s : Sym F) (m : Marks) → AllFlat s → AllFlat (set_undef_if b s m).0
  unfolding set_undef_if set_undef
  set_undef-IsFlat false s m h = h
  set_undef-IsFlat true (leaf v) m h = inr refl
  set_undef-IsFlat true (ref v) m h = h
  set_undef-IsFlat true (fcall v none xs) m h = inr refl
  set_undef-IsFlat true (fcall v (some f) xs) m h = (inr refl, h.1)
  set_undef-IsFlat true (binary v op l r) m h = (inr refl, h.1, h.2)
  set_undef-IsFlat true (unary v op r) m h = (inr refl, h.1)

  leaf-IsFlat :
      (k : SType) (v : Val F) (m : Marks) → IsFlat v.data_type → Flattens (annotate_leaf k v m)
  leaf-IsFlat s_level v m h = inl refl
  leaf-IsFlat s_const v m h = h
  leaf-IsFlat s_var v m h = h
  leaf-IsFlat s_sect v m h = inr refl
  leaf-IsFlat s_none v m h = h
  leaf-IsFlat s_fcall v m h = inr refl
  leaf-IsFlat s_binary v m h = inr refl
  leaf-IsFlat s_unary v m h = inr refl
  leaf-IsFlat s_func v m h = tt
  leaf-IsFlat s_asign v m h = tt
  leaf-IsFlat s_regexp v m h = tt
  leaf-IsFlat s_yara v m h = tt

  sym_ref-IsFlat :
      (k : SType) (v : Val F) (m : Marks) → IsFlat v.data_type → Flattens (annotate_ref k v m)
  unfolding annotate_ref set_undef
  sym_ref-IsFlat s_level v m h = inl refl
  sym_ref-IsFlat s_const v m h = h
  sym_ref-IsFlat s_var v m h = h
  sym_ref-IsFlat s_sect v m h = inr refl
  sym_ref-IsFlat s_none v m h = h
  sym_ref-IsFlat s_fcall v m h = h
  sym_ref-IsFlat s_binary v m h = h
  sym_ref-IsFlat s_unary v m h = h
  sym_ref-IsFlat s_func v m h = tt
  sym_ref-IsFlat s_asign v m h = tt
  sym_ref-IsFlat s_regexp v m h = tt
  sym_ref-IsFlat s_yara v m h = tt

  call_node-IsFlat :
      (b : Bool) (v : Val F) (f : Func) (xs : Args F)
      → IsFlat f.ret_type
      → AllFlatArgs xs
      → AllFlat (
          fcall
            (if b
              then record v { data_type = f.ret_type }
              else undef_of (record v { data_type = f.ret_type }))
            (some f)
            xs)
  call_node-IsFlat true v f xs h k = (h, inl k)
  call_node-IsFlat false v f xs h k = (inr refl, inl k)

  after_args-IsFlat :
      (v : Val F) (f : Func) (a : Annotated F) (m : Marks)
      → IsFlat f.ret_type
      → AllFlatArgs a.args
      → Flattens (after_args v f a m)
  unfolding after_args
  after_args-IsFlat v f a m h k =
      set-sym (if str_eq v.name "set" then end_set a.wasused a.args m else ok (true, m)) _ (λ p.
        marks-sym (if str_eq v.name "trigger" then end_trigger a.args p.1 else ok p.1) _
          (λ m₂. call_node-IsFlat (a.fits && p.0) v f a.args h k))

  binary-IsFlat :
      (v : Val F) (op : TokType) (l r : Sym F) (m : Marks) (b c : Bool)
      → AllFlat l
      → AllFlat r
      → IsFlat (type_of m l)
      → AllFlat (
          if b
          then binary (undef_of v) op l r
          else binary
              (record v {
                data_type = if c then record (type_of m l) { t_val = tv_bool } else type_of m l;
              })
              op
              l
              r)
  binary-IsFlat v op l r m true c h k q = (inr refl, h, k)
  binary-IsFlat v op l r m false true h k q = (q, h, k)
  binary-IsFlat v op l r m false false h k q = (q, h, k)

  unary-IsFlat :
      (v : Val F) (op : TokType) (r : Sym F) (m : Marks) (b : Bool)
      → AllFlat r
      → IsFlat (type_of m r)
      → AllFlat
          (if b then unary (undef_of v) op r else unary (record v { data_type = type_of m r }) op r)
  unary-IsFlat v op r m true h q = (inr refl, h)
  unary-IsFlat v op r m false h q = (q, h)

  string-IsFlat :
      (b : Bool) (w : Val F) → IsFlat w.data_type → IsFlat (if b then undef_of w else w).data_type
  string-IsFlat true w h = inr refl
  string-IsFlat false w h = h

  operand-IsFlat : (s t : Sym F) → AllFlat t → AllFlat (string_operand s t)
  operand-IsFlat (leaf v) (leaf w) h = string-IsFlat _ w h
  operand-IsFlat (leaf v) (ref w) h = h
  operand-IsFlat (leaf v) (fcall w f xs) h = h
  operand-IsFlat (leaf v) (binary w op l r) h = h
  operand-IsFlat (leaf v) (unary w op r) h = h
  operand-IsFlat (ref v) t h = h
  operand-IsFlat (fcall v f xs) t h = h
  operand-IsFlat (binary v op l r) t h = h
  operand-IsFlat (unary v op r) t h = h

  arity-IsFlat :
      (v : Val F) (f : Func) (xs : Args F) (m : Marks) (b : Bool)
      → bad_arity f xs ≡ b
      → (r : Result (Sym F × Marks)) → Flattens r
      → Flattens (
          if b
          then ok (fcall (undef_of (record v { data_type = f.ret_type })) (some f) xs, m)
          else r)
  arity-IsFlat v f xs m true e r h = (inr refl, inr e)
  arity-IsFlat v f xs m false e r h = h

  mutual
    unfolding annotate end_binary end_unary

    annotate-Flattens : (s : Sym F) (m : Marks) → Flat s → Flattens (annotate s m)
    annotate-Flattens (leaf v) m h = leaf-IsFlat v.s_type v m h
    annotate-Flattens (ref v) m h = sym_ref-IsFlat v.s_type v m h
    annotate-Flattens (fcall v none xs) m h = inr refl
    annotate-Flattens (fcall v (some f) xs) m h = arity-IsFlat v f xs m (bad_arity f xs) refl _ (
        args-sym (annotate_args f.arg_data_types (last_of f.arg_data_types) none false true xs m) _
          (args-Flattens _ _ _ _ _ xs m h.1) (λ p hx. after_args-IsFlat v f p.0 p.1 h.0 hx))
    annotate-Flattens (binary v op l r) m h =
        sym-sym (annotate l m) _ (annotate-Flattens l m h.0) (λ p hl.
          sym-sym (annotate r p.1) _ (annotate-Flattens r p.1 h.1)
            (λ q hr. binary-IsFlat v op p.0 q.0 q.1 _ _ hl hr (type_of-IsFlat q.1 p.0 hl)))
    annotate-Flattens (unary v op r) m h =
        sym-sym (annotate r (before_unary r m)) _ (annotate-Flattens r _ h) (λ p hr.
          unary-IsFlat v op _ p.1 _ (operand-IsFlat r p.0 hr)
            (type_of-IsFlat p.1 _ (operand-IsFlat r p.0 hr)))

    args-Flattens :
        (ts : List Ty) (last : Option Ty) (first : Option (Sym F)) (used fits : Bool) (xs : Args F)
        (m : Marks)
        → FlatArgs xs
        → FlattensArgs (annotate_args ts last first used fits xs m)
    args-Flattens ts last first used fits no_args m h = tt
    args-Flattens ts last first used fits (arg x xs) m h =
        sym-args (annotate x m) _ (annotate-Flattens x m h.0) (λ p hx.
          fit-args (arg_fits (next_type ts last) p.0 p.1) _ (λ fit.
            args-args
              (annotate_args (rest_types ts) last (or_first first x) (was_used first x m used)
                (fit && fits) xs (set_undef_if (not fit) p.0 p.1).1)
              _ (args-Flattens _ _ _ _ _ xs _ h.1)
              (λ q hq. (set_undef-IsFlat (not fit) p.0 p.1 hx, hq))))

module _ {F : Type 0} (host : Host) (sc : Scope) where
  outcome-IsFlat :
      (r : Result (Sym F × Marks)) (top : Bool) (v : TypeVal) (d e : TypeExpr)
      → Flattens r
      → (r >>= λ p. type_check host sc (record { t_val = v; t_expr = d }) p.1 top p.0)
        ≡ (r >>= λ p. type_check host sc (record { t_val = v; t_expr = e }) p.1 top p.0)
  outcome-IsFlat (ok (s, m)) top v d e h = check-IsFlat host sc v d e m top s h
  outcome-IsFlat fatal top v d e h = refl
  outcome-IsFlat panic top v d e h = refl

  -- Where the results of all functions in an expression agree with every section, as those of the builtins
  -- do, the check of the expression has the same outcome in every section, whatever sections the types of
  -- the parameters name: a predicate on messages is accepted in the section of the graph.
  pub type_check-section :
      (s : Sym F) (m : Marks) (top : Bool) (v : TypeVal) (d e : TypeExpr)
      → Flat s
      → (annotate s m >>= λ p. type_check host sc (record { t_val = v; t_expr = d }) p.1 top p.0)
        ≡ (annotate s m >>= λ p. type_check host sc (record { t_val = v; t_expr = e }) p.1 top p.0)
  type_check-section s m top v d e h =
      outcome-IsFlat (annotate s m) top v d e (annotate-Flattens s m h)
